-- ===== src/Cheatcode/Inspector.antt =====
-- What `src/evm/cheatcode/inspector.rs` does about pranks when a frame starts, at a cheatcode call
-- and when a frame ends.
--
-- `World` holds what these read and write: the prank state, the inspector's depth, and the caller of
-- the transaction's environment, which is `tx.origin`. Loading the impersonated account into the
-- journal changes none of the three.
pub mod Origin
pub mod Single
use ripfuzz.Prelude.{
  ℕ, zero, suc, ◌+◌, ◌-◌, ◌*◌, ◌/◌, ◌%◌, ◌^◌, ◌≤◌, ◌<◌, min, max, compare, Ordering, ◌≡◌, refl, sym,
  ap, ◌∙◌, subst, ◌≢◌, ◌↔◌, ◌⊎◌, inl, inr, Bool, true, false, not, ◌&&◌, ◌||◌, Option, none, some,
  List, [], ◌∷◌, ◌++◌, map, arith, dec_lt, dec_le, ℕ_discrete, ltb, leb, ◌==◌, if◌then◌else◌,
  ltb→lt, lt→ltb, ltb-false→le, ==_iff, Bool-cases, Option-cases, is_some, u64_max, saturating_add,
  length, get_elem?, set, take, drop, is_empty, remove, length-append, length-take, length-drop,
  length-remove, length-set, All, All-append, All-remove, All-set, All-get_elem?, sum_of,
  sum_of-set,
}
use ripfuzz.Cheatcode.Prank.{
  PrankState, StartPrankState, PrankCheatState, Outcome, success, revert, prank, prank_origin,
  start_prank, start_prank_origin, stop_prank,
}

pub record World : Type 0 where
  pub prank : PrankCheatState
  pub depth : ℕ
  pub tx_caller : ℕ

unfoldable pub patch_origin : World → ℕ → World
patch_origin w new_origin =
    let s = w.prank in
    record w {
      prank = record s {
        original_origin = if is_some s.original_origin then s.original_origin else some w.tx_caller;
      };
      tx_caller = new_origin;
    }

unfoldable pub restore : World → Option ℕ → World
restore w none = w
restore w (some orig) =
    let s = w.prank in record w { prank = record s { original_origin = none }; tx_caller = orig }

unfoldable pub maybe_restore_origin : World → World
maybe_restore_origin w =
    if is_some w.prank.start || is_some w.prank.active then w else restore w w.prank.original_origin

-- The cheatcodes' own address, `VM_ADDRESS`.
abbrev pub vm_address : ℕ
vm_address = 0x628dC59F11F72B611132eC40437F125ba1312F08

pub record CallInputs : Type 0 where
  pub caller : ℕ
  pub target_address : ℕ

-- Whom a frame is to come from, and which origin it is to see.
abbrev pub Disguise : Type 0
Disguise = Option (ℕ × Option ℕ)

-- `on_target` is whether the frame's target lets a prank through.
unfoldable pub start_info : Option StartPrankState → ℕ → ℕ → Bool → Disguise
start_info none caller depth on_target = none
start_info (some s) caller depth on_target =
    if caller == s.prank_caller && ltb s.set_depth depth && on_target
    then some (s.caller, s.origin)
    else none

unfoldable pub prank_info : Option PrankState → ℕ → ℕ → Bool → Disguise
prank_info none caller depth on_target = none
prank_info (some p) caller depth on_target =
    if caller == p.prank_caller && ltb p.set_depth depth && on_target && not p.used
    then some (p.caller, p.origin)
    else none

-- The two steps that put a disguise on: the frame's caller, and the origin.
unfoldable pub disguised_caller : Disguise → ℕ → ℕ
disguised_caller none caller = caller
disguised_caller (some (c, _)) caller = c

unfoldable pub disguised_origin : Disguise → World → World
disguised_origin none w = w
disguised_origin (some (_, none)) w = w
disguised_origin (some (_, some o)) w = patch_origin w o

unfoldable pub use_start : Disguise → Option StartPrankState → Option StartPrankState
use_start (some _) (some s) = some (record s { used = true })
use_start _ start = start

unfoldable pub use_active : Disguise → Option PrankState → Option PrankState
use_active (some _) (some p) = some (record p { used = true })
use_active _ active = active

-- What `apply_prank` and `apply_create_prank` share: the new caller, and the world.
unfoldable pub apply_disguises : World → ℕ → Bool → ℕ × World
apply_disguises w caller on_target =
    if not (is_some w.prank.start) && not (is_some w.prank.active)
    then (caller, w)
    else let s = start_info w.prank.start caller w.depth on_target in
      let p = prank_info w.prank.active caller w.depth on_target in
      let v = disguised_origin p (disguised_origin s w) in
      let c = v.prank in
      (
        disguised_caller p (disguised_caller s caller),
        record v {
          prank = record c { start = use_start s c.start; active = use_active p c.active };
        },
      )

unfoldable pub apply_prank : World → CallInputs → CallInputs × World
apply_prank w inputs =
    let (caller, v) = apply_disguises w inputs.caller (not (inputs.target_address == vm_address)) in
    (record inputs { caller = caller }, v)

unfoldable pub apply_create_prank : World → ℕ → ℕ × World
apply_create_prank w caller = apply_disguises w caller true

-- `FrameInput`.
pub data FrameInput : Type 0 where
  call_frame : CallInputs → FrameInput
  create_frame : ℕ → FrameInput
  empty_frame : FrameInput

unfoldable pub frame_start : World → FrameInput → FrameInput × World
frame_start w frame =
    let v = record w { depth = w.depth + 1 } in
    elim frame [
      | call_frame inputs ↦ let (i, u) = apply_prank v inputs in (call_frame i, u)
      | create_frame caller ↦ let (c, u) = apply_create_prank v caller in (create_frame c, u)
      | empty_frame ↦ (empty_frame, v)
    ]

-- The prank cheatcodes, and all others, which leave the prank state alone.
pub data VmCall : Type 0 where
  prank_0 : ℕ → VmCall
  prank_1 : ℕ → ℕ → VmCall
  start_prank_0 : ℕ → VmCall
  start_prank_1 : ℕ → ℕ → VmCall
  stop_prank_0 : VmCall
  other : VmCall

unfoldable pub dispatch : VmCall → PrankCheatState → Outcome × PrankCheatState
dispatch (prank_0 a) s = prank s a
dispatch (prank_1 a origin) s = prank_origin s a origin
dispatch (start_prank_0 a) s = start_prank s a
dispatch (start_prank_1 a origin) s = start_prank_origin s a origin
dispatch stop_prank_0 s = stop_prank s
dispatch other s = (success, s)

-- The four matches after the dispatch: a prank that was just set learns who set it, and where.
unfoldable pub settle_active : ℕ → ℕ → Option PrankState → Option PrankState
settle_active caller parent_depth none = none
settle_active caller parent_depth (some p) = some (record p {
  prank_caller = if p.prank_caller == 0 then caller else p.prank_caller;
  set_depth = if p.set_depth == 0 then parent_depth else p.set_depth;
})

unfoldable pub settle_start : ℕ → ℕ → Option StartPrankState → Option StartPrankState
settle_start caller parent_depth none = none
settle_start caller parent_depth (some s) = some (record s {
  prank_caller = if s.prank_caller == 0 then caller else s.prank_caller;
  set_depth = if s.set_depth == 0 then parent_depth else s.set_depth;
})

unfoldable pub is_stop_prank : VmCall → Bool
is_stop_prank stop_prank_0 = true
is_stop_prank _ = false

-- A call of a cheatcode; `stopPrank` always succeeds.
unfoldable pub call : World → ℕ → VmCall → Outcome × World
call w caller vm_call =
    let (outcome, s) = dispatch vm_call w.prank in
    let settled = record s {
      active = settle_active caller (w.depth - 1) s.active;
      start = settle_start caller (w.depth - 1) s.start;
    } in
    let v = record w { prank = settled } in
    (outcome, if is_stop_prank vm_call then maybe_restore_origin v else v)

unfoldable pub initiator_exits : ℕ → Option PrankState → Bool
initiator_exits depth none = false
initiator_exits depth (some p) = p.single_call && depth == p.set_depth

-- `call_end` and `create_end`, which are alike.
unfoldable pub call_end : World → World
call_end w =
    let s = w.prank in
    let exits = initiator_exits w.depth s.active in
    let v = record w {
      prank = record s { active = if exits then none else s.active };
      depth = w.depth - 1;
    } in
    if exits then maybe_restore_origin v else v
