-- ===== src/Cheatcode/Inspector/Single.antt =====
-- Which frames a `prank` is about (`src/evm/cheatcode/inspector.rs`).
use ripfuzz.Cheatcode.Inspector.{
  prank_info, use_start, use_active, World, FrameInput, call_frame, create_frame, empty_frame,
  frame_start, apply_disguises, call_end, call, patch_origin, apply_prank, initiator_exits,
  disguised_origin, apply_create_prank, maybe_restore_origin, disguised_caller, vm_address, restore,
  start_info, prank_info,
}
use ripfuzz.Cheatcode.Inspector.Origin.{Event, starts, ends, calls}
use ripfuzz.Cheatcode.Prank.{PrankState, unused}
use ripfuzz.Prelude.{
  ℕ, ◌+◌, ◌≤◌, ◌≡◌, Bool, true, false, not, Option, none, some, List, [], ◌∷◌, arith, ◌==◌,
  if◌then◌else◌,
}

-- Whether a frame comes from another address than it did.
abbrev pub disguised : FrameInput → FrameInput → ℕ
disguised (call_frame i) (call_frame j) = if i.caller == j.caller then 0 else 1
disguised (create_frame c) (create_frame d) = if c == d then 0 else 1
disguised _ _ = 0

pub disguised_frames : World → List Event → ℕ
disguised_frames w [] = 0
disguised_frames w (starts frame ∷ es) =
    disguised frame ((frame_start w frame).0) + disguised_frames ((frame_start w frame).1) es
disguised_frames w (calls caller c ∷ es) = disguised_frames ((call w caller c).1) es
disguised_frames w (ends ∷ es) = disguised_frames (call_end w) es

-- The frames that a prank may still disguise.
abbrev left : Option PrankState → ℕ
left none = 0
left (some p) = if p.used then 0 else 1

abbrev pub NoCalls : List Event → Type 0
NoCalls [] = Unit
NoCalls (starts _ ∷ es) = NoCalls es
NoCalls (calls _ _ ∷ es) = ⊥
NoCalls (ends ∷ es) = NoCalls es

apply_disguises-left :
    (w : World) (caller : ℕ) (on_target : Bool)
    → w.prank.start ≡ none
    → let r = apply_disguises w caller on_target in
      (r.1.prank.start ≡ none)
      × ((if caller == r.0 then 0 else 1) + left r.1.prank.active ≤ left w.prank.active)
unfolding apply_disguises patch_origin disguised_origin disguised_caller start_info prank_info
    use_start use_active
apply_disguises-left w caller on_target no_start = ground arith

frame_start-left :
    (w : World) (frame : FrameInput)
    → w.prank.start ≡ none
    → let r = frame_start w frame in
      (r.1.prank.start ≡ none) × (disguised frame r.0 + left r.1.prank.active ≤ left w.prank.active)
unfolding frame_start apply_prank apply_create_prank
frame_start-left w (call_frame i) no_start =
    apply_disguises-left (record w { depth = w.depth + 1 }) i.caller
      (not (i.target_address == vm_address)) no_start
frame_start-left w (create_frame c) no_start =
    apply_disguises-left (record w { depth = w.depth + 1 }) c true no_start
frame_start-left w empty_frame no_start = (no_start, omega arith)

call_end-left :
    (w : World)
    → w.prank.start ≡ none
    → ((call_end w).prank.start ≡ none) × (left (call_end w).prank.active ≤ left w.prank.active)
unfolding call_end initiator_exits maybe_restore_origin restore
call_end-left w no_start = ground arith

disguised_frames-left :
    (w : World) (es : List Event)
    → w.prank.start ≡ none
    → NoCalls es
    → disguised_frames w es ≤ left w.prank.active
unfolding disguised_frames
disguised_frames-left w [] s n = omega arith
disguised_frames-left w (starts frame ∷ es) s n =
    let (t, le) = frame_start-left w frame s in
    omega (arith, le, disguised_frames-left ((frame_start w frame).1) es t n)
disguised_frames-left w (calls caller c ∷ es) s n = absurd n
disguised_frames-left w (ends ∷ es) s n =
    let (t, le) = call_end-left w s in omega (arith, le, disguised_frames-left (call_end w) es t n)

-- Between two cheatcode calls and with no `startPrank` in force, at most one frame comes from another
-- address than its caller's, however the frames nest, and none if the prank in force was used.
pub disguised_frames-le-one :
    (w : World) (es : List Event)
    → w.prank.start ≡ none
    → NoCalls es
    → (disguised_frames w es ≤ 1) × (unused w.prank.active ≡ false → disguised_frames w es ≡ 0)
unfolding unused
disguised_frames-le-one w es s n = ground (arith, disguised_frames-left w es s n)
