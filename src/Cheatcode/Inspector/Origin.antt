-- ===== src/Cheatcode/Inspector/Origin.antt =====
-- The transaction's own origin over all its frames (`src/evm/cheatcode/inspector.rs`).
use ripfuzz.Prelude.{
  ℕ, ◌+◌, ◌≤◌, ◌≡◌, refl, sym, ◌∙◌, subst, Bool, true, not, Option, none, some, List, [], ◌∷◌,
  arith, ◌==◌,
}
use ripfuzz.Cheatcode.Prank.{
  set_prank, set_start_prank, no_pranks, PrankState, PrankCheatState, prank, prank_origin,
  start_prank, start_prank_origin, stop_prank,
}
use ripfuzz.Cheatcode.Inspector.{
  call_frame, create_frame, empty_frame, prank_0, prank_1, start_prank_0, start_prank_1,
  stop_prank_0, other, World, maybe_restore_origin, patch_origin, restore, apply_disguises,
  disguised_origin, start_info, use_active, prank_info, use_start, frame_start, call, call_end,
  apply_prank, dispatch, initiator_exits, apply_create_prank, VmCall, settle_active, FrameInput,
  settle_start, is_stop_prank, vm_address,
}

-- The transaction's sender: what was saved, or the caller in force when nothing was.
unfoldable pub true_origin : Option ℕ → ℕ → ℕ
true_origin none caller = caller
true_origin (some o) caller = o

abbrev pub sender : World → ℕ
sender w = true_origin w.prank.original_origin w.tx_caller

-- No origin is kept aside unless a prank is in force.
abbrev pub Tidy : World → Type 0
Tidy w = w.prank.active ≡ none → w.prank.start ≡ none → w.prank.original_origin ≡ none

maybe_restore_origin-sender : (w : World) → sender (maybe_restore_origin w) ≡ sender w
unfolding maybe_restore_origin true_origin restore
maybe_restore_origin-sender w = ground arith

maybe_restore_origin-Tidy : (w : World) → Tidy (maybe_restore_origin w)
unfolding maybe_restore_origin restore
maybe_restore_origin-Tidy w = ground arith

patch_origin-sender : (w : World) (o : ℕ) → sender (patch_origin w o) ≡ sender w
unfolding patch_origin true_origin
patch_origin-sender w o = ground arith

-- A prank of a single call was set by a frame that is still running.
abbrev pub Nested : ℕ → Option PrankState → Type 0
Nested depth none = Unit
Nested depth (some p) = (p.single_call ≡ true) × (1 ≤ p.set_depth) × (p.set_depth ≤ depth)

-- What every event keeps, for a transaction of sender `o`.
pub record Sound (o : ℕ) (w : World) : Type 0 where
  pub same : sender w ≡ o
  pub tidy : Tidy w
  pub nested : Nested w.depth w.prank.active

apply_disguises-sender :
    (w : World) (caller : ℕ) (on_target : Bool)
    → sender ((apply_disguises w caller on_target).1) ≡ sender w
unfolding apply_disguises patch_origin true_origin disguised_origin
apply_disguises-sender w caller on_target = ground arith

apply_disguises-Tidy :
    (w : World) (caller : ℕ) (on_target : Bool)
    → Tidy w
    → Tidy ((apply_disguises w caller on_target).1)
unfolding apply_disguises patch_origin disguised_origin start_info prank_info use_start use_active
apply_disguises-Tidy w caller on_target t = ground arith

apply_disguises-Nested :
    (w : World) (caller : ℕ) (on_target : Bool)
    → Nested w.depth w.prank.active
    → Nested
        ((apply_disguises w caller on_target).1).depth
        ((apply_disguises w caller on_target).1).prank.active
unfolding apply_disguises patch_origin disguised_origin use_active
apply_disguises-Nested w caller on_target n = ground arith

abbrev deeper : World → World
deeper w = record w { depth = w.depth + 1 }

deeper-Sound : (o : ℕ) (w : World) → Sound o w → Sound o (deeper w)
deeper-Sound o w s = record { same = s.same; tidy = s.tidy; nested = ground (arith, s.nested) }

apply_disguises-Sound :
    (o : ℕ) (w : World) (caller : ℕ) (on_target : Bool)
    → Sound o w
    → Sound o ((apply_disguises w caller on_target).1)
apply_disguises-Sound o w caller on_target s = record {
  same = apply_disguises-sender w caller on_target ∙ s.same;
  tidy = apply_disguises-Tidy w caller on_target s.tidy;
  nested = apply_disguises-Nested w caller on_target s.nested;
}

frame_start-Sound :
    (o : ℕ) (w : World) (frame : FrameInput) → Sound o w → Sound o ((frame_start w frame).1)
unfolding frame_start apply_prank apply_create_prank
frame_start-Sound o w (call_frame i) s =
    apply_disguises-Sound o (deeper w) i.caller (not (i.target_address == vm_address))
      (deeper-Sound o w s)
frame_start-Sound o w (create_frame caller) s =
    apply_disguises-Sound o (deeper w) caller true (deeper-Sound o w s)
frame_start-Sound o w empty_frame s = deeper-Sound o w s

call-sender : (w : World) (caller : ℕ) (c : VmCall) → sender ((call w caller c).1) ≡ sender w
unfolding call dispatch settle_active settle_start is_stop_prank maybe_restore_origin restore prank
    prank_origin start_prank start_prank_origin stop_prank set_prank set_start_prank true_origin
call-sender w caller (prank_0 a) = ground arith
call-sender w caller (prank_1 a origin) = ground arith
call-sender w caller (start_prank_0 a) = ground arith
call-sender w caller (start_prank_1 a origin) = ground arith
call-sender w caller stop_prank_0 = ground arith
call-sender w caller other = ground arith

call-Tidy : (w : World) (caller : ℕ) (c : VmCall) → Tidy w → Tidy ((call w caller c).1)
unfolding call dispatch settle_active settle_start is_stop_prank maybe_restore_origin restore prank
    prank_origin start_prank start_prank_origin stop_prank set_prank set_start_prank
call-Tidy w caller (prank_0 a) t = ground arith
call-Tidy w caller (prank_1 a origin) t = ground arith
call-Tidy w caller (start_prank_0 a) t = ground arith
call-Tidy w caller (start_prank_1 a origin) t = ground arith
call-Tidy w caller stop_prank_0 t = ground arith
call-Tidy w caller other t = ground arith

call-Nested :
    (w : World) (caller : ℕ) (c : VmCall)
    → 2 ≤ w.depth
    → Nested w.depth w.prank.active
    → Nested ((call w caller c).1).depth ((call w caller c).1).prank.active
unfolding call dispatch settle_active settle_start is_stop_prank maybe_restore_origin restore prank
    prank_origin start_prank start_prank_origin stop_prank set_prank set_start_prank
call-Nested w caller (prank_0 a) deep n = ground arith
call-Nested w caller (prank_1 a origin) deep n = ground arith
call-Nested w caller (start_prank_0 a) deep n = ground arith
call-Nested w caller (start_prank_1 a origin) deep n = ground arith
call-Nested w caller stop_prank_0 deep n = ground arith
call-Nested w caller other deep n = ground arith

call-Sound :
    (o : ℕ) (w : World) (caller : ℕ) (c : VmCall)
    → 2 ≤ w.depth
    → Sound o w
    → Sound o ((call w caller c).1)
call-Sound o w caller c deep s = record {
  same = call-sender w caller c ∙ s.same;
  tidy = call-Tidy w caller c s.tidy;
  nested = call-Nested w caller c deep s.nested;
}

call_end-Sound : (o : ℕ) (w : World) → Sound o w → Sound o (call_end w)
unfolding call_end initiator_exits maybe_restore_origin restore true_origin
call_end-Sound o w s = record {
  same = ground (arith, s.same);
  tidy = ground (arith, s.tidy);
  nested = ground (arith, s.nested);
}

-- What revm tells the inspector of, in the order it happens.
pub data Event : Type 0 where
  starts : FrameInput → Event
  calls : ℕ → VmCall → Event
  ends : Event

unfoldable pub happens : World → Event → World
happens w (starts frame) = (frame_start w frame).1
happens w (calls caller c) = (call w caller c).1
happens w ends = call_end w

unfoldable pub run : World → List Event → World
run w [] = w
run w (e ∷ es) = run (happens w e) es

-- A cheatcode is called in a frame below the transaction's own.
abbrev pub CallsNested : World → List Event → Type 0
CallsNested w [] = Unit
CallsNested w (starts frame ∷ es) = CallsNested ((frame_start w frame).1) es
CallsNested w (calls caller c ∷ es) = (2 ≤ w.depth) × CallsNested ((call w caller c).1) es
CallsNested w (ends ∷ es) = CallsNested (call_end w) es

Nested-zero : (p : Option PrankState) → Nested 0 p → p ≡ none
Nested-zero none n = refl
Nested-zero (some p) n = absurd (omega (arith, n.1, n.2))

run-Sound :
    (o : ℕ) (w : World) (es : List Event) → CallsNested w es → Sound o w → Sound o (run w es)
unfolding run happens
run-Sound o w [] n s = s
run-Sound o w (starts frame ∷ es) n s =
    run-Sound o ((frame_start w frame).1) es n (frame_start-Sound o w frame s)
run-Sound o w (calls caller c ∷ es) n s =
    run-Sound o ((call w caller c).1) es n.1 (call-Sound o w caller c n.0 s)
run-Sound o w (ends ∷ es) n s = run-Sound o (call_end w) es n (call_end-Sound o w s)

-- The world in which a transaction of sender `o` starts: the inspector, which all transactions of an
-- execution share, keeps the prank state of the earlier ones, and the environment is new.
abbrev pub begins : PrankCheatState → ℕ → World
begins carried o = record { prank = carried; depth = 0; tx_caller = o }

-- What a transaction whose frames have all ended leaves: a `startPrank` may still be in force.
pub record Between (s : PrankCheatState) : Type 0 where
  pub over : s.active ≡ none
  pub kept : s.start ≡ none → s.original_origin ≡ none

-- The origin that the end of the pranks gives back: one that an earlier transaction saved, for a
-- `startPrank` that is still in force, and else the sender.
abbrev pub origin_of : PrankCheatState → ℕ → ℕ
origin_of carried o = true_origin carried.original_origin o

begins-Sound :
    (carried : PrankCheatState) (o : ℕ)
    → Between carried
    → Sound (origin_of carried o) (begins carried o)
begins-Sound carried o b = record {
  same = refl;
  tidy = λ _ stopped. b.kept stopped;
  nested = subst (Nested 0) (sym b.over) tt;
}

-- The prank state after the transactions of an execution, each with its sender and its events.
unfoldable pub after : PrankCheatState → List (ℕ × List Event) → PrankCheatState
after carried [] = carried
after carried ((o, es) ∷ txs) = after (run (begins carried o) es).prank txs

-- In every transaction the cheatcodes are called below its first frame, and all its frames end.
abbrev pub Complete : PrankCheatState → List (ℕ × List Event) → Type 0
Complete carried [] = Unit
Complete carried ((o, es) ∷ txs) =
    CallsNested (begins carried o) es
    × ((run (begins carried o) es).depth ≡ 0)
    × Complete (run (begins carried o) es).prank txs

ended-Between :
    (o : ℕ) (w : World)
    → w.depth ≡ 0
    → Sound o w
    → Between w.prank × (w.prank.start ≡ none → w.tx_caller ≡ o)
unfolding true_origin
ended-Between o w done s =
    let gone : w.prank.active ≡ none =
      Nested-zero _ (subst (λ d. Nested d w.prank.active) done s.nested) in
    (
      record { over = gone; kept = s.tidy gone },
      λ stopped. ground (arith, s.same, s.tidy gone stopped),
    )

after-Between :
    (carried : PrankCheatState) (txs : List (ℕ × List Event))
    → Between carried
    → Complete carried txs
    → Between (after carried txs)
unfolding after
after-Between carried [] b c = b
after-Between carried ((o, es) ∷ txs) b c =
    let w = run (begins carried o) es in
    let s = run-Sound (origin_of carried o) (begins carried o) es c.0 (begins-Sound carried o b) in
    after-Between w.prank txs (ended-Between (origin_of carried o) w c.1 s).0 c.2

stop_prank_0-lem :
    (o : ℕ) (w : World) (caller : ℕ)
    → Sound o w
    → (call w caller stop_prank_0).1 ≡ record { prank = no_pranks; depth = w.depth; tx_caller = o }
unfolding call dispatch settle_active settle_start is_stop_prank maybe_restore_origin restore
    stop_prank true_origin
stop_prank_0-lem o w caller s = ground (arith, s.same)

-- After any transactions of an execution, when every frame of the next has ended, whatever frames ran,
-- whatever cheatcodes they called and whichever reverted: no `prank` of a single call is left, and
-- unless a `startPrank` is still in force no origin is kept aside and `tx.origin` is the one kept aside
-- when the transaction began, or the sender if there was none; it is the sender if no `startPrank`
-- was in force when it began. The execution starts with no `prank` of a single call and with no origin
-- kept aside unless a `startPrank` is in force; all transactions end their frames, and call cheatcodes
-- from contracts, hence below the first frame.
pub run-restores :
    (setup : PrankCheatState) (txs : List (ℕ × List Event)) (o : ℕ) (es : List Event)
    → Between setup
    → Complete setup txs
    → CallsNested (begins (after setup txs) o) es
    → (run (begins (after setup txs) o) es).depth ≡ 0
    → let w = run (begins (after setup txs) o) es in
      Between w.prank
      × (w.prank.start ≡ none → w.tx_caller ≡ origin_of (after setup txs) o)
      × ((after setup txs).start ≡ none → w.prank.start ≡ none → w.tx_caller ≡ o)
unfolding true_origin
run-restores setup txs o es b c n done =
    let carried = after setup txs in
    let between = after-Between setup txs b c in
    let (left, back) =
      ended-Between (origin_of carried o) (run (begins carried o) es) done (
        run-Sound (origin_of carried o) (begins carried o) es n (begins-Sound carried o between)) in
    (left, back, λ none_then stopped. ground (arith, back stopped, between.kept none_then))

-- After any transactions of an execution, and wherever the next calls it, `vm.stopPrank` ends both
-- kinds of pranks, and at once `tx.origin` is the one kept aside when the transaction began, or the
-- sender if there was none; it is the sender if no `startPrank` was in force when it began. The
-- execution starts with no `prank` of a single call and with no origin kept aside unless a
-- `startPrank` is in force; the earlier transactions end their frames, and all call cheatcodes below
-- the first frame.
pub stop_prank-restores :
    (setup : PrankCheatState) (txs : List (ℕ × List Event)) (o : ℕ) (es : List Event) (caller : ℕ)
    → Between setup
    → Complete setup txs
    → CallsNested (begins (after setup txs) o) es
    → let w = run (begins (after setup txs) o) es in
      ((call w caller stop_prank_0).1
        ≡ record { prank = no_pranks; depth = w.depth; tx_caller = origin_of (after setup txs) o })
      × ((after setup txs).start ≡ none → origin_of (after setup txs) o ≡ o)
unfolding true_origin
stop_prank-restores setup txs o es caller b c n =
    let carried = after setup txs in
    let between = after-Between setup txs b c in
    (
      stop_prank_0-lem (origin_of carried o) (run (begins carried o) es) caller (
          run-Sound (origin_of carried o) (begins carried o) es n (begins-Sound carried o between)),
      λ none_then. ground (arith, between.kept none_then),
    )
