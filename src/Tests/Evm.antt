-- ===== src/Tests/Evm.antt =====
-- Cheatcodes, coverage and the rate limiter.
use ripfuzz.Outcome.{Returns, ◌>>=◌}
use ripfuzz.Cheatcode.Prank.{
  prank_origin, start_prank_origin, PrankState, PrankCheatState, no_pranks, set_prank,
  set_start_prank, unused, unused_start,
}
use ripfuzz.Cheatcode.Inspector.{
  patch_origin, restore, maybe_restore_origin, start_info, prank_info, disguised_caller,
  disguised_origin, use_start, use_active, apply_disguises, apply_prank, apply_create_prank,
  frame_start, dispatch, settle_active, settle_start, is_stop_prank, call, initiator_exits,
  call_end, World, call_frame, prank_1, start_prank_1, stop_prank_0,
}
use ripfuzz.Cheatcode.Inspector.Origin.{
  happens, Event, starts, calls, ends, run, begins, Between, origin_of, after, true_origin,
  run-restores, stop_prank-restores,
}
use ripfuzz.Cheatcode.Inspector.Single.{disguised_frames, disguised_frames-le-one}
use ripfuzz.Coverage.Edge.{edge_marker, call_edge_marker}
use ripfuzz.Coverage.Edge.Distinct.{edge_marker_distinct}
use ripfuzz.Coverage.Exec.{CoverageId, initcode, runtime, ExecutionContractCoverage}
use ripfuzz.Coverage.Exec.Hits.{once, ones, Exact}
use ripfuzz.Coverage.Exec.Recorded.{Seen, stepped, reverted, record_all, record_all-Recorded}
use ripfuzz.Coverage.Shared.Counts.{merge-edge_count}
use ripfuzz.Coverage.Shared.{edge_count, SharedCoverage, merge, is_interesting, find}
use ripfuzz.Coverage.Shared.Workers.{merge_all, merge-remembered, LocalFits}
use ripfuzz.Forkdb.Limiter.{
  settle, take_token, sleep_time, compute_refill, pack, unpack, attempt, acquired, refused,
  RateLimiter,
}
use ripfuzz.Forkdb.Limiter.Rate.{bucket, acquired_by, unpack-pack, acquired_by-le}
use ripfuzz.Forkdb.Limiter.Waiting.{attempt-after_sleep}
use ripfuzz.Prelude.{
  ℕ, ◌+◌, ◌*◌, ◌^◌, ◌≤◌, ◌<◌, ◌≡◌, refl, ◌≢◌, Bool, true, false, none, some, List, [], ◌∷◌, arith,
}

abbrev pranked : PrankState
pranked = record {
  caller = 7;
  origin = some 9;
  single_call = true;
  set_depth = 1;
  prank_caller = 5;
  used = false;
}

abbrev one_prank : PrankCheatState
one_prank = record { active = some pranked; start = none; original_origin = none }

abbrev frame : ℕ → ℕ → Event
frame caller target = starts (call_frame (record { caller = caller; target_address = target }))

-- The contract 5 pranks 7 with origin 9, calls the contract 6, and returns.
abbrev pranked_call : List Event
pranked_call = frame 1 5 ∷ frame 5 8 ∷ calls 5 (prank_1 7 9) ∷ ends ∷ frame 5 6 ∷ ends ∷ ends ∷ []

-- The contract 5 starts a prank of 7 with origin 9 and calls the contract 6 under it.
abbrev started_prank : List Event
started_prank =
    frame 1 5 ∷ frame 5 8 ∷ calls 5 (start_prank_1 7 9) ∷ ends ∷ frame 5 6 ∷ ends ∷ ends ∷ []

no_pranks-Between : Between no_pranks
no_pranks-Between = record { over = refl; kept = λ _. refl }

run-restores_example :
    let w = run (begins (after no_pranks ((1, started_prank) ∷ [])) 2) pranked_call in
    Between w.prank
    × (w.prank.start ≡ none → w.tx_caller ≡ origin_of (after no_pranks ((1, started_prank) ∷ [])) 2)
    × ((after no_pranks ((1, started_prank) ∷ [])).start ≡ none
        → w.prank.start ≡ none
        → w.tx_caller ≡ 2)
unfolding after run happens patch_origin restore maybe_restore_origin start_info prank_info
    disguised_caller disguised_origin use_start use_active apply_disguises apply_prank
    apply_create_prank frame_start dispatch settle_active settle_start is_stop_prank call
    initiator_exits call_end set_prank prank_origin set_start_prank start_prank_origin unused
    unused_start
run-restores_example =
    run-restores no_pranks ((1, started_prank) ∷ []) 2 pranked_call no_pranks-Between
      ((omega arith, tt), refl, tt) (omega arith, tt) refl

-- The origin that comes back is the sender 1 of the transaction before.
origin_of_earlier : origin_of (after no_pranks ((1, started_prank) ∷ [])) 2 ≡ 1
unfolding after run happens patch_origin restore maybe_restore_origin start_info prank_info
    disguised_caller disguised_origin use_start use_active apply_disguises apply_prank
    apply_create_prank frame_start dispatch settle_active settle_start is_stop_prank call
    initiator_exits call_end set_start_prank start_prank_origin unused unused_start true_origin
origin_of_earlier = refl

stop_prank-restores_example :
    let w =
      run (begins (after no_pranks ((1, started_prank) ∷ [])) 2) (frame 2 5 ∷ frame 5 8 ∷ []) in
    ((call w 5 stop_prank_0).1 ≡ record {
      prank = no_pranks;
      depth = w.depth;
      tx_caller = origin_of (after no_pranks ((1, started_prank) ∷ [])) 2;
    })
    × ((after no_pranks ((1, started_prank) ∷ [])).start ≡ none
        → origin_of (after no_pranks ((1, started_prank) ∷ [])) 2 ≡ 2)
unfolding after run happens patch_origin restore maybe_restore_origin start_info prank_info
    disguised_caller disguised_origin use_start use_active apply_disguises apply_prank
    apply_create_prank frame_start dispatch settle_active settle_start is_stop_prank call
    initiator_exits call_end set_start_prank start_prank_origin unused unused_start
stop_prank-restores_example =
    stop_prank-restores no_pranks ((1, started_prank) ∷ []) 2 (frame 2 5 ∷ frame 5 8 ∷ []) 5
      no_pranks-Between ((omega arith, tt), refl, tt) tt

abbrev in_force : World
in_force = record { prank = one_prank; depth = 1; tx_caller = 1 }

disguised_frames-le-one_example :
    (disguised_frames in_force (frame 5 6 ∷ frame 6 4 ∷ ends ∷ ends ∷ frame 5 6 ∷ []) ≤ 1)
    × (unused in_force.prank.active ≡ false
        → disguised_frames in_force (frame 5 6 ∷ frame 6 4 ∷ ends ∷ ends ∷ frame 5 6 ∷ []) ≡ 0)
disguised_frames-le-one_example =
    disguised_frames-le-one in_force (frame 5 6 ∷ frame 6 4 ∷ ends ∷ ends ∷ frame 5 6 ∷ []) refl tt

edge_marker_distinct_example :
    (edge_marker 3 40 ≡ edge_marker 4 40 → (◌≡◌ {A = ℕ} 3 4) × (◌≡◌ {A = ℕ} 40 40))
    × ((pc : ℕ) (callee : List ℕ) → edge_marker 3 40 ≢ call_edge_marker pc callee)
edge_marker_distinct_example =
    edge_marker_distinct 3 40 4 40 (omega arith) (omega arith) (omega arith) (omega arith)

abbrev seen : List Seen
seen =
    stepped 0 3 none
    ∷ stepped 0 3 none
    ∷ stepped 1 3 (some 5)
    ∷ reverted 3
    ∷ stepped 2 900 none
    ∷ []

record_all-Recorded_example :
    let c = record_all seen (ripfuzz.Coverage.Exec.new 8) in
    Exact once c.edges c.hit_pcs
    × Exact (ones 64) c.depths c.hit_depths
    × Exact once c.reverts c.hit_reverts
record_all-Recorded_example = record_all-Recorded 8 seen

abbrev local : ℕ → ExecutionContractCoverage
local pc = record {
  edges = 1 ∷ 1 ∷ [];
  depths = 2 ∷ 2 ∷ [];
  reverts = 1 ∷ [];
  jump_edges = (77, 1) ∷ [];
  hit_pcs = pc ∷ [];
  hit_depths = pc ∷ [];
  hit_reverts = 0 ∷ [];
  bytecode = 0 ∷ 0 ∷ [];
  is_initcode = false;
}

abbrev nothing : SharedCoverage
nothing = record { contracts = []; bytecodes = [] }

abbrev by_contract : ℕ → List (CoverageId × ExecutionContractCoverage)
by_contract pc =
    (runtime 7 9, local pc) ∷ (initcode 9, record (local 1) { is_initcode = true }) ∷ []

by_contract_fits : (pc : ℕ) → pc < 2 → LocalFits (λ _. 2) (by_contract pc)
by_contract_fits pc h = (
  ((((h, h), tt), ((h, h), tt), (omega arith, tt)), refl),
  (
    ((((omega arith, omega arith), tt), ((omega arith, omega arith), tt), (omega arith, tt)), refl),
    tt,
  ),
)

merge-remembered_example :
    Returns
      (merge_all (by_contract 0 ∷ by_contract 1 ∷ []) nothing >>= merge (by_contract 0))
      (λ (u, _). is_interesting u ≡ false)
unfolding find
merge-remembered_example =
    merge-remembered (λ _. 2) (by_contract 0) (by_contract 1 ∷ []) nothing (λ id. tt)
      (by_contract_fits 0 (omega arith)) (by_contract_fits 1 (omega arith), tt)

abbrev is_creation : CoverageId → Bool
is_creation (initcode _) = true
is_creation (runtime _ _) = false

merge-edge_count_example :
    Returns
      (merge (by_contract 0) nothing)
      (λ (u, t). u.new_edges + edge_count nothing ≡ edge_count t)
unfolding find
merge-edge_count_example =
    merge-edge_count is_creation (λ _. 2) (by_contract 0) nothing (λ id. tt)
      (by_contract_fits 0 (omega arith)) (λ id. tt) (refl, (refl, tt))

unpack-pack_example : (pack 600 3 < 2 ^ 64) × (unpack (pack 600 3) ≡ (600, 3))
unpack-pack_example = unpack-pack 600 3 (omega arith) (omega arith)

acquired_by-le_example :
    acquired_by (ripfuzz.Forkdb.Limiter.new 2) (0 ∷ 1 ∷ 2 ∷ 600 ∷ []) * 1000
    ≤ (1000 + 700) * (ripfuzz.Forkdb.Limiter.new 2).max_tokens
acquired_by-le_example =
    acquired_by-le 2 700 (0 ∷ 1 ∷ 2 ∷ 600 ∷ []) (omega arith) (omega arith)
      (omega arith, (omega arith, (omega arith, (omega arith, omega arith))))

attempt-after_sleep_example :
    (l : RateLimiter) × (attempt (bucket 2 0 0) (0 + 10 + 4 + 486 + 3) 520 ≡ acquired l)
unfolding attempt settle take_token sleep_time compute_refill pack unpack bucket
attempt-after_sleep_example =
    attempt-after_sleep 2 0 0 10 4 3 486 520 (omega arith) (omega arith) (omega arith) refl
      (omega arith) (omega arith)
