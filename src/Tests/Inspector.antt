-- ===== src/Tests/Inspector.antt =====
-- A run of the coverage inspector.
use ripfuzz.Prelude.{ℕ, true, false, none, some, [], ◌∷◌, arith}
use ripfuzz.Coverage.Inspector.{Inspector, Code, Body, done, instruction, calling, creating, run}
use ripfuzz.Coverage.Inspector.Arrays.{AllRecorded}
use ripfuzz.Coverage.Inspector.Frames.{Open, height, run-resumes}

abbrev fresh : Inspector
fresh = record {
  contracts = [];
  current_call_depth = 0;
  current_contract = none;
  contract_stack = [];
  last_pc = 0;
  is_initcode = false;
}

abbrev code : ℕ → Code
code n = record { hash = n; bytes = 1 ∷ 2 ∷ 3 ∷ []; address = 9 }

-- A call whose code creates a contract, which reverts.
abbrev body : Body
body =
    calling (9 ∷ []) (some (code 5))
      (instruction 0 none
        (creating (some (code 6)) (instruction 2 (some 1) done) true (instruction 1 none done)))
      false done

run-resumes_example : Open [] none 0 (run body fresh) × AllRecorded (run body fresh)
unfolding height
run-resumes_example = run-resumes body fresh (omega arith) tt
