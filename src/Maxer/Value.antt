-- ===== src/Maxer/Value.antt =====
-- src/maxer/value.rs: the `uint256` that a harness reports. ABI decoding is the ABI crate's, and a
-- parameter.
use ripfuzz.Prelude.{ℕ, Option, none, some, List, if◌then◌else◌}
use ripfuzz.Outcome.{Result, ok, err, undecodable, reverted, missing_result, context, ◌>>=◌}
use ripfuzz.Evm.{TransactionResult}

unfoldable pub decode : (List ℕ → Option ℕ) → TransactionResult → Result ℕ
decode abi_decode result =
    if result.success
    then (do output ← context missing_result result.output; context undecodable (abi_decode output))
    else err reverted

-- A reverted value call has no value.
unfoldable pub measured_value : (List ℕ → Option ℕ) → TransactionResult → Result (Option ℕ)
unfolding decode
measured_value abi_decode result =
    if result.success then (do value ← decode abi_decode result; ok (some value)) else ok none
