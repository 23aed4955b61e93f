-- ===== src/Evm.antt =====
-- src/evm: the execution of transactions, as the campaigns see it. The engine below `Chain::exec`
-- is the revm crate's, and stands here as the operation of an interface.
pub mod Exec
use Prim.Native.String.{String}
use ripfuzz.Prelude.{
  ℕ, zero, suc, ◌+◌, ◌-◌, ◌*◌, ◌/◌, ◌%◌, ◌^◌, ◌≤◌, ◌<◌, min, max, compare, Ordering, ◌≡◌, refl, sym,
  ap, ◌∙◌, subst, ◌≢◌, ◌↔◌, ◌⊎◌, inl, inr, Bool, true, false, not, ◌&&◌, ◌||◌, Option, none, some,
  List, [], ◌∷◌, ◌++◌, map, arith, dec_lt, dec_le, ℕ_discrete, ltb, leb, ◌==◌, if◌then◌else◌,
  ltb→lt, lt→ltb, ltb-false→le, ==_iff, Bool-cases, Option-cases, is_some, u64_max, saturating_add,
  length, get_elem?, set, take, drop, is_empty, remove, length-append, length-take, length-drop,
  length-remove, length-set, All, All-append, All-remove, All-set, All-get_elem?, sum_of,
  sum_of-set, sum_of-get_elem?,
}
use ripfuzz.Outcome.{Result}

-- src/evm/result.rs; the fields that the campaigns read.
pub record TransactionResult : Type 0 where
  pub success : Bool
  pub gas_used : ℕ
  pub output : Option (List ℕ)

-- src/evm/chain/broken_invariant.rs.
pub record Report : Type 0 where
  pub id : String
  pub description : String

-- src/evm/chain/exec.rs; a trace has no part in what follows.
pub record ExecOutput (Coverage : Type 0) : Type 0 where
  pub results : List TransactionResult
  pub coverage : Option Coverage
  pub broken_invariants : List (List Report)

pub record Engine : Type 1 where
  pub Chain : Type 0
  pub Transaction : Type 0
  pub Coverage : Type 0
  pub exec : Chain → List Transaction → Result (Chain × ExecOutput Coverage)

-- `results.first()`.
abbrev pub first {ℓ} : {A : Type ℓ} → List A → Option A
first [] = none
first (x ∷ _) = some x

-- `results.last()`.
abbrev pub last {ℓ} : {A : Type ℓ} → List A → Option A
last [] = none
last (x ∷ []) = some x
last (_ ∷ x ∷ xs) = last (x ∷ xs)
