-- ===== src/Maxer/Best.antt =====
-- src/maxer/best.rs: the best sequence so far, with the state after it.
pub mod Maximum
use ripfuzz.Prelude.{
  ℕ, Bool, true, false, not, ◌&&◌, ◌||◌, ◌==◌, ltb, Option, none, some, List, [], ◌∷◌, length,
  is_empty, if◌then◌else◌,
}

pub record Best (C Chain : Type 0) : Type 0 where
  pub value : ℕ
  pub sequence : List C
  pub chain : Option Chain

module _ {C Chain : Type 0} where
  unfoldable pub new : List C → ℕ → Best C Chain
  new sequence value = record { value = value; sequence = sequence; chain = none }

  unfoldable pub with_chain : List C → ℕ → Chain → Best C Chain
  with_chain sequence value chain = record {
    value = value;
    sequence = sequence;
    chain = some chain;
  }

  unfoldable pub consider : Best C Chain → List C → ℕ → Chain → Best C Chain × Bool
  consider best sequence value chain =
      let shorter =
        value == best.value
        && not (is_empty best.sequence)
        && ltb (length sequence) (length best.sequence) in
      if ltb best.value value || shorter
      then (record { value = value; sequence = sequence; chain = some chain }, true)
      else (best, false)
