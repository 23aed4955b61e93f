-- ===== src/Tester/Values/Types.antt =====
-- Random values of an ABI type (`value` of src/tester/corpus/rvg.rs). The types and values are those of
-- the ABI crate.
use ripfuzz.Prelude.{ℕ, zero, suc, Bool, List}
use ripfuzz.Rng.{Rng}
use ripfuzz.Rng.Draw.{Draw, pure, draw, ◌>>=◌}
use ripfuzz.Tester.Literals.{LiteralExtractor}
use ripfuzz.Tester.Values as Values
use ripfuzz.Tester.Values.Bytes as Bytes

-- `DynSolType`.
mutual
  pub data SolType : Type 0 where
    bool address bytes string function : SolType
    uint int fixed_bytes : ℕ → SolType
    array : SolType → SolType
    fixed_array : SolType → ℕ → SolType
    tuple : SolTypes → SolType

  pub data SolTypes : Type 0 where
    none_left : SolTypes
    type : SolType → SolTypes → SolTypes

-- `DynSolValue`.
mutual
  pub data SolValue : Type 0 where
    bool_value : Bool → SolValue
    uint_value int_value : ℕ → ℕ → SolValue
    fixed_bytes_value : List ℕ → ℕ → SolValue
    address_value bytes_value string_value function_value : List ℕ → SolValue
    array_value fixed_array_value tuple_value : SolValues → SolValue

  pub data SolValues : Type 0 where
    no_values : SolValues
    value_of : SolValue → SolValues → SolValues

module _ (r : Rng) (literals : LiteralExtractor) where
  unfoldable pub repeat : ℕ → Draw r.Gen SolValue → Draw r.Gen SolValues
  repeat zero one = pure no_values
  repeat (suc n) one = do v ← one; vs ← repeat n one; pure (value_of v vs)

  unfoldable mutual
    pub value : SolType → Draw r.Gen SolValue
    value bool = do b ← draw r.flip; pure (bool_value b)
    value (uint size) = do v ← Values.uint r literals size; pure (uint_value v size)
    value (int size) = do v ← Values.int r literals size; pure (int_value v size)
    value (fixed_bytes size) = do
      b ← Bytes.fixed_bytes r literals size
      pure (fixed_bytes_value b size)
    value address = do a ← Bytes.address r literals; pure (address_value a)
    value bytes = do b ← Bytes.bytes r literals; pure (bytes_value b)
    value string = do s ← Bytes.string r literals; pure (string_value s)
    value function = do b ← draw (r.fill 24); pure (function_value b)
    value (array inner) = do
      len ← draw (r.within 0 4)
      vs ← repeat len (value inner)
      pure (array_value vs)
    value (fixed_array inner len) = do vs ← repeat len (value inner); pure (fixed_array_value vs)
    value (tuple types) = do vs ← values types; pure (tuple_value vs)

    pub values : SolTypes → Draw r.Gen SolValues
    values none_left = pure no_values
    values (type t ts) = do v ← value t; vs ← values ts; pure (value_of v vs)
