-- ===== src/Cheatcode/Prank.antt =====
-- The prank cheatcodes (`src/evm/cheatcode/calls/prank.rs`) and the prank half of `state.rs`. An
-- address is its number.
use ripfuzz.Prelude.{ℕ, Bool, true, false, not, Option, none, some, is_some, if◌then◌else◌}

pub record PrankState : Type 0 where
  pub caller : ℕ
  pub origin : Option ℕ
  pub single_call : Bool
  pub set_depth : ℕ
  pub prank_caller : ℕ
  pub used : Bool

pub record StartPrankState : Type 0 where
  pub caller : ℕ
  pub origin : Option ℕ
  pub set_depth : ℕ
  pub prank_caller : ℕ
  pub used : Bool

pub record PrankCheatState : Type 0 where
  pub active : Option PrankState
  pub start : Option StartPrankState
  pub original_origin : Option ℕ

-- The derived `Default`.
abbrev pub no_pranks : PrankCheatState
no_pranks = record { active = none; start = none; original_origin = none }

-- Whether the cheatcode call returns or reverts with a message.
pub data Outcome : Type 0 where
  success : Outcome
  revert : Outcome

-- A prank that no frame has used yet.
unfoldable pub unused : Option PrankState → Bool
unused none = false
unused (some p) = not p.used

unfoldable pub unused_start : Option StartPrankState → Bool
unused_start none = false
unused_start (some s) = not s.used

unfoldable pub set_prank : PrankCheatState → ℕ → Option ℕ → Outcome × PrankCheatState
set_prank s addr origin =
    if unused s.active then (revert, s) else if is_some s.start then (revert, s) else (
      success,
      record s {
        active = some (record {
          caller = addr;
          origin = origin;
          prank_caller = 0;
          set_depth = 0;
          single_call = true;
          used = false;
        });
      },
    )

unfoldable pub prank : PrankCheatState → ℕ → Outcome × PrankCheatState
prank s addr = set_prank s addr none

unfoldable pub prank_origin : PrankCheatState → ℕ → ℕ → Outcome × PrankCheatState
prank_origin s addr origin = set_prank s addr (some origin)

unfoldable pub set_start_prank : PrankCheatState → ℕ → Option ℕ → Outcome × PrankCheatState
set_start_prank s addr origin =
    if unused s.active then (revert, s) else if unused_start s.start then (revert, s) else (
      success,
      record s {
        start = some (record {
          caller = addr;
          origin = origin;
          prank_caller = 0;
          set_depth = 0;
          used = false;
        });
      },
    )

unfoldable pub start_prank : PrankCheatState → ℕ → Outcome × PrankCheatState
start_prank s addr = set_start_prank s addr none

unfoldable pub start_prank_origin : PrankCheatState → ℕ → ℕ → Outcome × PrankCheatState
start_prank_origin s addr origin = set_start_prank s addr (some origin)

unfoldable pub stop_prank : PrankCheatState → Outcome × PrankCheatState
stop_prank s = (success, record s { active = none; start = none })
