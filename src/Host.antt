-- ===== src/Host.antt =====
-- What the program takes from its host: the Unicode case tables behind `str.lower` and
-- `str.casefold`, and the double-precision floats of the deletion fraction.
use agent_workspace_guard.Base.{ℕ, Bool, Text, ℤ}

pub record CaseTables : Type 0 where
  pub lower : Text → Text
  pub casefold : Text → Text

pub record Floats : Type 1 where
  pub Float : Type 0
  -- `n / d` for `d` other than 0
  pub ratio : ℕ → ℕ → Float
  -- `x >= y`
  pub at_least : Float → Float → Bool
  -- `int(x * 1_000_000)`
  pub ppm : Float → ℤ
  pub repr : Float → Text
