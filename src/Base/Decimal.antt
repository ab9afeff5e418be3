-- ===== src/Base/Decimal.antt =====
-- Decimal texts, as `str` and the format `{n:,}` write numbers.
use Prim.Native.Nat.{ℕ, zero, suc, ◌+◌, ◌/◌, ◌%◌}
use mathlib.Core.List.{[], ◌∷◌, ◌++◌}
use agent_workspace_guard.Base.Test.{ltb, if◌then◌else◌}
use agent_workspace_guard.Base.Equality.{Text}
use agent_workspace_guard.Base.Int.{ℤ, pos, negsuc}

-- The digits of `n` in front of `later`. A number has at most as many digits as its size, so
-- `suc n` is enough fuel.
show_digits : ℕ → ℕ → Text → Text
show_digits zero n later = later
show_digits (suc fuel) n later =
    let more = show_digits fuel (n / 10) ((b'0' + n % 10) ∷ later) in
    if ltb n 10 then (b'0' + n) ∷ later else more

unfoldable pub show_nat : ℕ → Text
unfolding show_digits
show_nat n = show_digits (suc n) n []

unfoldable pub show_int : ℤ → Text
unfolding show_nat
show_int (pos n) = show_nat n
show_int (negsuc n) = b'-' ∷ show_nat (suc n)

-- Groups of three digits: `f"{n:,}"`.
show_groups : ℕ → ℕ → Text → Text
show_groups zero n later = later
show_groups (suc fuel) n later =
    let digits = (b'0' + n / 100 % 10) ∷ (b'0' + n / 10 % 10) ∷ (b'0' + n % 10) ∷ later in
    let more = show_groups fuel (n / 1000) (b',' ∷ digits) in
    if ltb n 1000 then show_nat n ++ later else more

unfoldable pub show_grouped : ℕ → Text
unfolding show_groups show_nat
show_grouped n = show_groups (suc n) n []
