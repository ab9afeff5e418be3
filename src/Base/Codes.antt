-- ===== src/Base/Codes.antt =====
-- Operations of Python's `str` on texts.
use Prim.Native.Nat.{ℕ, zero, suc}
use mathlib.Core.Bool.{Bool}
use mathlib.Core.Option.{Option, none, some}
use mathlib.Core.List.{List, [], ◌∷◌, ◌++◌, reverse}
use agent_workspace_guard.Base.Test.{if◌then◌else◌}
use agent_workspace_guard.Base.Lists.{starts_with}
use agent_workspace_guard.Base.Equality.{Text, ◌==◌, nat_eq}

abbrev pub push_char : ℕ → List Text → List Text
push_char c [] = (c ∷ []) ∷ []
push_char c (part ∷ parts) = (c ∷ part) ∷ parts

-- `text.split(separator)`, for a separator of one character.
unfoldable pub split : ℕ → Text → List Text
split separator [] = [] ∷ []
split separator (c ∷ text) =
    let rest = split separator text in if c == separator then [] ∷ rest else push_char c rest

-- `separator.join(parts)`
unfoldable pub join : Text → List Text → Text
join separator [] = []
join separator (part ∷ []) = part
join separator (part ∷ next ∷ parts) = part ++ (separator ++ join separator (next ∷ parts))

-- `text.rfind(c)`, with `none` for -1.
unfoldable pub rfind : ℕ → Text → Option ℕ
rfind c [] = none
rfind c (d ∷ text) = elim (rfind c text) [
  | some i ↦ some (suc i)
  | none ↦ if d == c then some 0 else none
]

-- `text.replace(old, new)`, for texts of one character.
unfoldable pub replace : ℕ → ℕ → Text → Text
replace old new [] = []
replace old new (c ∷ text) = (if c == old then new else c) ∷ replace old new text

unfoldable pub drop : ℕ → Text → Text
drop zero text = text
drop (suc n) [] = []
drop (suc n) (c ∷ text) = drop n text

-- `text.endswith(ending)`
unfoldable pub ends_with : Text → Text → Bool
unfolding starts_with
ends_with text ending = starts_with (reverse text) (reverse ending)
