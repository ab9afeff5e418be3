-- ===== src/Paths/Names.antt =====
-- The names that `Path` reads out of a text, and printing a path back.
use agent_workspace_guard.Base.{
  ◌≡◌, ◌≢◌, refl, ap, ◌∙◌, Bool-cases, false, inl, inr, List, [], ◌∷◌, ◌++◌, Text, ◌==◌, contains,
  nat_eq, list_eq, filter, All, split, join, push_char, arith, ℕ,
}
use agent_workspace_guard.Paths.{FilePath, slash, dot, root_part, is_kept}

-- A component that a tuple of parts may hold behind its root.
abbrev pub IsName : Text → Type 0
IsName part = (part ≢ []) × (part ≢ dot) × (contains part slash ≡ false)

-- The parts of a relative path.
abbrev pub IsRelative : FilePath → Type 0
IsRelative = All IsName

abbrev Lacks : ℕ → Text → Type 0
Lacks c part = contains part c ≡ false

All-push_char :
    (c s : ℕ) (parts : List Text)
    → (c == s) ≡ false
    → All (Lacks s) parts
    → All (Lacks s) (push_char c parts)
All-push_char c s [] h k = (ground arith, tt)
All-push_char c s (part ∷ parts) h (k, ks) = (ground arith, ks)

split-Lacks : (s : ℕ) (text : Text) → All (Lacks s) (split s text)
unfolding split
split-Lacks s [] = (refl, tt)
split-Lacks s (c ∷ text) = elim (Bool-cases (c == s)) [
  | inl same ↦ rw same (refl, split-Lacks s text)
  | inr other ↦ rw other (All-push_char c s _ other (split-Lacks s text))
]

filter_kept : (parts : List Text) → All (Lacks slash) parts → IsRelative (filter is_kept parts)
unfolding filter
filter_kept [] h = tt
filter_kept (part ∷ parts) (h, hs) = ground (arith, filter_kept parts hs)

-- What stands behind the root is made of names.
pub split-IsRelative : (text : Text) → IsRelative (filter is_kept (split slash text))
split-IsRelative text = filter_kept _ (split-Lacks slash text)

pub filter_all : (parts : FilePath) → IsRelative parts → filter is_kept parts ≡ parts
unfolding filter
filter_all [] h = refl
filter_all (part ∷ parts) (h, hs) = ground (arith, filter_all parts hs)

split-append :
    (s : ℕ) (part text : Text) → Lacks s part → split s (part ++ (s ∷ text)) ≡ part ∷ split s text
unfolding split
split-append s [] text h = ground arith
split-append s (c ∷ part) text h = ground (arith, split-append s part text)

split_single : (s : ℕ) (part : Text) → Lacks s part → split s part ≡ part ∷ []
unfolding split
split_single s [] h = refl
split_single s (c ∷ part) h = ground (arith, split_single s part)

pub split-join :
    (part : Text) (parts : FilePath)
    → IsRelative (part ∷ parts)
    → split slash (join root_part (part ∷ parts)) ≡ part ∷ parts
unfolding join
split-join part [] (h, hs) = split_single slash part h.2
split-join part (next ∷ parts) (h, hs) =
    split-append slash part _ h.2 ∙ ap (λ rest. part ∷ rest) (split-join next parts hs)
