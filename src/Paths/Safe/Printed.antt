-- ===== src/Paths/Safe/Printed.antt =====
-- Printing a path and reading it back.
use agent_workspace_guard.Base.{
  ◌≡◌, refl, ap, ◌∙◌, false, ◌⊎◌, inl, inr, [], ◌∷◌, Text, nat_eq, list_eq, starts_with, filter,
  split, join, arith,
}
use agent_workspace_guard.Paths.{
  FilePath, slash, root_part, double_root, is_kept, parse, is_absolute, render,
}
use agent_workspace_guard.Paths.Names.{IsName, IsRelative, filter_all, split-join}

-- A tuple of parts that `Path` can hold: names, and perhaps a root in front of them.
abbrev pub IsPath : FilePath → Type 0
IsPath [] = Unit
IsPath (part ∷ parts) =
    ((part ≡ root_part) ⊎ ((part ≡ double_root) ⊎ IsName part)) × IsRelative parts

pub is_absolute_name :
    (part : Text) (parts : FilePath) → IsName part → is_absolute (part ∷ parts) ≡ false
unfolding is_absolute
is_absolute_name part parts h = ground arith

starts_with-join :
    (parts : FilePath) (t : Text)
    → IsRelative parts
    → starts_with (join root_part parts) (slash ∷ t) ≡ false
unfolding join starts_with
starts_with-join [] t h = refl
starts_with-join ([] ∷ parts) t (h, hs) = absurd (h.0 refl)
starts_with-join ((c ∷ part) ∷ []) t h = ground arith
starts_with-join ((c ∷ part) ∷ next ∷ parts) t h = ground arith

kept_names :
    (parts : FilePath)
    → IsRelative parts
    → filter is_kept (split slash (join root_part parts)) ≡ parts
unfolding join split filter
kept_names [] h = ground arith
kept_names (part ∷ parts) h =
    ap (filter is_kept) (split-join part parts h) ∙ filter_all (part ∷ parts) h

parse_relative :
    (part : Text) (parts : FilePath)
    → IsName part
    → IsRelative parts
    → parse (render (part ∷ parts)) ≡ part ∷ parts
unfolding parse render
parse_relative part parts h hs =
    rw
      (
        is_absolute_name part parts h,
        starts_with-join (part ∷ parts) (slash ∷ slash ∷ []) (h, hs),
        starts_with-join (part ∷ parts) (slash ∷ []) (h, hs),
        starts_with-join (part ∷ parts) [] (h, hs),
      )
      (kept_names (part ∷ parts) (h, hs))

parse_root :
    (parts : FilePath) → IsRelative parts → parse (render (root_part ∷ parts)) ≡ root_part ∷ parts
unfolding parse render split filter
parse_root parts hs = ground (
  arith,
  starts_with-join parts (slash ∷ []) hs,
  starts_with-join parts [] hs,
  kept_names parts hs,
)

parse-double_root :
    (parts : FilePath)
    → IsRelative parts
    → parse (render (double_root ∷ parts)) ≡ double_root ∷ parts
unfolding parse render split filter
parse-double_root parts hs = ground (arith, starts_with-join parts [] hs, kept_names parts hs)

-- Every tuple of parts that a path can hold is read back from the text that prints it.
pub parse-render : (path : FilePath) → IsPath path → parse (render path) ≡ path
unfolding parse render filter split
parse-render [] h = ground arith
parse-render (part ∷ parts) (inl e, hs) = rw e (parse_root parts hs)
parse-render (part ∷ parts) (inr (inl e), hs) = rw e (parse-double_root parts hs)
parse-render (part ∷ parts) (inr (inr h), hs) = parse_relative part parts h hs
