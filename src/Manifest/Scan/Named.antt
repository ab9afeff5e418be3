-- ===== src/Manifest/Scan/Named.antt =====
-- The names that a directory listing gives, and the paths that they make.
use agent_workspace_guard.Base.{
  ◌≡◌, ◌≢◌, inl, inr, refl, sym, ap, ◌∙◌, subst, Bool-cases, true, false, List, [], ◌∷◌, ◌++◌,
  append-nil, map, All, Text, ◌==◌, eq_sound, contains, nat_eq, list_eq, starts_with,
  starts_with-append, arith,
}
use agent_workspace_guard.Paths.{FilePath, parse, render}
use agent_workspace_guard.Paths.Names.{IsName, IsRelative}
use agent_workspace_guard.Paths.Safe.Printed.{parse-render}
use agent_workspace_guard.Manifest.Scan.{Tree, Trees, child, unreadable, nil, cons}

abbrev pub name_of : Tree → Text
name_of (child name found children) = name

-- No child has the name.
abbrev pub IsUnused : Text → Trees → Type 0
IsUnused name unreadable = Unit
IsUnused name nil = Unit
IsUnused name (cons (child other found children) trees) = (name ≢ other) × IsUnused name trees

-- What a file system promises of its names: none is empty, "." or holds a slash, and a directory has
-- no two children of one name.
unfoldable mutual
  pub IsNamed : Tree → Type 0
  IsNamed (child name found children) = IsName name × AreNamed children

  pub AreNamed : Trees → Type 0
  AreNamed unreadable = Unit
  AreNamed nil = Unit
  AreNamed (cons (child name found children) trees) =
      IsName name × AreNamed children × IsUnused name trees × AreNamed trees

-- A path below the root of the scan.
abbrev pub IsBelow : FilePath → Type 0
IsBelow path = IsRelative path × (path ≢ [])

pub IsRelative-append : (a b : FilePath) → IsRelative a → IsRelative b → IsRelative (a ++ b)
IsRelative-append [] b h k = k
IsRelative-append (part ∷ a) b (h, hs) k = (h, IsRelative-append a b hs k)

pub append-nonempty : (a : FilePath) (name : Text) → (a ++ (name ∷ [])) ≢ []
append-nonempty [] name e = cc
append-nonempty (part ∷ a) name e = cc

parse-render_below : (path : FilePath) → IsBelow path → parse (render path) ≡ path
parse-render_below [] (h, some_part) = absurd (some_part refl)
parse-render_below (part ∷ parts) ((h, hs), some_part) =
    parse-render (part ∷ parts) (inr (inr h), hs)

render-injective : (p q : FilePath) → IsBelow p → IsBelow q → render p ≡ render q → p ≡ q
render-injective p q h k e = sym (parse-render_below p h) ∙ ap parse e ∙ parse-render_below q k

starts_with_refl : (path : FilePath) → starts_with path path ≡ true
starts_with_refl path =
    subst (λ x. starts_with x path ≡ true) (append-nil path) (starts_with-append path [])

-- A path with nothing visited at or below it has not been visited.
abbrev pub IsFresh : FilePath → List FilePath → Type 0
IsFresh path visited = All (λ other. starts_with other path ≡ false) visited

other_text :
    (path other : FilePath)
    → IsBelow path
    → IsBelow other
    → starts_with other path ≡ false
    → (render other == render path) ≡ false
other_text path other h k fresh = elim (Bool-cases (render other == render path)) [
  | inl same ↦
      let e = render-injective other path k h (eq_sound (render other) (render path) same) in
      let itself = subst (λ x. starts_with x path ≡ true) (sym e) (starts_with_refl path) in cc
  | inr differs ↦ differs
]

pub contains-IsFresh :
    (path : FilePath) (visited : List FilePath)
    → IsBelow path
    → All IsBelow visited
    → IsFresh path visited
    → contains (map render visited) (render path) ≡ false
contains-IsFresh path [] h hs fresh = refl
contains-IsFresh path (other ∷ visited) h (k, ks) (f, fs) =
    ground (arith, other_text path other h k f, contains-IsFresh path visited h ks fs)
