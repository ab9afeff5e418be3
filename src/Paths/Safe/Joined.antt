-- ===== src/Paths/Safe/Joined.antt =====
-- What `validate_relative_path` and `safe_join` accept.
use agent_workspace_guard.Base.{
  ◌≡◌, ◌≢◌, refl, sym, ◌∙◌, subst, inr, Bool, not, true, false, [], ◌∷◌, ◌++◌, Text, contains,
  nat_eq, list_eq, starts_with, starts_with-append, All, append-nil, any, arith, codes, >>=-eq-ok,
  ok, if◌then◌else◌,
}
use agent_workspace_guard.Paths.{
  FilePath, slash, dot, dot_dot, root_part, double_root, parse, render, is_absolute, join_path,
  is_relative_to, has_drive, is_windows_absolute, is_bad_part, validate_relative_path, safe_join,
}
use agent_workspace_guard.Paths.Names.{IsRelative, split-IsRelative}
use agent_workspace_guard.Paths.Safe.Printed.{is_absolute_name, IsPath, parse-render}

-- A component that neither stays in place nor goes up.
abbrev pub IsSafeName : Text → Type 0
IsSafeName part = (part ≢ []) × (part ≢ dot) × (part ≢ dot_dot) × (contains part slash ≡ false)

-- A text that no host reads as absolute or drive-qualified.
pub record IsPlain (value : Text) : Type 0 where
  pub no_nul : contains value 0 ≡ false
  pub no_slash : starts_with value root_part ≡ false
  pub no_backslash : starts_with value (b'\\' ∷ []) ≡ false
  pub no_drive : has_drive value ≡ false

no_double_root :
    (value : Text)
    → starts_with value root_part ≡ false
    → (starts_with value double_root ≡ false) × (starts_with value (codes "///") ≡ false)
unfolding starts_with
no_double_root [] h = (refl, refl)
no_double_root (c ∷ value) h = ground arith

parse_plain : (value : Text) → starts_with value root_part ≡ false → IsRelative (parse value)
unfolding parse
parse_plain value h =
    let (double, triple) = no_double_root value h in rw (h, double, triple) (split-IsRelative value)

pub windows_absolute-drive :
    (value : Text) → has_drive value ≡ false → is_windows_absolute value ≡ false
unfolding has_drive is_windows_absolute
windows_absolute-drive [] h = refl
windows_absolute-drive (c ∷ []) h = refl
windows_absolute-drive (c ∷ d ∷ []) h = refl
windows_absolute-drive (c ∷ d ∷ e ∷ value) h = ground arith

safe_names :
    (parts : FilePath) → IsRelative parts → any is_bad_part parts ≡ false → All IsSafeName parts
unfolding is_bad_part
safe_names [] h k = tt
safe_names (part ∷ parts) (h, hs) k = ground (arith, safe_names parts hs)

no_bad_part : (parts : FilePath) → All IsSafeName parts → any is_bad_part parts ≡ false
unfolding is_bad_part
no_bad_part [] h = refl
no_bad_part (part ∷ parts) (h, hs) = ground (arith, no_bad_part parts hs)

safe-IsRelative : (parts : FilePath) → All IsSafeName parts → IsRelative parts
safe-IsRelative [] h = tt
safe-IsRelative (part ∷ parts) (h, hs) = ((h.0, h.1, h.3), safe-IsRelative parts hs)

safe-IsPath : (parts : FilePath) → All IsSafeName parts → IsPath parts
safe-IsPath [] h = tt
safe-IsPath (part ∷ parts) (h, hs) = (inr (inr (h.0, h.1, h.3)), safe-IsRelative parts hs)

is_absolute_relative : (parts : FilePath) → IsRelative parts → is_absolute parts ≡ false
unfolding is_absolute
is_absolute_relative [] h = refl
is_absolute_relative (part ∷ parts) (h, hs) = is_absolute_name part parts h

-- The checks of `validate_relative_path`, read off a success.
pub validate_relative_path_inv :
    (value : Text) (path : FilePath)
    → validate_relative_path value ≡ ok path
    → (path ≡ parse value) × IsPlain value × (any is_bad_part (parse value) ≡ false)
unfolding validate_relative_path
validate_relative_path_inv value path h = ground arith

pub validate_relative_path-All :
    (value : Text) (path : FilePath) → validate_relative_path value ≡ ok path → All IsSafeName path
validate_relative_path-All value path h =
    let (same, plain, good) = validate_relative_path_inv value path h in
    rw same (safe_names _ (parse_plain value plain.no_slash) good)

-- A plain text with a safe tuple of parts is accepted.
pub validate_relative_path_plain :
    (value : Text)
    → value ≢ []
    → IsPlain value
    → All IsSafeName (parse value)
    → validate_relative_path value ≡ ok (parse value)
unfolding validate_relative_path
validate_relative_path_plain value some_text plain safe = ground (
  arith,
  windows_absolute-drive value plain.no_drive,
  no_double_root value plain.no_slash,
  no_bad_part (parse value) safe,
  is_absolute_relative (parse value) (safe-IsRelative (parse value) safe),
)

join_relative : (root path : FilePath) → IsRelative path → join_path root path ≡ root ++ path
unfolding join_path
join_relative root path h = ground (arith, is_absolute_relative path h)

agrees : (b : Bool) → (if b then b else not b) ≡ true
agrees true = refl
agrees false = refl

below_nil : (path : FilePath) → IsRelative path → is_relative_to path [] ≡ true
unfolding is_relative_to
below_nil path h = rw (starts_with-append [] path, is_absolute_relative path h)

below_root : (root path : FilePath) → IsRelative path → is_relative_to (root ++ path) root ≡ true
unfolding is_relative_to is_absolute
below_root [] path h = below_nil path h
below_root (part ∷ root) path h =
    rw (starts_with-append (part ∷ root) path) (agrees (is_absolute (part ∷ root)))

append_self : (root path : FilePath) → root ++ path ≡ root → path ≡ []
append_self [] path h = h
append_self (part ∷ root) path h = append_self root path (cc)

-- The result of a join lies strictly below the root: the root's parts, and behind them at least one
-- name, none of them "." or "..".
pub safe_join_sound :
    (root : FilePath) (relative : Text) (path : FilePath)
    → safe_join root relative ≡ ok path
    → (rest : FilePath) × (path ≡ root ++ rest) × (rest ≢ []) × All IsSafeName rest
unfolding safe_join
safe_join_sound root relative path h =
    let (rest, valid, joined) = >>=-eq-ok (validate_relative_path relative) _ h in
    let safe = validate_relative_path-All relative rest valid in
    let same = join_relative root rest (safe-IsRelative rest safe) in
    (rest, ground (arith, same), ground (arith, same, append-nil root), safe)

-- A plain text with a safe, non-empty tuple of parts is joined to every root.
pub safe_join_complete :
    (root : FilePath) (relative : Text)
    → IsPlain relative
    → All IsSafeName (parse relative)
    → parse relative ≢ []
    → safe_join root relative ≡ ok (root ++ parse relative)
unfolding safe_join
safe_join_complete root relative plain safe some_part =
    let names = safe-IsRelative (parse relative) safe in
    rw
      (validate_relative_path_plain relative (λ e. some_part (rw e (unfold parse in refl))) plain
        safe)
      (ground (
        arith,
        join_relative root (parse relative) names,
        below_root root (parse relative) names,
        append_self root (parse relative),
      ))

-- A relative path as it is printed, of names that are neither "." nor "..", at least one of them, is joined
-- to every root, and its names stand behind the parts of the root; for a printed path that has no NUL, no
-- leading backslash and no drive.
pub safe_join-render :
    (root rest : FilePath)
    → IsPlain (render rest)
    → All IsSafeName rest
    → rest ≢ []
    → safe_join root (render rest) ≡ ok (root ++ rest)
safe_join-render root rest plain safe some_part =
    let same = parse-render rest (safe-IsPath rest safe) in
    subst (λ p. safe_join root (render rest) ≡ ok (root ++ p)) same
      (safe_join_complete root (render rest) plain (subst (All IsSafeName) (sym same) safe)
        (λ e. some_part (sym same ∙ e)))
