-- ===== src/Tests/OnPaths.antt =====
-- Paths, identifiers and text fields.
use agent_workspace_guard.Base.{
  ◌≡◌, ◌≢◌, refl, ℕ, ◌≤◌, true, false, [], ◌∷◌, ◌++◌, codes, All, ok, any, contains, ◌==◌, nat_eq,
  list_eq, arith, length, starts_with, inl,
}
use agent_workspace_guard.Paths.{
  FilePath, slash, dot, parse, render, is_relative_to, safe_join, has_drive, assert_disjoint,
}
use agent_workspace_guard.Paths.Safe.Joined.{IsPlain, IsSafeName, safe_join_sound, safe_join-render}
use agent_workspace_guard.Paths.Safe.Printed.{IsPath, parse-render}
use agent_workspace_guard.Paths.Disjoint.{assert_disjoint_sound}
use agent_workspace_guard.Validate.{is_control, validate_text_field, validate_object_id, underscore}
use agent_workspace_guard.Validate.Identifiers.{validate_object_id-IsSafeName}
use agent_workspace_guard.Validate.Fields.{validate_text_field_idem}

abbrev workspace : FilePath
workspace = codes "/" ∷ codes "w" ∷ []

joined_a_b :
    safe_join workspace (codes "a/b") ≡ ok (codes "/" ∷ codes "w" ∷ codes "a" ∷ codes "b" ∷ [])
unfolding safe_join
joined_a_b = refl

safe_join_sound_example :
    (rest : FilePath) × ((codes "/" ∷ codes "w" ∷ codes "a" ∷ codes "b" ∷ []) ≡ workspace ++ rest)
    × (rest ≢ [])
    × All IsSafeName rest
safe_join_sound_example = safe_join_sound workspace (codes "a/b") _ joined_a_b

a_b-IsPlain : IsPlain (codes "a/b")
unfolding has_drive starts_with nat_eq
a_b-IsPlain = record { no_nul = refl; no_slash = refl; no_backslash = refl; no_drive = refl }

harmless :
    (c : ℕ) → contains (c ∷ []) slash ≡ false → ((c ∷ []) == dot) ≡ false → IsSafeName (c ∷ [])
harmless c h k = ground arith

a_b_safe : All IsSafeName (codes "a" ∷ codes "b" ∷ [])
unfolding nat_eq list_eq
a_b_safe = (harmless b'a' refl refl, (harmless b'b' refl refl, tt))

safe_join-render_example :
    safe_join workspace (render (codes "a" ∷ codes "b" ∷ []))
    ≡ ok (workspace ++ (codes "a" ∷ codes "b" ∷ []))
unfolding render
safe_join-render_example =
    safe_join-render workspace (codes "a" ∷ codes "b" ∷ []) a_b-IsPlain a_b_safe (λ e. cc)

workspace-IsPath : IsPath workspace
unfolding nat_eq
workspace-IsPath = (inl refl, ((λ e. cc, λ e. cc, refl), tt))

workspace_printed : parse (render workspace) ≡ workspace
workspace_printed = parse-render workspace workspace-IsPath

abbrev state_root : FilePath
state_root = codes "/" ∷ codes "s" ∷ []

disjoint : assert_disjoint workspace state_root ≡ ok tt
unfolding assert_disjoint
disjoint = refl

below_workspace : is_relative_to (codes "/" ∷ codes "w" ∷ codes "a" ∷ []) workspace ≡ true
unfolding is_relative_to
below_workspace = refl

assert_disjoint_sound_example :
    is_relative_to (codes "/" ∷ codes "w" ∷ codes "a" ∷ []) state_root ≡ false
assert_disjoint_sound_example =
    assert_disjoint_sound workspace state_root _ disjoint below_workspace

txn_id :
    validate_object_id (codes "txn_0123456789abcdef") (codes "txn")
    ≡ ok (codes "txn_0123456789abcdef")
unfolding validate_object_id
txn_id = refl

validate_object_id-IsSafeName_example :
    (codes "txn_0123456789abcdef" ≡ codes "txn_0123456789abcdef")
    × IsSafeName (codes "txn_0123456789abcdef")
    × (starts_with (codes "txn_0123456789abcdef") (codes "txn" ++ (underscore ∷ [])) ≡ true)
validate_object_id-IsSafeName_example =
    validate_object_id-IsSafeName (codes "txn_0123456789abcdef") (codes "txn") _ txn_id

stripped : validate_text_field (codes "  ann ") 8 ≡ ok (codes "ann")
unfolding validate_text_field
stripped = refl

validate_text_field_idem_example :
    (codes "ann" ≢ [])
    × (length (codes "ann") ≤ 8)
    × (any is_control (codes "ann") ≡ false)
    × (validate_text_field (codes "ann") 8 ≡ ok (codes "ann"))
validate_text_field_idem_example = validate_text_field_idem (codes "  ann ") 8 _ stripped
