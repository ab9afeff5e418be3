-- ===== src/Policy/Tally.antt =====
-- The loop of `GuardPolicy.evaluate` of src/agent_workspace_guard/policy.py: its variables, and the
-- stages of its body in their order.
use Prim.Native.Nat.{bit_and}
use agent_workspace_guard.Base.{
  ℕ, ◌+◌, Bool, true, false, not, ◌&&◌, ◌||◌, Option, none, some, List, [], ◌∷◌, ◌++◌, map, Text,
  codes, ◌==◌, nat_eq, list_eq, contains, starts_with, ends_with, any, if◌then◌else◌, ℤ, pos,
  negsuc, ◌+ℤ◌, Result, ok, err, builtin, ◌>>=◌,
}
use agent_workspace_guard.Paths.{FilePath, parse, name, suffix}
use agent_workspace_guard.Host.{CaseTables, Floats}
use agent_workspace_guard.Models.Enums.{
  EntryKind, file, symlink, special, entry_kind_eq, ChangeKind, add, modify, delete, type_change,
  change_kind_eq,
}
use agent_workspace_guard.Models.ManifestEntry.{ManifestEntry}
use agent_workspace_guard.Models.Change.{Change}
use agent_workspace_guard.Models.Finding.{Finding}
use agent_workspace_guard.Policy.Symlink.{unsafe_symlink_reason}
use agent_workspace_guard.Policy.Config.{GuardPolicy}

-- `counts`, by kind.
pub record Counts : Type 0 where
  pub added : ℕ
  pub modified : ℕ
  pub deleted : ℕ
  pub type_changed : ℕ

pub record Tally : Type 0 where
  pub counts : Counts
  pub added_bytes : ℤ
  pub replacement_bytes : ℤ
  pub removed_bytes : ℤ
  pub destructive : Bool
  pub hard_deny : Bool
  pub findings : List Finding

abbrev pub empty_tally : Tally
empty_tally = record {
  counts = record { added = 0; modified = 0; deleted = 0; type_changed = 0 };
  added_bytes = pos 0;
  replacement_bytes = pos 0;
  removed_bytes = pos 0;
  destructive = false;
  hard_deny = false;
  findings = [];
}

unfoldable pub increment : ChangeKind → Counts → Counts
increment add c = record c { added = c.added + 1 }
increment modify c = record c { modified = c.modified + 1 }
increment delete c = record c { deleted = c.deleted + 1 }
increment type_change c = record c { type_changed = c.type_changed + 1 }

abbrev pub has_kind : EntryKind → Option ManifestEntry → Bool
has_kind kind none = false
has_kind kind (some entry) = entry.kind == kind

abbrev pub size_of : Option ManifestEntry → ℤ
size_of none = pos 0
size_of (some entry) = entry.size

-- `after or before`
abbrev pub or_before : Option ManifestEntry → Option ManifestEntry → Option ManifestEntry
or_before (some after) before = some after
or_before none before = before

-- `mode & 0o111`, as a test. Of a negative mode the complement is read.
abbrev pub has_execute_bits : ℤ → Bool
has_execute_bits (pos n) = not (bit_and n 0o111 == 0)
has_execute_bits (negsuc n) = not (bit_and n 0o111 == 0o111)

abbrev pub mode_executes : Option ManifestEntry → Bool
mode_executes none = false
mode_executes (some entry) = has_execute_bits entry.mode

abbrev pub target_of : Option ManifestEntry → Option Text
target_of none = none
target_of (some entry) = entry.link_target

abbrev finding : Text → Text → Text → Text → Finding
finding code severity message path = record {
  code = code;
  severity = severity;
  message = message;
  path = some path;
}

abbrev pub is_destructive_kind : ChangeKind → Bool
is_destructive_kind add = false
is_destructive_kind _ = true

unfoldable pub count_change : Change → Tally → Tally
unfolding increment
count_change change t = record t { counts = increment change.kind t.counts }

unfoldable pub add_bytes : Change → Tally → Tally
unfolding entry_kind_eq change_kind_eq ◌+ℤ◌
add_bytes change t = record t {
  added_bytes =
      if change.kind == add && has_kind file change.after
      then t.added_bytes +ℤ size_of change.after
      else t.added_bytes;
  replacement_bytes =
      if (change.kind == modify || change.kind == type_change) && has_kind file change.after
      then t.replacement_bytes +ℤ size_of change.after
      else t.replacement_bytes;
  removed_bytes =
      if (change.kind == delete || change.kind == type_change) && has_kind file change.before
      then t.removed_bytes +ℤ size_of change.before
      else t.removed_bytes;
}

unfoldable pub note_destructive : Change → Tally → Tally
note_destructive change t = record t {
  destructive = t.destructive || is_destructive_kind change.kind;
}

unfoldable pub note_special : Change → Tally → Tally
unfolding entry_kind_eq
note_special change t =
    if has_kind special (or_before change.after change.before)
    then record t {
      hard_deny = true;
      findings =
          t.findings
          ++ (finding (codes "special_file_change") (codes "error")
                (codes "device nodes, sockets, and other special files are not commit-capable")
                change.path
              ∷ []);
    }
    else t

-- A new or changed symlink, with the reason to deny it, if there is one.
unfoldable pub add_symlink_finding : Change → Option Text → Tally → Tally
add_symlink_finding change (some reason) t = record t {
  destructive = true;
  hard_deny = true;
  findings =
      t.findings
      ++ (finding (codes "unsafe_symlink_target") (codes "error") reason change.path ∷ []);
}
add_symlink_finding change none t = record t {
  destructive = true;
  findings =
      t.findings
      ++ (finding (codes "symlink_change") (codes "warning")
            (codes "new or changed in-workspace symlinks require explicit review") change.path
          ∷ []);
}

module _ (cases : CaseTables) (floats : Floats) (policy : GuardPolicy floats) where
  abbrev pub protected_names : List Text
  protected_names = map cases.casefold policy.protected_top_level

  -- `top` is the first part of the path, which has one if it is not ".".
  unfoldable pub is_protected_top : FilePath → Result Bool
  unfolding list_eq nat_eq
  is_protected_top [] = err builtin
  is_protected_top (top ∷ parts) = ok (contains protected_names (cases.casefold top))

  unfoldable pub note_protected : Change → Bool → Tally → Tally
  note_protected change true t = record t {
    hard_deny = true;
    findings =
        t.findings
        ++ (finding (codes "protected_path_change") (codes "error")
              (codes "broker metadata or VCS internals may not be committed: " ++ change.path)
              change.path
            ∷ []);
  }
  note_protected change false t = t

  unfoldable pub is_new_symlink : Change → Bool
  unfolding entry_kind_eq change_kind_eq
  is_new_symlink change = has_kind symlink change.after && not (change.kind == delete)

  abbrev pub symlink_reason : Change → Option Text
  symlink_reason change =
      unsafe_symlink_reason cases change.path (target_of change.after) protected_names

  unfoldable pub note_symlink : Change → Tally → Tally
  unfolding is_new_symlink add_symlink_finding
  note_symlink change t =
      if is_new_symlink change then add_symlink_finding change (symlink_reason change) t else t

  unfoldable pub is_new_executable : Change → Bool
  unfolding entry_kind_eq change_kind_eq list_eq nat_eq parse suffix
  is_new_executable change =
      change.kind == add
      && has_kind file change.after
      && (mode_executes change.after
          || contains policy.executable_suffixes (cases.lower (suffix (parse change.path))))

  unfoldable pub note_executable : Change → Tally → Tally
  unfolding is_new_executable
  note_executable change t =
      if is_new_executable change
      then record t {
        destructive = true;
        findings =
            t.findings
            ++ (finding (codes "executable_file_added") (codes "warning")
                  (codes "new executable or script content requires explicit review") change.path
                ∷ []);
      }
      else t

  unfoldable pub is_sensitive : Change → Bool
  unfolding list_eq nat_eq parse name starts_with ends_with
  is_sensitive change =
      let base = cases.lower (name (parse change.path)) in
      contains (map cases.lower policy.sensitive_names) base
      || starts_with base (codes ".env.")
      || any (ends_with base) (codes ".pem" ∷ codes ".key" ∷ codes ".p12" ∷ codes ".pfx" ∷ [])

  unfoldable pub note_sensitive : Change → Tally → Tally
  unfolding is_sensitive
  note_sensitive change t =
      if is_sensitive change
      then record t {
        destructive = true;
        findings =
            t.findings
            ++ (finding (codes "sensitive_path_change") (codes "warning")
                  (codes "a credential- or secret-like path changed and requires review")
                  change.path
                ∷ []);
      }
      else t

  -- The body of the loop.
  unfoldable pub tally_change : Change → Tally → Result Tally
  tally_change change t = do
    protected ← is_protected_top (parse change.path)
    let counted = count_change change t
    let checked = note_protected change protected counted
    let sized = note_special change (note_destructive change (add_bytes change checked))
    ok (note_sensitive change (note_executable change (note_symlink change sized)))

  unfoldable pub tally_changes : List Change → Tally → Result Tally
  unfolding tally_change
  tally_changes [] t = ok t
  tally_changes (change ∷ changes) t = tally_change change t >>= tally_changes changes
