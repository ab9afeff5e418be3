-- ===== src/ShellGate/Patterns.antt =====
-- The regular expressions of src/agent_workspace_guard/shell_gate.py, as they are written there.
use agent_workspace_guard.Base.{List, [], ◌∷◌, Text, codes}

abbrev pub boundary_note : Text
boundary_note =
    codes
      "Heuristic inspection is not the security boundary. Execute only inside the disposable worktree with OS-enforced denial of writes to the real workspace; commit exact diffs through the broker."

abbrev pub assignment : Text
assignment =
    codes
      "(?im)(?:^|[;&|\\s])(?:export\\s+)?(?:HOME|USERPROFILE|TMPDIR|TMP|TEMP|CODEX_HOME|XDG_CONFIG_HOME|XDG_CACHE_HOME|XDG_DATA_HOME|XDG_STATE_HOME|XDG_RUNTIME_DIR|APPDATA|LOCALAPPDATA)\\s*="

abbrev pub powershell_assignment : Text
powershell_assignment =
    codes
      "(?im)(?:^|[;&|\\s])\\$(?:env:)?(?:HOME|USERPROFILE|TMPDIR|TMP|TEMP|CODEX_HOME|XDG_CONFIG_HOME|XDG_CACHE_HOME|XDG_DATA_HOME|XDG_STATE_HOME|XDG_RUNTIME_DIR|APPDATA|LOCALAPPDATA)\\s*="

abbrev pub cmd_assignment : Text
cmd_assignment =
    codes
      "(?im)(?:^|[;&|\\s])set\\s+(?:HOME|USERPROFILE|TMPDIR|TMP|TEMP|CODEX_HOME|XDG_CONFIG_HOME|XDG_CACHE_HOME|XDG_DATA_HOME|XDG_STATE_HOME|XDG_RUNTIME_DIR|APPDATA|LOCALAPPDATA)\\s*="

abbrev pub reserved_assignments : List Text
reserved_assignments = assignment ∷ powershell_assignment ∷ cmd_assignment ∷ []

abbrev pub host_escape : Text
host_escape =
    codes
      "(?im)(?:^|[;&|\\s])(?:sudo|doas|mount|umount|chroot|pivot_root|mkfs(?:\\.[a-z0-9]+)?|diskutil\\s+erase|format(?:\\.com)?\\s+[a-z]:|takeown|icacls)\\b"

abbrev pub posix_rm : Text
posix_rm = codes "(?im)(?:^|[;&|])\\s*(?:command\\s+)?(?:/[^\\s;]+/)?(?:rm|unlink|rmdir|shred)\\b"

abbrev pub find_delete : Text
find_delete = codes "(?im)\\bfind\\b[^\\n;]*(?:-delete|-exec(?:dir)?\\s+(?:rm|unlink|rmdir)\\b)"

abbrev pub git_destructive : Text
git_destructive =
    codes "(?im)\\bgit\\s+(?:clean\\b|reset\\s+--hard\\b|checkout\\s+--\\s+\\.|restore\\b|rm\\b)"

abbrev pub sync_delete : Text
sync_delete = codes "(?im)\\b(?:rsync\\b[^\\n;]*--delete\\b|robocopy\\b[^\\n;]*/(?:mir|purge)\\b)"

abbrev pub powershell_delete : Text
powershell_delete =
    codes "(?im)(?:^|[;&|\\s])(?:Remove-Item|Clear-Content|ri|del|erase|rd|rmdir)\\b"

abbrev pub cmd_delete : Text
cmd_delete = codes "(?im)(?:^|[&|\\s])(?:del|erase|rd|rmdir)\\b[^\\n]*(?:/s|/q)"

abbrev pub inline_delete_api : Text
inline_delete_api =
    codes
      "(?im)(?:shutil\\.rmtree|os\\.(?:remove|unlink|rmdir)|Path\\([^\\n]*\\)\\.unlink|fs\\.(?:rm|rmdir|unlink)|FileUtils\\.rm_rf|std::fs::remove_(?:file|dir_all)|System\\.IO\\.(?:File|Directory)\\.Delete|Remove-Item)"

abbrev pub truncation : Text
truncation =
    codes "(?im)(?:^|[;&|\\s])(?:truncate\\b|dd\\b[^\\n;]*\\bof=|Set-Content\\b|Clear-Content\\b)"

abbrev pub dynamic_shell : Text
dynamic_shell =
    codes
      "(?im)(?:\\b(?:bash|sh|zsh)\\s+-c\\b|\\b(?:powershell|pwsh)(?:\\.exe)?\\b[^\\n;]*-(?:command|c)\\b|\\beval\\b)"

abbrev pub catastrophic_target : Text
catastrophic_target =
    codes
      "(?ix)(?:(?:^|[\\s'\\\"])(?:/|/\\*|~/?|\\.\\.?/?\\*?)(?:[\\s'\\\"]|$)|\\$(?:HOME|USERPROFILE)(?:[/\\\\]\\*)?|\\$\\{(?:HOME|USERPROFILE)\\}|\\$env:(?:HOME|USERPROFILE)|%(?:HOME|USERPROFILE)%|[A-Z]:\\\\(?:\\*|\\s|['\\\"]|$)|\\$\\{[A-Za-z_][A-Za-z0-9_]*:-/\\})"
