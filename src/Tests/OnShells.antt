-- ===== src/Tests/OnShells.antt =====
-- A shell payload that removes the root, under an engine that knows two of the patterns.
use agent_workspace_guard.Base.{
  ◌≡◌, refl, none, [], Bool, true, ◌&&◌, ◌||◌, Text, codes, any, contains, ◌==◌, list_eq, nat_eq,
  if◌then◌else◌,
}
use agent_workspace_guard.Models.Enums.{deny, decision_eq}
use agent_workspace_guard.Models.Finding.{Finding}
use agent_workspace_guard.Tests.Hosts.{ascii_cases}
use agent_workspace_guard.ShellGate.{
  Engine, Payload, text, raw, is_part, is_reserved, is_destructive, inspect_shell_command, is_empty,
  is_foreign_redirection, judge, judge_payload, add,
}
use agent_workspace_guard.ShellGate.Patterns
use agent_workspace_guard.ShellGate.Decided.{
  is_error, is_refused, decided, inspect_shell_command-decision, inspect_shell_command-errors,
}
use agent_workspace_guard.ShellGate.Reported.{codes_of, is_distinct, is_distinct-add}

abbrev searches : Text → Text → Bool
searches pattern command =
    pattern == Patterns.posix_rm && is_part (codes "rm") command
    || pattern == Patterns.catastrophic_target && is_part (codes " /") command

abbrev engine : Engine
engine = record { search = searches; sha256_hex = λ t. codes "0" }

abbrev remove_root : Payload
remove_root = text (codes "rm -rf /")

denied : (inspect_shell_command ascii_cases engine remove_root (codes "bash")).decision ≡ deny
unfolding inspect_shell_command is_empty is_foreign_redirection judge list_eq nat_eq
denied = refl

inspect_shell_command-decision_example :
    (inspect_shell_command ascii_cases engine remove_root (codes "bash")).decision ≡ (
      if is_refused remove_root
      then deny
      else decided
          (is_reserved engine (raw remove_root))
          (engine.search Patterns.host_escape (raw remove_root))
          (is_destructive engine (raw remove_root))
          (engine.search Patterns.catastrophic_target (raw remove_root)))
inspect_shell_command-decision_example =
    inspect_shell_command-decision ascii_cases engine remove_root (codes "bash")

inspect_shell_command-errors_example :
    ((inspect_shell_command ascii_cases engine remove_root (codes "bash")).decision == deny)
    ≡ any is_error (inspect_shell_command ascii_cases engine remove_root (codes "bash")).findings
inspect_shell_command-errors_example =
    inspect_shell_command-errors ascii_cases engine remove_root (codes "bash")

-- A finding with a code that is reported already.
abbrev again : Finding
again = record {
  code = codes "catastrophic_target";
  severity = codes "error";
  message = [];
  path = none;
}

is_distinct-add_example :
    (is_distinct (codes_of (add again deny (judge_payload engine remove_root)).findings) ≡ true)
    × (contains
          (codes_of (add again deny (judge_payload engine remove_root)).findings)
          (codes "catastrophic_target")
        ≡ true)
unfolding judge list_eq nat_eq is_part
is_distinct-add_example = is_distinct-add again deny (judge_payload engine remove_root) refl
