-- ===== src/ShellGate.antt =====
-- shell_gate.py: the inspection of a shell payload. The regular expressions are those of the source;
-- the engine that searches for them is Python's.
pub mod Patterns
pub mod Decided
pub mod Reported
use agent_workspace_guard.Base.{
  ℕ, pos, map, Bool, true, false, not, ◌&&◌, ◌||◌, ltb, Option, none, some, List, [], ◌∷◌, ◌++◌,
  Text, codes, any, length, contains, starts_with, ◌==◌, list_eq, nat_eq, if◌then◌else◌,
}
use agent_workspace_guard.Host.{CaseTables}
use agent_workspace_guard.Validate.{strip}
use agent_workspace_guard.Models.Enums.{Decision, allow, require_approval, deny, decision_value}
use agent_workspace_guard.Models.Finding
use agent_workspace_guard.Models.Finding.{Finding}
use agent_workspace_guard.Json.Values.{Json, string, array, object, number, items_of, fields_of}
use agent_workspace_guard.ShellGate.Patterns

pub record CommandInspection : Type 0 where
  pub decision : Decision
  pub findings : List Finding
  pub shell : Text
  pub command_sha256 : Text
  pub command_length : ℕ
  pub boundary_note : Text

unfoldable pub to_dict : CommandInspection → Json
to_dict r = object (
    fields_of (
      (codes "decision", string (decision_value r.decision))
      ∷ (codes "findings", array (items_of (map Finding.to_dict r.findings)))
      ∷ (codes "shell", string r.shell)
      ∷ (codes "command_sha256", string r.command_sha256)
      ∷ (codes "command_length", number (pos r.command_length))
      ∷ (codes "boundary_note", string r.boundary_note)
      ∷ []))

-- What the gate takes from Python: `re.search` for a pattern's source, and the SHA-256 of a text
-- that is encoded with "surrogatepass".
pub record Engine : Type 0 where
  pub search : Text → Text → Bool
  pub sha256_hex : Text → Text

-- A payload that is a `str`, or any other object by its `repr`.
pub data Payload : Type 0 where
  text : Text → Payload
  other : Text → Payload

abbrev pub is_text : Payload → Bool
is_text (text t) = true
is_text (other t) = false

abbrev pub raw : Payload → Text
raw (text t) = t
raw (other t) = t

abbrev pub is_too_large : Payload → Bool
is_too_large payload = ltb 1000000 (length (raw payload))

-- `not isinstance(command, str) or not command.strip()`
unfoldable pub is_empty : Payload → Bool
unfolding strip list_eq nat_eq
is_empty payload = not (is_text payload) || strip (raw payload) == []

-- Whether `part` is a part of a text, as by `in`.
unfoldable pub is_part : Text → Text → Bool
unfolding starts_with list_eq nat_eq
is_part part [] = starts_with [] part
is_part part (c ∷ rest) = starts_with (c ∷ rest) part || is_part part rest

-- The variables of the inspection.
pub record Verdict : Type 0 where
  pub findings : List Finding
  pub decision : Decision

abbrev pub finding : Text → Text → Text → Finding
finding code severity message = record {
  code = code;
  severity = severity;
  message = message;
  path = none;
}

abbrev pub raised_to : Decision → Decision → Decision
raised_to deny decision = deny
raised_to require_approval allow = require_approval
raised_to require_approval decision = decision
raised_to allow decision = decision

-- The inner function `add`.
unfoldable pub add : Finding → Decision → Verdict → Verdict
unfolding list_eq nat_eq
add f target v = record {
  findings =
      if any (λ item. item.code == f.code) v.findings then v.findings else v.findings ++ (f ∷ []);
  decision = raised_to target v.decision;
}

abbrev pub add_if : Bool → Finding → Decision → Verdict → Verdict
add_if test f target v = if test then add f target v else v

abbrev pub reserved_environment_mutation : Finding
reserved_environment_mutation =
    finding (codes "reserved_environment_mutation") (codes "error")
      (codes "the command assigns to broker-owned home, temp, or user-state identity")

abbrev pub sandbox_boundary_mutation : Finding
sandbox_boundary_mutation =
    finding (codes "sandbox_boundary_mutation") (codes "error")
      (codes "privilege, mount, filesystem-format, or ACL mutation is outside the task capability")

abbrev pub destructive_intent : Finding
destructive_intent = finding (codes "destructive_intent") (codes "warning") (
    codes
      "destructive or overwrite-capable activity must remain inside the transaction and be reviewed as an exact diff")

abbrev pub catastrophic_target_finding : Finding
catastrophic_target_finding = finding (codes "catastrophic_target") (codes "error") (
    codes
      "the payload references a root, home/profile, parent, current-directory, or default-to-root target")

abbrev pub nested_dynamic_destructive_shell : Finding
nested_dynamic_destructive_shell =
    finding (codes "nested_dynamic_destructive_shell") (codes "warning")
      (codes "nested or evaluated shell code prevents reliable lexical interpretation")

abbrev pub cross_shell_redirection : Finding
cross_shell_redirection =
    finding (codes "cross_shell_redirection") (codes "warning")
      (codes "Bash redirection was used in PowerShell; use 2>$null")

abbrev pub empty_command : Finding
empty_command =
    finding (codes "empty_command") (codes "error") (codes "empty shell payloads are rejected")

abbrev pub command_too_large : Finding
command_too_large =
    finding (codes "command_too_large") (codes "error")
      (codes "shell payload exceeds the inspection budget")

abbrev pub destructive_patterns : List Text
destructive_patterns =
    Patterns.posix_rm ∷ Patterns.find_delete ∷ Patterns.git_destructive ∷ Patterns.sync_delete
    ∷ Patterns.powershell_delete ∷ Patterns.cmd_delete ∷ Patterns.inline_delete_api
    ∷ Patterns.truncation ∷ []

-- What the searches for patterns say: a reserved assignment, an escape from the sandbox, destruction,
-- a catastrophic target, an evaluated shell.
unfoldable pub judge : Bool → Bool → Bool → Bool → Bool → Verdict
unfolding add
judge reserved escape destructive catastrophic dynamic =
    let v1 =
      add_if reserved reserved_environment_mutation deny
        (record { findings = []; decision = allow }) in
    let v2 = add_if escape sandbox_boundary_mutation deny v1 in
    let v3 = add_if destructive destructive_intent require_approval v2 in
    let v4 = add_if (destructive && catastrophic) catastrophic_target_finding deny v3 in
    add_if (dynamic && destructive) nested_dynamic_destructive_shell require_approval v4

abbrev pub redirected : Bool → Verdict → Verdict
redirected foreign v =
    if foreign then record v { findings = v.findings ++ (cross_shell_redirection ∷ []) } else v

abbrev pub rejected : Finding → Verdict
rejected f = record { findings = f ∷ []; decision = deny }

module _ (engine : Engine) where
  abbrev pub is_reserved : Text → Bool
  is_reserved command = any (λ pattern. engine.search pattern command) Patterns.reserved_assignments

  abbrev pub is_destructive : Text → Bool
  is_destructive command = any (λ pattern. engine.search pattern command) destructive_patterns

  abbrev pub inspection : Text → Payload → Verdict → CommandInspection
  inspection shell payload v = record {
    decision = v.decision;
    findings = v.findings;
    shell = shell;
    command_sha256 = engine.sha256_hex (raw payload);
    command_length = length (raw payload);
    boundary_note = Patterns.boundary_note;
  }

  -- The judgement of a payload by its searches.
  abbrev pub judge_payload : Payload → Verdict
  judge_payload payload =
      judge (is_reserved (raw payload)) (engine.search Patterns.host_escape (raw payload))
        (is_destructive (raw payload)) (engine.search Patterns.catastrophic_target (raw payload))
        (engine.search Patterns.dynamic_shell (raw payload))

-- Bash's redirection in PowerShell.
unfoldable pub is_foreign_redirection : CaseTables → Text → Text → Bool
unfolding is_part
is_foreign_redirection tables shell command =
    contains (codes "powershell" ∷ codes "pwsh" ∷ []) (tables.lower shell)
    && is_part (codes "2>/dev/null") command

module _ (tables : CaseTables) (engine : Engine) where
  unfoldable pub verdict : Payload → Text → Verdict
  verdict payload shell =
      if is_empty payload
      then rejected empty_command
      else if is_too_large payload
      then rejected command_too_large
      else redirected (is_foreign_redirection tables shell (raw payload))
          (judge_payload engine payload)

  unfoldable pub inspect_shell_command : Payload → Text → CommandInspection
  unfolding verdict
  inspect_shell_command payload shell = inspection engine shell payload (verdict payload shell)
