-- ===== src/Tests/OnLogs.antt =====
-- Signatures and the event log.
use agent_workspace_guard.Base.{
  ◌≡◌, ◌⊎◌, refl, ℕ, ◌+◌, some, List, [], ◌∷◌, ◌++◌, Text, codes, pos, Result, ok, err, length,
  arith, true, option_eq,
}
use agent_workspace_guard.Json.Values.{Json, Fields, number, object, field, end, get, json_eq}
use agent_workspace_guard.Json.Dump.{canonical_json}
use agent_workspace_guard.Json.Convert.{is_truthy}
use agent_workspace_guard.Signer.{is_ascii, sign, verify, verify-sign, sign-of_verify}
use agent_workspace_guard.Audit.{
  Line, value, zero_hash, append, verify_lines, verify_unlocked, chain_hash, event_body, event_row,
  check_row, without, claimed_hash, check_signature,
}
use agent_workspace_guard.Audit.Append.{IsBase64, verify_unlocked-append}
use agent_workspace_guard.Audit.Chain.{Collision, events, verify_unlocked-TamperEvident}
use agent_workspace_guard.Tests.Hosts.{builtins, checksum}

abbrev payload : Json
payload = object (field (codes "n") (number (pos 1)) end)

-- The bytes that the first event writes, and its hash.
abbrev first_append : Result (List ℕ × Text)
first_append = append builtins checksum (some checksum) (pos 100) (codes "opened") payload []

abbrev bytes_of : Result (List ℕ × Text) → List ℕ
bytes_of (ok (bytes, hash)) = bytes
bytes_of (err e) = []

abbrev hash_of : Result (List ℕ × Text) → Text
hash_of (ok (bytes, hash)) = hash
hash_of (err e) = []

-- The row of the event, and the file of it.
abbrev lines_of : Result Fields → List Line
lines_of (ok row) = value (object row) ∷ []
lines_of (err e) = []

abbrev first_lines : List Line
first_lines =
    lines_of (
      event_row (some checksum) (pos 100) (codes "opened") payload zero_hash (hash_of first_append))

first_appended : first_append ≡ ok (bytes_of first_append, hash_of first_append)
unfolding append verify_lines chain_hash canonical_json event_body event_row sign
first_appended = refl

checksum-IsBase64 : IsBase64 (some checksum)
checksum-IsBase64 bytes = (ground arith, λ e. cc)

verify_unlocked-append_example :
    (row : Fields) × (bytes : List ℕ) × (count : ℕ) × (previous : Text) × (canonical_json
        (object row)
      ≡ ok bytes)
    × (bytes_of first_append ≡ bytes ++ (10 ∷ []))
    × (verify_unlocked builtins checksum (some checksum) [] ≡ ok (count, previous))
    × (verify_unlocked builtins checksum (some checksum) (value (object row) ∷ [])
        ≡ ok (count + 1, hash_of first_append))
verify_unlocked-append_example =
    verify_unlocked-append builtins checksum (some checksum) (pos 100) (codes "opened") payload []
      (bytes_of first_append) (hash_of first_append) checksum-IsBase64 first_appended

verified :
    verify_unlocked builtins checksum (some checksum) first_lines ≡ ok (1, hash_of first_append)
unfolding append verify_lines chain_hash canonical_json event_body event_row sign check_row
    option_eq get without json_eq claimed_hash check_signature is_truthy verify
verified = refl

checksum-width : (bytes : List ℕ) → length (checksum bytes) ≡ 64
checksum-width bytes = refl

verify_unlocked-TamperEvident_example :
    (events (first_lines) ≡ events (first_lines)) ⊎ Collision checksum
verify_unlocked-TamperEvident_example =
    verify_unlocked-TamperEvident builtins checksum (some checksum) checksum-width (first_lines)
      (first_lines) 1 (hash_of first_append) verified verified

pub checksum_ascii : (bytes : List ℕ) → is_ascii (checksum bytes) ≡ true
checksum_ascii bytes = ground arith

abbrev payload_signature : Text
payload_signature = elim (sign checksum payload) [ ok text ↦ text | err e ↦ [] ]

signed : sign checksum payload ≡ ok payload_signature
unfolding sign canonical_json
signed = refl

accepted : verify checksum payload payload_signature ≡ ok tt
unfolding verify sign canonical_json
accepted = refl

verify-sign_example : verify checksum payload payload_signature ≡ ok tt
verify-sign_example = verify-sign checksum checksum_ascii payload payload_signature signed

sign-of_verify_example : sign checksum payload ≡ ok payload_signature
sign-of_verify_example = sign-of_verify checksum payload payload_signature accepted
