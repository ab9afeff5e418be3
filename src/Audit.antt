-- ===== src/Audit.antt =====
-- `AuditLog` of src/agent_workspace_guard/audit.py. What is read of the file is the list of its lines,
-- each as `json.loads` reads it; what is written are the bytes behind its last byte. The lock makes each
-- operation one step. Opening the file is not modelled, nor how its bytes fall into lines: bytes that are
-- written behind a last line with no newline become a part of that line.
pub mod Append
pub mod Chain
use agent_workspace_guard.Base.{
  ◌≡◌, ℕ, ◌+◌, Bool, true, false, not, Option, none, some, List, [], ◌∷◌, ◌++◌, Text, codes, ◌==◌,
  nat_eq, list_eq, option_eq, ltb, if◌then◌else◌, ℤ, Result, ok, err, builtin, integrity_error,
  refuse, traverse, ◌>>=◌, ◌>>◌,
}
use agent_workspace_guard.Json.Values.{
  Json, null, number, string, object, Fields, end, field, get, json_eq,
}
use agent_workspace_guard.Json.Dump.{canonical_json}
use agent_workspace_guard.Json.Convert.{Builtins, as_text, is_truthy}
use agent_workspace_guard.Validate.{strip}
use agent_workspace_guard.Signer.{sign, verify}

-- A line of the file: blank, no JSON, or a JSON value.
pub data Line : Type 0 where
  blank : Line
  invalid : Line
  value : Json → Line

-- `row.pop(key, None)` leaves this.
unfoldable pub without : Text → Fields → Fields
unfolding list_eq nat_eq
without key end = end
without key (field k v row) =
    let rest = without key row in if k == key then rest else field k v rest

abbrev zeros : ℕ → Text
zeros = elim [ ℕ.zero ↦ [] | ℕ.suc (n → ih) ↦ b'0' ∷ ih ]

-- `ZERO_HASH`
abbrev pub zero_hash : Text
zero_hash = zeros 64

-- `text.encode("ascii")`
unfoldable pub encode_ascii : Text → Result (List ℕ)
encode_ascii text = traverse (λ c. if ltb c 128 then ok c else err builtin) text

-- What the hash and the signature of a row cover.
abbrev pub body_of : Fields → Fields
body_of row = without (codes "event_hash") (without (codes "event_signature") row)

abbrev pub signed_event : Fields → Text → Json
signed_event body event_hash = object (
    field (codes "kind") (string (codes "audit_event"))
      (field (codes "body") (object body) (field (codes "event_hash") (string event_hash) end)))

-- The row that `append` writes.
unfoldable pub event_body : ℤ → Text → Json → Text → Fields
event_body timestamp event_type payload previous = field (codes "timestamp") (number timestamp) (
    field (codes "event_type") (string event_type)
      (field (codes "payload") payload (field (codes "previous_hash") (string previous) end)))

-- `{**body, "event_hash": event_hash}`, and the signature behind it.
unfoldable pub event_row : Option (List ℕ → Text) → ℤ → Text → Json → Text → Text → Result Fields
unfolding event_body
event_row none timestamp event_type payload previous hash = ok (
    field (codes "timestamp") (number timestamp) (
      field (codes "event_type") (string event_type) (
        field (codes "payload") payload (
          field (codes "previous_hash") (string previous)
            (field (codes "event_hash") (string hash) end)))))
event_row (some hmac) timestamp event_type payload previous hash = do
  signature ← sign hmac (signed_event (event_body timestamp event_type payload previous) hash)
  ok (
      field (codes "timestamp") (number timestamp) (
        field (codes "event_type") (string event_type) (
          field (codes "payload") payload (
            field (codes "previous_hash") (string previous) (
              field (codes "event_hash") (string hash)
                (field (codes "event_signature") (string signature) end))))))

module _ (sha256 : List ℕ → Text) where
  -- `hashlib.sha256(previous.encode("ascii") + canonical_json(body)).hexdigest()`
  unfoldable pub chain_hash : Text → Fields → Result Text
  unfolding encode_ascii
  chain_hash previous body = do
    front ← encode_ascii previous
    bytes ← canonical_json (object body)
    ok (sha256 (front ++ bytes))

module _ (py : Builtins) where
  -- `str(row.pop("event_hash", ""))`
  unfoldable pub claimed_hash : Fields → Text
  unfolding get as_text
  claimed_hash row = elim (get (codes "event_hash") row) [ none ↦ [] | some hash ↦ as_text py hash ]

  -- The test of the claimed signature, which is `None` if the row has none.
  unfoldable pub check_claimed : (List ℕ → Text) → Json → Option Json → Result (Unit {0})
  check_claimed hmac event none = err integrity_error
  check_claimed hmac event (some signature) = do
    refuse (not (is_truthy signature)) integrity_error
    verify hmac event (as_text py signature)

  -- `signer` is `None`, or the HMAC of its key.
  unfoldable pub check_signature : Option (List ℕ → Text) → Fields → Result (Unit {0})
  unfolding check_claimed
  check_signature none row = ok tt
  check_signature (some hmac) row =
      check_claimed hmac (signed_event (body_of row) (claimed_hash row))
        (get (codes "event_signature") row)

module _ (py : Builtins) (sha256 : List ℕ → Text) where
  -- The checks of one row, which return its hash.
  unfoldable pub check_row : Option (List ℕ → Text) → Text → Fields → Result Text
  check_row signer previous row = do
    refuse (not (get (codes "previous_hash") (body_of row) == some (string previous)))
        integrity_error
    expected_hash ← chain_hash sha256 previous (body_of row)
    refuse (not (claimed_hash py row == expected_hash)) integrity_error
    check_signature py signer row
    ok (claimed_hash py row)

  -- The loop of `_verify_unlocked`, with its count and its last hash.
  unfoldable pub verify_lines : Option (List ℕ → Text) → List Line → ℕ → Text → Result (ℕ × Text)
  verify_lines signer [] count previous = ok (count, previous)
  verify_lines signer (blank ∷ lines) count previous = verify_lines signer lines count previous
  verify_lines signer (invalid ∷ lines) count previous = err integrity_error
  verify_lines signer (value (object row) ∷ lines) count previous =
      check_row signer previous row >>= λ hash. verify_lines signer lines (count + 1) hash
  verify_lines signer (value other ∷ lines) count previous = err integrity_error

  abbrev pub verify_unlocked : Option (List ℕ → Text) → List Line → Result (ℕ × Text)
  verify_unlocked signer lines = verify_lines signer lines 0 zero_hash

  -- `append`: the bytes that it writes behind the file's last byte, and the hash of the event.
  unfoldable pub append :
      Option (List ℕ → Text) → ℤ → Text → Json → List Line → Result (List ℕ × Text)
  unfolding strip list_eq nat_eq
  append signer timestamp event_type payload lines = do
    refuse (strip event_type == []) integrity_error
    (count, previous) ← verify_unlocked signer lines
    hash ← chain_hash sha256 previous (event_body timestamp event_type payload previous)
    row ← event_row signer timestamp event_type payload previous hash
    bytes ← canonical_json (object row)
    ok (bytes ++ (10 ∷ []), hash)
