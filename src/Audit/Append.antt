-- ===== src/Audit/Append.antt =====
-- `append` of src/agent_workspace_guard/audit.py and the log that it leaves.
use agent_workspace_guard.Base.{
  ◌≡◌, ◌≢◌, refl, sym, ap, ◌∙◌, ℕ, ◌+◌, true, Option, none, some, List, [], ◌∷◌, ◌++◌, Text, codes,
  ◌==◌, eq_refl, nat_eq, list_eq, option_eq, arith, ℤ, ok, integrity_error, refuse, >>=-eq-ok,
  ok-injective,
}
use agent_workspace_guard.Json.Values.{Json, string, object, Fields, get, json_eq}
use agent_workspace_guard.Json.Dump.{canonical_json}
use agent_workspace_guard.Json.Convert.{Builtins, as_text, is_truthy}
use agent_workspace_guard.Signer.{sign, verify, verify-sign, is_ascii}
use agent_workspace_guard.Validate.{strip}
use agent_workspace_guard.Audit.{
  Line, blank, value, without, zero_hash, body_of, signed_event, chain_hash, claimed_hash,
  check_claimed, check_signature, check_row, verify_lines, verify_unlocked, event_body, event_row,
  append,
}

-- What is assumed of a signer: unpadded base64 of 32 bytes is ASCII and not empty.
abbrev pub IsBase64 : Option (List ℕ → Text) → Type 0
IsBase64 none = Unit
IsBase64 (some hmac) = (bytes : List ℕ) → (is_ascii (hmac bytes) ≡ true) × (hmac bytes ≢ [])

sign_nonempty :
    (hmac : List ℕ → Text) (payload : Json) (signature : Text)
    → ((bytes : List ℕ) → hmac bytes ≢ [])
    → sign hmac payload ≡ ok signature
    → signature ≢ []
unfolding sign
sign_nonempty hmac payload signature some_text h =
    let (bytes, e, same) = >>=-eq-ok (canonical_json payload) _ h in
    rw (← ok-injective same) (some_text bytes)

module _ (py : Builtins) (sha256 : List ℕ → Text) where
  verify_lines-append :
      (signer : Option (List ℕ → Text)) (lines more : List Line) (count count' : ℕ)
      (previous previous' : Text)
      → verify_lines py sha256 signer lines count previous ≡ ok (count', previous')
      → verify_lines py sha256 signer (lines ++ more) count previous
        ≡ verify_lines py sha256 signer more count' previous'
  unfolding verify_lines
  verify_lines-append signer [] more c c' p p' h = let e = ok-injective h in cc
  verify_lines-append signer (blank ∷ lines) more c c' p p' h =
      verify_lines-append signer lines more c c' p p' h
  verify_lines-append signer (value (object row) ∷ lines) more c c' p p' h =
      let (hash, e, rest) = >>=-eq-ok (check_row py sha256 signer p row) _ h in
      rw e (verify_lines-append signer lines more (c + 1) c' hash p' rest)
  verify_lines-append signer _ more c c' p p' h = cc

-- The parts of a row that `append` writes.
record IsRow (py : Builtins) (row body : Fields) (previous hash : Text) : Type 0 where
  body_part : body_of row ≡ body
  previous_part : get (codes "previous_hash") (body_of row) ≡ some (string previous)
  hash_part : claimed_hash py row ≡ hash

check_claimed_text :
    (py : Builtins) (hmac : List ℕ → Text) (event : Json) (signature : Text)
    → signature ≢ []
    → verify hmac event signature ≡ ok tt
    → check_claimed py hmac event (some (string signature)) ≡ ok tt
unfolding check_claimed is_truthy as_text
check_claimed_text py hmac event signature some_text accepted = ground arith

module _ (py : Builtins) (timestamp : ℤ) (event_type : Text) (payload : Json)
    (previous hash : Text) where
  abbrev body : Fields
  body = event_body timestamp event_type payload previous

  unsigned-IsRow :
      (row : Fields)
      → event_row none timestamp event_type payload previous hash ≡ ok row
      → IsRow py row body previous hash
  unfolding event_row without list_eq nat_eq event_body get claimed_hash
  unsigned-IsRow row h =
      rw (← ok-injective h) (record { body_part = refl; previous_part = refl; hash_part = refl })

  signed-IsRow :
      (hmac : List ℕ → Text) (row : Fields)
      → event_row (some hmac) timestamp event_type payload previous hash ≡ ok row
      → (signature : Text) × (sign hmac (signed_event body hash) ≡ ok signature)
        × (get (codes "event_signature") row ≡ some (string signature))
        × IsRow py row body previous hash
  unfolding event_row without list_eq nat_eq event_body get claimed_hash
  signed-IsRow hmac row h =
      let (signature, e, rest) = >>=-eq-ok (sign hmac (signed_event body hash)) _ h in
      (
        signature,
        e,
        rw (← ok-injective rest) refl,
        rw (← ok-injective rest)
            (record { body_part = refl; previous_part = refl; hash_part = refl }),
      )

  check_own_signature :
      (signer : Option (List ℕ → Text)) (row : Fields)
      → IsBase64 signer
      → event_row signer timestamp event_type payload previous hash ≡ ok row
      → IsRow py row body previous hash × (check_signature py signer row ≡ ok tt)
  unfolding check_signature
  check_own_signature none row good h = (unsigned-IsRow row h, refl)
  check_own_signature (some hmac) row good h =
      let (signature, signed, found, parts) = signed-IsRow hmac row h in
      let some_text = sign_nonempty hmac _ signature (λ b. (good b).1) signed in
      let accepted = verify-sign hmac (λ b. (good b).0) _ signature signed in
      (
        parts,
        rw (found, parts.body_part, parts.hash_part)
            (check_claimed_text py hmac _ signature some_text accepted),
      )

  -- The row that `append` writes passes the checks of its place in the chain.
  check_row-event_row :
      (sha256 : List ℕ → Text) (signer : Option (List ℕ → Text)) (row : Fields)
      → IsBase64 signer
      → chain_hash sha256 previous body ≡ ok hash
      → event_row signer timestamp event_type payload previous hash ≡ ok row
      → check_row py sha256 signer previous row ≡ ok hash
  unfolding check_row
  check_row-event_row sha256 signer row good h k =
      let (parts, signed) = check_own_signature signer row good k in
      rw (
        parts.previous_part,
        eq_refl (some (string previous)),
        parts.body_part,
        h,
        parts.hash_part,
        eq_refl hash,
        signed,
      )

module _ (py : Builtins) (sha256 : List ℕ → Text) (signer : Option (List ℕ → Text)) where
  verified_row :
      (lines : List Line) (count : ℕ) (previous : Text) (row : Fields) (hash : Text)
      → verify_unlocked py sha256 signer lines ≡ ok (count, previous)
      → check_row py sha256 signer previous row ≡ ok hash
      → verify_unlocked py sha256 signer (lines ++ (value (object row) ∷ [])) ≡ ok (count + 1, hash)
  verified_row lines count previous row hash verified checked =
      verify_lines-append py sha256 signer lines _ 0 count zero_hash previous verified
      ∙ (unfold verify_lines in rw checked)

  -- After a successful append the log verified before it, and what was written is the JSON text of a row
  -- and a newline. If that is read as a line of its own behind the lines that were read, the log verifies
  -- again: it has one event more, and ends in the hash that was returned.
  pub verify_unlocked-append :
      (timestamp : ℤ) (event_type : Text) (payload : Json) (lines : List Line) (written : List ℕ)
      (hash : Text)
      → IsBase64 signer
      → append py sha256 signer timestamp event_type payload lines ≡ ok (written, hash)
      → (row : Fields) × (bytes : List ℕ) × (count : ℕ) × (previous : Text) × (canonical_json
            (object row)
          ≡ ok bytes)
        × (written ≡ bytes ++ (10 ∷ []))
        × (verify_unlocked py sha256 signer lines ≡ ok (count, previous))
        × (verify_unlocked py sha256 signer (lines ++ (value (object row) ∷ []))
            ≡ ok (count + 1, hash))
  unfolding append
  verify_unlocked-append timestamp event_type payload lines written hash good h =
      let (u, named, rest) = >>=-eq-ok (refuse (strip event_type == []) integrity_error) _ h in
      let (last, verified, rest1) = >>=-eq-ok (verify_unlocked py sha256 signer lines) _ rest in
      let (hash', hashed, rest2) = >>=-eq-ok (chain_hash sha256 last.1 _) _ rest1 in
      let (row, made, rest3) = >>=-eq-ok (event_row signer _ _ _ _ _) _ rest2 in
      let (bytes, printed, e) = >>=-eq-ok (canonical_json (object row)) _ rest3 in
      let checked =
        check_row-event_row py timestamp event_type payload last.1 hash' sha256 signer row good
          hashed made in
      (
        row,
        bytes,
        last.0,
        last.1,
        printed,
        sym (ap (λ q. q.0) (ok-injective e)),
        verified,
        verified_row lines last.0 last.1 row hash' verified checked
            ∙ ap (λ x. ok (last.0 + 1, x)) (ap (λ q. q.1) (ok-injective e)),
      )
