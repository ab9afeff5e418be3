-- ===== src/Signer.antt =====
-- `StateSigner` of src/agent_workspace_guard/crypto.py, for a key that is loaded. `hmac` is
-- HMAC-SHA256 under the broker's key, in unpadded URL-safe base64.
use agent_workspace_guard.Base.{
  ◌≡◌, ℕ, Bool, true, not, ◌&&◌, List, Text, ◌==◌, nat_eq, list_eq, all, ltb, arith, Result, ok,
  builtin, integrity_error, refuse, ◌>>=◌, ◌>>◌, >>=-eq-ok, ok-injective,
}
use agent_workspace_guard.Json.Values.{Json}
use agent_workspace_guard.Json.Dump.{canonical_json}

abbrev pub is_ascii : Text → Bool
is_ascii = all (λ c. ltb c 128)

-- `hmac.compare_digest`, which raises `TypeError` on texts that are not ASCII.
unfoldable pub compare_digest : Text → Text → Result Bool
unfolding list_eq nat_eq
compare_digest expected signature = do
  refuse (not (is_ascii expected && is_ascii signature)) builtin
  ok (expected == signature)

module _ (hmac : List ℕ → Text) where
  unfoldable pub sign : Json → Result Text
  sign payload = do bytes ← canonical_json payload; ok (hmac bytes)

  unfoldable pub verify : Json → Text → Result (Unit {0})
  unfolding sign compare_digest
  verify payload signature = do
    expected ← sign payload
    same ← compare_digest expected signature
    refuse (not same) integrity_error

  -- The signer accepts what it has signed.
  pub verify-sign :
      ((bytes : List ℕ) → is_ascii (hmac bytes) ≡ true)
      → (payload : Json) (signature : Text) → sign payload ≡ ok signature
      → verify payload signature ≡ ok tt
  unfolding verify
  verify-sign ascii payload signature h =
      let (bytes, e, same) = >>=-eq-ok (canonical_json payload) _ h in
      ground (arith, ascii bytes, ok-injective same)

  -- It accepts nothing else: an accepted signature is the one that it would make.
  pub sign-of_verify :
      (payload : Json) (signature : Text)
      → verify payload signature ≡ ok tt
      → sign payload ≡ ok signature
  unfolding verify
  sign-of_verify payload signature h = ground arith
