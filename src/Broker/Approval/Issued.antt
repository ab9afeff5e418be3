-- ===== src/Broker/Approval/Issued.antt =====
-- A token that `approve` issues passes `_verify_approval`.
use agent_workspace_guard.Base.{
  ◌≡◌, refl, ℕ, Bool, true, false, not, ◌||◌, List, Text, codes, ◌==◌, eq_refl, nat_eq, list_eq,
  int_eq, ℤ, pos, ◌≤ℤ◌, ◌<ℤ◌, ltb_ℤ, leb_ℤ, min_ℤ, ◌+ℤ◌, ◌-ℤ◌, +ℤ_parts, -ℤ_parts, arith, Result,
  ok, approval_error, refuse, recast, ◌>>=◌, Error,
}
use agent_workspace_guard.Models.CommitPlan.{CommitPlan}
use agent_workspace_guard.Models.ApprovalToken
use agent_workspace_guard.Models.ApprovalToken.{ApprovalToken}
use agent_workspace_guard.Validate.{
  validate_object_id, validate_text_field, validate_ttl, validate_sha256,
}
use agent_workspace_guard.Validate.Fields.{validate_text_field_idem, validate_ttl_iff}
use agent_workspace_guard.Signer.{sign, verify, is_ascii, verify-sign}
use agent_workspace_guard.Broker.Records.{
  has_bad_lifetime, max_actor_length, max_approval_ttl_seconds,
}
use agent_workspace_guard.Broker.Approval.{approval_payload, unsigned_token, verify_approval}

-- A step that returns.
returns :
    {A B : Type 0} (first : Result A) (rest : A → Result B) (a : A) (b : B)
    → first ≡ ok a
    → rest a ≡ ok b
    → (first >>= rest) ≡ ok b
returns first rest a b h k = rw h k

recast_ok : {A : Type 0} (error : Error) (r : Result A) (a : A) → r ≡ ok a → recast error r ≡ ok a
recast_ok error r a h = rw h refl

passes : (test : Bool) (error : Error) → test ≡ false → refuse test error ≡ ok tt
passes test error h = rw h refl

same_ids : (a b : Text) → (not (a == a) || not (b == b)) ≡ false
same_ids a b = rw (eq_refl a, eq_refl b) refl

-- The lease of a token: from its creation to the earlier of the plan's end and its own.
module _ (created ttl plan_end : ℤ) (from_start : pos 0 ≤ℤ created) (long : pos 1 ≤ℤ ttl)
    (short : ttl ≤ℤ max_approval_ttl_seconds) (open_plan : created <ℤ plan_end) where
  lifetime : has_bad_lifetime created (min_ℤ plan_end (created +ℤ ttl)) ≡ false
  unfolding has_bad_lifetime
  lifetime = ground (arith, +ℤ_parts created ttl)

  not_long : ltb_ℤ max_approval_ttl_seconds (min_ℤ plan_end (created +ℤ ttl) -ℤ created) ≡ false
  not_long =
      ground (arith, +ℤ_parts created ttl, -ℤ_parts (min_ℤ plan_end (created +ℤ ttl)) created)

  inside : ltb_ℤ plan_end (min_ℤ plan_end (created +ℤ ttl)) ≡ false
  inside = ground (arith, +ℤ_parts created ttl)

module _ (hmac : List ℕ → Text) (ascii : (bytes : List ℕ) → is_ascii (hmac bytes) ≡ true) where
  -- The signature is no part of what is signed.
  signed_token :
      (token : ApprovalToken) (signature : Text)
      → sign hmac (approval_payload token) ≡ ok signature
      → verify hmac (approval_payload (record token { signature = signature })) signature ≡ ok tt
  unfolding ApprovalToken.core_dict
  signed_token token signature h = verify-sign hmac ascii (approval_payload token) signature h

  -- A token that is made and signed for a plan the way `approve` does it, with an actor and a lease that it
  -- accepts, for a plan whose identifier and fingerprint are valid and that ends after the creation, passes
  -- the checks at every later time before the token expires; for signatures that are ASCII.
  pub verify_approval-unsigned_token :
      (now created ttl : ℤ) (token_id given actor : Text) (plan : CommitPlan) (signature : Text)
      → validate_text_field given max_actor_length ≡ ok actor
      → validate_ttl ttl max_approval_ttl_seconds ≡ ok ttl
      → validate_object_id token_id (codes "approval") ≡ ok token_id
      → validate_object_id plan.plan_id (codes "plan") ≡ ok plan.plan_id
      → validate_sha256 plan.fingerprint ≡ ok plan.fingerprint
      → sign hmac (approval_payload (unsigned_token created token_id actor ttl plan)) ≡ ok signature
      → pos 0 ≤ℤ created
      → created <ℤ plan.expires_at
      → leb_ℤ (min_ℤ plan.expires_at (created +ℤ ttl)) now ≡ false
      → verify_approval hmac now
          (record (unsigned_token created token_id actor ttl plan) { signature = signature })
          plan
        ≡ ok tt
  unfolding verify_approval unsigned_token
  verify_approval-unsigned_token now created ttl token_id given actor plan signature named leased id
        plan_id fingerprint signed from_start open_plan live =
      let (long, short) = (validate_ttl_iff ttl max_approval_ttl_seconds).0 leased in
      let text = (validate_text_field_idem given max_actor_length actor named).3 in
      returns _ _ _ tt id (
        returns _ _ _ tt plan_id (
          returns _ _ tt tt
            (signed_token (unsigned_token created token_id actor ttl plan) signature signed)
            (returns _ _ _ tt (recast_ok approval_error _ _ text) (
              returns _ _ tt tt
                (passes _ approval_error
                  (lifetime created ttl plan.expires_at from_start long short open_plan))
                (returns _ _ tt tt
                  (passes _ approval_error
                    (not_long created ttl plan.expires_at from_start long short open_plan))
                  (returns _ _ tt tt (passes _ approval_error live) (
                    returns _ _ tt tt
                      (passes _ approval_error
                        (inside created ttl plan.expires_at from_start long short open_plan))
                      (returns _ _ _ tt (recast_ok approval_error _ _ fingerprint)
                        (passes _ approval_error (same_ids plan.plan_id plan.fingerprint))))))))))
