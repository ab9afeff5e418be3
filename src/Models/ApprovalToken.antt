-- ===== src/Models/ApprovalToken.antt =====
-- ApprovalToken of src/agent_workspace_guard/models.py, with its conversions.
use agent_workspace_guard.Base.{◌≡◌, refl, List, [], ◌∷◌, ◌++◌, Text, codes, ℤ, Result, ok, ◌>>=◌}
use agent_workspace_guard.Json.Values.{Json, string, number, object, fields_of}
use agent_workspace_guard.Json.Convert.{
  Builtins, get_item, get_or_null, as_optional_text, text_item, int_item,
}

pub record ApprovalToken : Type 0 where
  pub token_id : Text
  pub plan_id : Text
  pub plan_fingerprint : Text
  pub actor : Text
  pub created_at : ℤ
  pub expires_at : ℤ
  pub signature : Text

unfoldable pub core_dict : ApprovalToken → List (Text × Json)
core_dict r =
    ((codes "token_id", string r.token_id)
      ∷ (codes "plan_id", string r.plan_id)
      ∷ (codes "plan_fingerprint", string r.plan_fingerprint)
      ∷ (codes "actor", string r.actor)
      ∷ (codes "created_at", number r.created_at)
      ∷ (codes "expires_at", number r.expires_at)
      ∷ [])

unfoldable pub to_dict : ApprovalToken → Json
unfolding core_dict
to_dict r = object (fields_of (core_dict r ++ ((codes "signature", string r.signature) ∷ [])))

module _ (py : Builtins) where
  unfoldable pub from_dict : Json → Result ApprovalToken
  unfolding get_item get_or_null text_item int_item as_optional_text
  from_dict value = do
    token_id ← text_item py value (codes "token_id")
    plan_id ← text_item py value (codes "plan_id")
    plan_fingerprint ← text_item py value (codes "plan_fingerprint")
    actor ← text_item py value (codes "actor")
    created_at ← int_item py value (codes "created_at")
    expires_at ← int_item py value (codes "expires_at")
    signature ← text_item py value (codes "signature")
    ok (record {
      token_id = token_id;
      plan_id = plan_id;
      plan_fingerprint = plan_fingerprint;
      actor = actor;
      created_at = created_at;
      expires_at = expires_at;
      signature = signature;
    })

  -- A loaded token is the token that was written.
  pub token_round_trip : (r : ApprovalToken) → from_dict (to_dict r) ≡ ok r
  unfolding from_dict to_dict
  token_round_trip r = refl
