-- ===== src/Models/Signing.antt =====
-- What the signatures of src/agent_workspace_guard/models.py cover.
use agent_workspace_guard.Base.{
  ◌≡◌, ap, sym, ◌∙◌, refl, Text, [], codes, err, builtin, ok-injective,
}
use agent_workspace_guard.Json.Values.{Json, object, string, Fields, field, end}
use agent_workspace_guard.Json.Convert.{Builtins}
use agent_workspace_guard.Models.Transaction
use agent_workspace_guard.Models.Transaction.{Transaction, transaction_round_trip}
use agent_workspace_guard.Models.CommitPlan
use agent_workspace_guard.Models.CommitPlan.{CommitPlan, plan_round_trip}

-- The conversions play no part in reading what was written.
abbrev pub idle : Builtins
idle = record {
  repr = λ _. [];
  int_of_text = λ _. err builtin;
  int_of_float = λ _. err builtin;
  dict_of_items = λ _. err builtin;
}

append_fields : Fields → Fields → Fields
append_fields end more = more
append_fields (field k v rest) more = field k v (append_fields rest more)

-- What a file holds, from what its signature covers.
rebuild_plan : Json → Text → Json
rebuild_plan (object (field _ fingerprint (field _ state (field _ (object core) end)))) signature =
    object (
      append_fields core (
        field (codes "fingerprint") fingerprint
          (field (codes "signature") (string signature) (field (codes "state") state end))))
rebuild_plan other signature = other

rebuild_transaction : Json → Text → Json
rebuild_transaction (object fields) signature =
    object (append_fields fields (field (codes "signature") (string signature) end))
rebuild_transaction other signature = other

to_dict-rebuild_plan :
    (r : CommitPlan) → CommitPlan.to_dict r ≡ rebuild_plan (CommitPlan.signing_dict r) r.signature
unfolding CommitPlan.to_dict CommitPlan.signing_dict rebuild_plan append_fields
to_dict-rebuild_plan r = refl

to_dict-rebuild_transaction :
    (r : Transaction)
    → Transaction.to_dict r ≡ rebuild_transaction (Transaction.signing_dict r) r.signature
unfolding Transaction.to_dict Transaction.signing_dict rebuild_transaction append_fields
to_dict-rebuild_transaction r = refl

same_plan_dict :
    (r s : CommitPlan)
    → CommitPlan.signing_dict r ≡ CommitPlan.signing_dict s
    → r.signature ≡ s.signature
    → CommitPlan.to_dict r ≡ CommitPlan.to_dict s
same_plan_dict r s h k = rw (to_dict-rebuild_plan r, h, k) (sym (to_dict-rebuild_plan s))

-- The signature of a plan covers every field but itself: two plans with one payload and one
-- signature are the same plan, its changes, its decision and its state included.
pub plan_signing_injective :
    (r s : CommitPlan)
    → CommitPlan.signing_dict r ≡ CommitPlan.signing_dict s
    → r.signature ≡ s.signature
    → r ≡ s
plan_signing_injective r s h k = ok-injective (
    sym (plan_round_trip idle r)
    ∙ (ap (CommitPlan.from_dict idle) (same_plan_dict r s h k) ∙ plan_round_trip idle s))

same_transaction_dict :
    (r s : Transaction)
    → Transaction.signing_dict r ≡ Transaction.signing_dict s
    → r.signature ≡ s.signature
    → Transaction.to_dict r ≡ Transaction.to_dict s
same_transaction_dict r s h k =
    rw (to_dict-rebuild_transaction r, h, k) (sym (to_dict-rebuild_transaction s))

-- The signature of a transaction covers every field but itself.
pub transaction_signing_injective :
    (r s : Transaction)
    → Transaction.signing_dict r ≡ Transaction.signing_dict s
    → r.signature ≡ s.signature
    → r ≡ s
transaction_signing_injective r s h k = ok-injective (
    sym (transaction_round_trip idle r)
    ∙ (ap (Transaction.from_dict idle) (same_transaction_dict r s h k)
        ∙ transaction_round_trip idle s))
