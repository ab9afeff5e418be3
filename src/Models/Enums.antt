-- ===== src/Models/Enums.antt =====
-- The string enumerations of src/agent_workspace_guard/models.py, with their values and the
-- constructors by value, which raise `ValueError` on any other value.
use agent_workspace_guard.Base.{
  ◌≡◌, refl, Text, codes, ◌==◌, Eq, nat_eq, list_eq, if◌then◌else◌, Result, ok, err, builtin,
}
use agent_workspace_guard.Json.Values.{Json, string}

pub data Decision : Type 0 where
  allow require_approval deny : Decision

Decision-discrete : Discrete Decision
Decision-discrete = hlevel

instance unfoldable pub decision_eq : Eq Decision
unfolding Decision-discrete
decision_eq = record { dec = Decision-discrete }

unfoldable pub decision_value : Decision → Text
decision_value Decision.allow = codes "allow"
decision_value Decision.require_approval = codes "require_approval"
decision_value Decision.deny = codes "deny"

unfoldable pub decision_of : Json → Result Decision
unfolding list_eq nat_eq
decision_of (string text) =
    if text == codes "allow"
    then ok Decision.allow
    else if text == codes "require_approval"
    then ok Decision.require_approval
    else if text == codes "deny"
    then ok Decision.deny
    else err builtin
decision_of value = err builtin

pub decision_of-value : (x : Decision) → decision_of (string (decision_value x)) ≡ ok x
unfolding decision_of decision_value
decision_of-value Decision.allow = refl
decision_of-value Decision.require_approval = refl
decision_of-value Decision.deny = refl

pub data TransactionState : Type 0 where
  opened planned committed discarded : TransactionState

TransactionState-discrete : Discrete TransactionState
TransactionState-discrete = hlevel

instance unfoldable pub transaction_state_eq : Eq TransactionState
unfolding TransactionState-discrete
transaction_state_eq = record { dec = TransactionState-discrete }

unfoldable pub transaction_state_value : TransactionState → Text
transaction_state_value TransactionState.opened = codes "open"
transaction_state_value TransactionState.planned = codes "planned"
transaction_state_value TransactionState.committed = codes "committed"
transaction_state_value TransactionState.discarded = codes "discarded"

unfoldable pub transaction_state_of : Json → Result TransactionState
unfolding list_eq nat_eq
transaction_state_of (string text) =
    if text == codes "open"
    then ok TransactionState.opened
    else if text == codes "planned"
    then ok TransactionState.planned
    else if text == codes "committed"
    then ok TransactionState.committed
    else if text == codes "discarded"
    then ok TransactionState.discarded
    else err builtin
transaction_state_of value = err builtin

pub transaction_state_of-value :
    (x : TransactionState) → transaction_state_of (string (transaction_state_value x)) ≡ ok x
unfolding transaction_state_of transaction_state_value
transaction_state_of-value TransactionState.opened = refl
transaction_state_of-value TransactionState.planned = refl
transaction_state_of-value TransactionState.committed = refl
transaction_state_of-value TransactionState.discarded = refl

pub data PlanState : Type 0 where
  pending committed invalidated : PlanState

PlanState-discrete : Discrete PlanState
PlanState-discrete = hlevel

instance unfoldable pub plan_state_eq : Eq PlanState
unfolding PlanState-discrete
plan_state_eq = record { dec = PlanState-discrete }

unfoldable pub plan_state_value : PlanState → Text
plan_state_value PlanState.pending = codes "pending"
plan_state_value PlanState.committed = codes "committed"
plan_state_value PlanState.invalidated = codes "invalidated"

unfoldable pub plan_state_of : Json → Result PlanState
unfolding list_eq nat_eq
plan_state_of (string text) =
    if text == codes "pending"
    then ok PlanState.pending
    else if text == codes "committed"
    then ok PlanState.committed
    else if text == codes "invalidated"
    then ok PlanState.invalidated
    else err builtin
plan_state_of value = err builtin

pub plan_state_of-value : (x : PlanState) → plan_state_of (string (plan_state_value x)) ≡ ok x
unfolding plan_state_of plan_state_value
plan_state_of-value PlanState.pending = refl
plan_state_of-value PlanState.committed = refl
plan_state_of-value PlanState.invalidated = refl

pub data ChangeKind : Type 0 where
  add modify delete type_change : ChangeKind

ChangeKind-discrete : Discrete ChangeKind
ChangeKind-discrete = hlevel

instance unfoldable pub change_kind_eq : Eq ChangeKind
unfolding ChangeKind-discrete
change_kind_eq = record { dec = ChangeKind-discrete }

unfoldable pub change_kind_value : ChangeKind → Text
change_kind_value ChangeKind.add = codes "add"
change_kind_value ChangeKind.modify = codes "modify"
change_kind_value ChangeKind.delete = codes "delete"
change_kind_value ChangeKind.type_change = codes "type_change"

unfoldable pub change_kind_of : Json → Result ChangeKind
unfolding list_eq nat_eq
change_kind_of (string text) =
    if text == codes "add"
    then ok ChangeKind.add
    else if text == codes "modify"
    then ok ChangeKind.modify
    else if text == codes "delete"
    then ok ChangeKind.delete
    else if text == codes "type_change"
    then ok ChangeKind.type_change
    else err builtin
change_kind_of value = err builtin

pub change_kind_of-value : (x : ChangeKind) → change_kind_of (string (change_kind_value x)) ≡ ok x
unfolding change_kind_of change_kind_value
change_kind_of-value ChangeKind.add = refl
change_kind_of-value ChangeKind.modify = refl
change_kind_of-value ChangeKind.delete = refl
change_kind_of-value ChangeKind.type_change = refl

pub data EntryKind : Type 0 where
  file directory symlink special : EntryKind

EntryKind-discrete : Discrete EntryKind
EntryKind-discrete = hlevel

instance unfoldable pub entry_kind_eq : Eq EntryKind
unfolding EntryKind-discrete
entry_kind_eq = record { dec = EntryKind-discrete }

unfoldable pub entry_kind_value : EntryKind → Text
entry_kind_value EntryKind.file = codes "file"
entry_kind_value EntryKind.directory = codes "directory"
entry_kind_value EntryKind.symlink = codes "symlink"
entry_kind_value EntryKind.special = codes "special"

unfoldable pub entry_kind_of : Json → Result EntryKind
unfolding list_eq nat_eq
entry_kind_of (string text) =
    if text == codes "file"
    then ok EntryKind.file
    else if text == codes "directory"
    then ok EntryKind.directory
    else if text == codes "symlink"
    then ok EntryKind.symlink
    else if text == codes "special"
    then ok EntryKind.special
    else err builtin
entry_kind_of value = err builtin

pub entry_kind_of-value : (x : EntryKind) → entry_kind_of (string (entry_kind_value x)) ≡ ok x
unfolding entry_kind_of entry_kind_value
entry_kind_of-value EntryKind.file = refl
entry_kind_of-value EntryKind.directory = refl
entry_kind_of-value EntryKind.symlink = refl
entry_kind_of-value EntryKind.special = refl
