-- ===== src/Tests/OnBegins.antt =====
-- A transaction that is begun on an empty workspace.
use agent_workspace_guard.Base.{
  if◌then◌else◌, ◌==◌, ◌≡◌, refl, sym, ap, ◌∙◌, subst, inl, ok-injective, [], ◌∷◌, Text, codes, ok,
  err, some, none, pos, Result, list_eq, nat_eq, int_eq,
}
use agent_workspace_guard.Paths.{FilePath, render, join_path}
use agent_workspace_guard.Paths.Names.{IsName}
use agent_workspace_guard.Paths.Safe.Printed.{IsPath}
use agent_workspace_guard.Json.Values.{Json}
use agent_workspace_guard.Broker.StatePaths.{state_path, transaction_path}
use agent_workspace_guard.Broker.Load.{load_transaction}
use agent_workspace_guard.Broker.Begin.Reloaded.{load_transaction-begin}
use agent_workspace_guard.Json.Dump.{canonical_json}
use agent_workspace_guard.Models.TreeManifest.{TreeManifest}
use agent_workspace_guard.Models.Transaction
use agent_workspace_guard.Models.Transaction.{Transaction}
use agent_workspace_guard.Models.Enums.{transaction_state_value}
use agent_workspace_guard.Validate.{validate_text_field, validate_object_id, validate_sha256}
use agent_workspace_guard.FileSystem.{private_directory, World, Files}
use agent_workspace_guard.Broker.Begin.{Written, Beginning, begin}
use agent_workspace_guard.Broker.Begin.Begun.{IsBegun, begin-IsBegun}
use agent_workspace_guard.Tests.Hosts.{checksum, builtins}
use agent_workspace_guard.Tests.Samples.{here}
use agent_workspace_guard.Tests.OnRecords
use agent_workspace_guard.Tests.OnLogs.{checksum_ascii}
use agent_workspace_guard.Tests.OnResults.{before}

abbrev state_root : FilePath
state_root = codes "/" ∷ codes "s" ∷ []

abbrev view : Beginning
view = record {
  workspace = ok (codes "/" ∷ codes "w" ∷ []);
  home = codes "/" ∷ codes "home" ∷ codes "ann" ∷ [];
  workspace_device = pos 7;
  state_device = pos 7;
  created_at = pos 100;
  transaction_id = codes "tx_0123456789abcdef0";
  scan = λ root files. ok before;
  copied = λ files. files;
}

abbrev world : World Written
world = record {
  files = λ path.
      if path == codes "/" ∷ codes "s" ∷ codes "transactions" ∷ []
      then some private_directory
      else none;
  faults = [];
  memory = record { baseline = none; transaction = none; receipt = none };
}

abbrev or_sample : Result Transaction → Transaction
or_sample (ok transaction) = transaction
or_sample (err e) = OnRecords.transaction

abbrev transaction : Transaction
transaction = or_sample (begin checksum here state_root view (codes " tidy up ") world).0

begins : (begin checksum here state_root view (codes " tidy up ") world).0 ≡ ok transaction
unfolding begin validate_text_field canonical_json Transaction.signing_dict render
    transaction_state_value
begins = refl

begin-IsBegun_example :
    IsBegun checksum here state_root view
      (codes " tidy up ")
      world.files
      transaction
      (begin checksum here state_root view (codes " tidy up ") world).1
begin-IsBegun_example =
    begin-IsBegun checksum here state_root view (codes " tidy up ") world transaction begins

abbrev store : FilePath → Result Json
store path = ok (Transaction.to_dict transaction)

abbrev transaction_file : FilePath
transaction_file =
    codes "/"
    ∷ codes "s"
    ∷ codes "transactions"
    ∷ codes "tx_0123456789abcdef0"
    ∷ codes "transaction.json"
    ∷ []

root-IsPath : (name : Text) → IsName name → IsPath (codes "/" ∷ name ∷ [])
unfolding nat_eq
root-IsPath name h = (inl refl, (h, tt))

scanned_hex :
    (root : FilePath) (files : Files) (m : TreeManifest)
    → view.scan root files ≡ ok m
    → validate_sha256 m.digest ≡ ok m.digest
unfolding validate_sha256
scanned_hex root files m e =
    subst (λ x. validate_sha256 x.digest ≡ ok x.digest) (ok-injective e) refl

saved :
    (t : Transaction)
    → (begin checksum here state_root view (codes " tidy up ") world).1.memory.transaction ≡ some t
    → store transaction_file ≡ ok (Transaction.to_dict t)
saved t e =
    ap
      (λ stored. elim stored [
        | none ↦ store transaction_file
        | some x ↦ ok (Transaction.to_dict x)
      ])
      (sym
          (begin-IsBegun checksum here state_root view (codes " tidy up ") world transaction
            begins).saved_transaction
        ∙ e)

load_transaction-begin_example :
    load_transaction builtins checksum checksum state_root store (codes "tx_0123456789abcdef0")
    ≡ ok transaction
unfolding validate_object_id transaction_path state_path join_path
load_transaction-begin_example =
    load_transaction-begin builtins checksum checksum here state_root view (codes " tidy up ") store
      (codes "/" ∷ codes "w" ∷ []) transaction_file world transaction checksum_ascii
      (root-IsPath (codes "s") (λ e. cc, λ e. cc, refl)) refl
      (root-IsPath (codes "w") (λ e. cc, λ e. cc, refl)) refl refl scanned_hex refl refl refl begins
      saved
