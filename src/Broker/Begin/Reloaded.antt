-- ===== src/Broker/Begin/Reloaded.antt =====
-- A transaction that has been begun is loaded again.
use agent_workspace_guard.Base.{
  ◌≡◌, refl, sym, ap, ◌∙◌, subst, inr, ℕ, true, false, not, some, List, [], ◌∷◌, ◌++◌, Text, codes,
  ◌==◌, eq_refl, list_eq, nat_eq, ℤ, pos, ltb_ℤ, Result, ok, err, ok-injective, integrity_error,
  refuse,
}
use agent_workspace_guard.Base.Errors
use agent_workspace_guard.Paths.{FilePath, parse, render, join_path, is_absolute}
use agent_workspace_guard.Paths.Names.{IsName}
use agent_workspace_guard.Paths.Safe.Printed.{IsPath, parse-render, is_absolute_name}
use agent_workspace_guard.Paths.Safe.Joined.{IsSafeName}
use agent_workspace_guard.Json.Values.{Json}
use agent_workspace_guard.Json.Convert.{Builtins}
use agent_workspace_guard.Models.TreeManifest.{TreeManifest}
use agent_workspace_guard.Models.Transaction
use agent_workspace_guard.Models.Transaction.{Transaction, transaction_round_trip}
use agent_workspace_guard.Validate.{validate_object_id, validate_text_field, validate_sha256}
use agent_workspace_guard.Validate.Identifiers.{validate_object_id-IsSafeName}
use agent_workspace_guard.Validate.Fields.{validate_text_field_idem}
use agent_workspace_guard.Signer.{is_ascii, sign, verify, verify-sign}
use agent_workspace_guard.FileSystem.{World, Files}
use agent_workspace_guard.Broker.StatePaths.{state_path, transaction_path}
use agent_workspace_guard.Broker.Records.{
  max_task_id_length, check_transaction_paths, validate_transaction_record,
}
use agent_workspace_guard.Broker.Load.{transaction_payload, load_transaction}
use agent_workspace_guard.Broker.Apply.Prepared.{IsPath-append}
use agent_workspace_guard.Broker.Begin.{
  Written, Beginning, root_of, below_root, unsigned_transaction, signed_transaction, begin,
}
use agent_workspace_guard.Broker.Begin.Begun.{begin-IsBegun}

parse_name : (name : Text) → IsName name → parse name ≡ name ∷ []
unfolding render
parse_name name h =
    subst (λ text. parse text ≡ name ∷ []) printed (parse-render (name ∷ []) (inr (inr h), tt))
  where
    printed : render (name ∷ []) ≡ name
    printed = rw (is_absolute_name name [] h)

join_path-IsPath :
    (root : FilePath) (name : Text)
    → IsPath root
    → IsSafeName name
    → IsPath (join_path root (parse name))
unfolding join_path
join_path-IsPath root name h k = subst IsPath (sym same) (IsPath-append root (name ∷ []) h (k, tt))
  where
    same : join_path root (parse name) ≡ root ++ (name ∷ [])
    same = rw (parse_name name (k.0, k.1, k.3), is_absolute_name name [] (k.0, k.1, k.3))

same_path : (path : FilePath) → IsPath path → (parse (render path) == path) ≡ true
same_path path h = ap (λ p. p == path) (parse-render path h) ∙ eq_refl path

module _ (state_root : FilePath) (transaction_id : Text) where
  root_of-IsPath :
      IsPath state_root → IsSafeName transaction_id → IsPath (root_of state_root transaction_id)
  unfolding state_path
  root_of-IsPath h k =
      join_path-IsPath (join_path state_root (parse (codes "transactions"))) transaction_id
        (join_path-IsPath state_root (codes "transactions") h (λ e. cc, λ e. cc, λ e. cc, refl)) k

  check_paths-unsigned_transaction :
      (task_id : Text) (workspace : FilePath) (digest : Text) (created_at device : ℤ)
      → IsPath state_root
      → IsSafeName transaction_id
      → check_transaction_paths state_root (
          unsigned_transaction state_root transaction_id task_id workspace digest created_at device)
        ≡ ok tt
  unfolding check_transaction_paths unsigned_transaction
  check_paths-unsigned_transaction task_id workspace digest created_at device h k =
      let r = root_of-IsPath h k in
      rw (
        same_path (root_of state_root transaction_id) r,
        same_path (below_root state_root transaction_id (codes "worktree"))
            (join_path-IsPath _ (codes "worktree") r (λ e. cc, λ e. cc, λ e. cc, refl)),
        same_path (below_root state_root transaction_id (codes "home"))
            (join_path-IsPath _ (codes "home") r (λ e. cc, λ e. cc, λ e. cc, refl)),
        same_path (below_root state_root transaction_id (codes "tmp"))
            (join_path-IsPath _ (codes "tmp") r (λ e. cc, λ e. cc, λ e. cc, refl)),
        same_path (below_root state_root transaction_id (codes "baseline.json"))
            (join_path-IsPath _ (codes "baseline.json") r (λ e. cc, λ e. cc, λ e. cc, refl)),
      )

  validate_transaction_record-unsigned_transaction :
      (task_id : Text) (workspace : FilePath) (digest : Text) (created_at device : ℤ)
      → IsPath state_root
      → validate_object_id transaction_id (codes "tx") ≡ ok transaction_id
      → validate_text_field task_id max_task_id_length ≡ ok task_id
      → IsPath workspace
      → is_absolute workspace ≡ true
      → validate_sha256 digest ≡ ok digest
      → ltb_ℤ created_at (pos 0) ≡ false
      → ltb_ℤ device (pos 0) ≡ false
      → validate_transaction_record state_root (
          unsigned_transaction state_root transaction_id task_id workspace digest created_at device)
        ≡ ok tt
  unfolding validate_transaction_record unsigned_transaction
  validate_transaction_record-unsigned_transaction task_id workspace digest created_at device root
        named task printed absolute hex late device_found =
      rw (
        named,
        task,
        check_paths-unsigned_transaction task_id workspace digest created_at device root
            (validate_object_id-IsSafeName transaction_id (codes "tx") transaction_id named).1,
        parse-render workspace printed,
        absolute,
        late,
        device_found,
        hex,
      )

-- A signed transaction is accepted by the signer, and differs from the unsigned one in its signature.
signed_transaction-verify :
    (hmac : List ℕ → Text) (resolve : FilePath → FilePath) (state_root : FilePath)
    (view : Beginning) (unsigned transaction : Transaction)
    → ((bytes : List ℕ) → is_ascii (hmac bytes) ≡ true)
    → signed_transaction hmac resolve state_root view unsigned ≡ ok transaction
    → (transaction ≡ record unsigned { signature = transaction.signature })
      × (verify hmac (transaction_payload transaction) transaction.signature ≡ ok tt)
unfolding signed_transaction Transaction.signing_dict
signed_transaction-verify hmac resolve state_root view unsigned transaction ascii h =
    follow (sign hmac (transaction_payload unsigned)) refl h
  where
    follow :
        (r : Result Text)
        → sign hmac (transaction_payload unsigned) ≡ r
        → (elim r [ ok signature ↦ ok (record unsigned { signature = signature }) | err e ↦ err e ])
          ≡ ok transaction
        → (transaction ≡ record unsigned { signature = transaction.signature })
          × (verify hmac (transaction_payload transaction) transaction.signature ≡ ok tt)
    follow (ok signature) e k =
        subst
          (λ t.
            (t ≡ record unsigned { signature = t.signature })
            × (verify hmac (transaction_payload t) t.signature ≡ ok tt))
          (ok-injective k) (refl, verify-sign hmac ascii (transaction_payload unsigned) signature e)
    follow (err x) e k = cc

validate_transaction_record-signature :
    (state_root : FilePath) (unsigned : Transaction) (signature : Text)
    → validate_transaction_record state_root unsigned ≡ ok tt
    → validate_transaction_record state_root (record unsigned { signature = signature }) ≡ ok tt
unfolding validate_transaction_record check_transaction_paths
validate_transaction_record-signature state_root unsigned signature h = h

go_on :
    {A B : Type 0} {first : Result A} {a : A} {r : Result B} (rest : A → Result B)
    → first ≡ ok a
    → rest a ≡ r
    → Errors.◌>>=◌ first rest ≡ r
go_on rest e h = ap (λ x. Errors.◌>>=◌ x rest) e ∙ h

load_transaction-stored :
    (py : Builtins) (sha256 hmac : List ℕ → Text) (state_root : FilePath)
    (read_json : FilePath → Result Json) (requested_id : Text) (path : FilePath)
    (transaction : Transaction)
    → validate_object_id requested_id (codes "tx") ≡ ok requested_id
    → transaction_path state_root requested_id ≡ ok path
    → read_json path ≡ ok (Transaction.to_dict transaction)
    → transaction.transaction_id ≡ requested_id
    → verify hmac (transaction_payload transaction) transaction.signature ≡ ok tt
    → validate_transaction_record state_root transaction ≡ ok tt
    → load_transaction py sha256 hmac state_root read_json requested_id ≡ ok transaction
unfolding load_transaction
load_transaction-stored py sha256 hmac state_root read_json requested_id path transaction named
      placed read same verified valid =
    go_on _ named (
      go_on _ placed (
        go_on _ read (
          go_on _ (transaction_round_trip py transaction) (
            go_on _
              (ap (λ b. refuse (not b) integrity_error)
                (ap (λ x. x == requested_id) same ∙ eq_refl requested_id))
              (go_on _ verified (go_on _ valid refl))))))

-- A transaction that `begin` returns, and whose file holds what `begin` has saved there, is loaded as it
-- was returned; for an ASCII signature, roots that can be printed, an absolute workspace, an identifier of
-- the form that `random_id` gives, digests that are SHA-256 in hexadecimal, and a clock and a device that
-- are not negative.
pub load_transaction-begin :
    (py : Builtins) (sha256 hmac : List ℕ → Text) (resolve : FilePath → FilePath)
    (state_root : FilePath) (view : Beginning) (task_id : Text) (read_json : FilePath → Result Json)
    (workspace path : FilePath) (w : World Written) (transaction : Transaction)
    → ((bytes : List ℕ) → is_ascii (hmac bytes) ≡ true)
    → IsPath state_root
    → view.workspace ≡ ok workspace
    → IsPath workspace
    → is_absolute workspace ≡ true
    → validate_object_id view.transaction_id (codes "tx") ≡ ok view.transaction_id
    → ((root : FilePath) (files : Files) (m : TreeManifest)
        → view.scan root files ≡ ok m
        → validate_sha256 m.digest ≡ ok m.digest)
    → ltb_ℤ view.created_at (pos 0) ≡ false
    → ltb_ℤ view.workspace_device (pos 0) ≡ false
    → transaction_path state_root view.transaction_id ≡ ok path
    → (begin hmac resolve state_root view task_id w).0 ≡ ok transaction
    → ((saved : Transaction)
        → (begin hmac resolve state_root view task_id w).1.memory.transaction ≡ some saved
        → read_json path ≡ ok (Transaction.to_dict saved))
    → load_transaction py sha256 hmac state_root read_json view.transaction_id ≡ ok transaction
unfolding unsigned_transaction
load_transaction-begin py sha256 hmac resolve state_root view task_id read_json workspace path w
      transaction ascii root found printed absolute named hex late device placed begun read =
    let b = begin-IsBegun hmac resolve state_root view task_id w transaction begun in
    let same : b.workspace ≡ workspace = ok-injective (sym b.accepted.found ∙ found) in
    let unsigned =
      unsigned_transaction state_root view.transaction_id b.name b.workspace b.baseline.digest
        view.created_at view.workspace_device in
    let (signed, verified) =
      signed_transaction-verify hmac resolve state_root view unsigned transaction ascii b.sealed in
    let valid : validate_transaction_record state_root transaction ≡ ok tt =
      subst (λ t. validate_transaction_record state_root t ≡ ok tt) (sym signed)
        (validate_transaction_record-signature state_root unsigned transaction.signature (
          validate_transaction_record-unsigned_transaction state_root view.transaction_id b.name
            b.workspace b.baseline.digest view.created_at view.workspace_device root named
            (validate_text_field_idem task_id max_task_id_length b.name b.accepted.task).3
            (subst IsPath (sym same) printed) (ap is_absolute same ∙ absolute)
            (hex b.workspace w.files b.baseline b.is_copied.found_before) late device)) in
    load_transaction-stored py sha256 hmac state_root read_json view.transaction_id path transaction
      named placed (read transaction b.saved_transaction) (ap (λ t. t.transaction_id) signed)
      verified valid
