-- ===== src/Broker/Apply/Ends.antt =====
-- Rules for what holds when a part of an operation ends.
use agent_workspace_guard.Base.{
  ◌≡◌, inl, inr, Bool, Bool-cases, true, false, Result, ok, err, Error, list_eq, nat_eq,
}
use agent_workspace_guard.Paths.{FilePath}
use agent_workspace_guard.Models.CommitOperation.{CommitOperation}
use agent_workspace_guard.FileSystem.{
  Files, lexists, World, continue, call_with, call, other_call, moved, rename,
}
use agent_workspace_guard.Broker.Apply.{Move, require}

-- What holds at the end: `P` if it returns, `E` if it raises.
abbrev pub Ends :
    {A : Type 0}
    → (A → World CommitOperation → Type 0)
    → (World CommitOperation → Type 0)
    → Result A × World CommitOperation
    → Type 0
Ends P E (ok a, w) = P a w
Ends P E (err e, w) = E w

-- What a rule needs to know of a world: its files and its operation.
abbrev pub Holds : Type 1
Holds = Files → CommitOperation → Type 0

abbrev pub After : Holds → Unit {0} → World CommitOperation → Type 0
After P u w = P w.files w.memory

abbrev pub Raised : Holds → World CommitOperation → Type 0
Raised P w = P w.files w.memory

-- One statement, and what follows it.
pub Ends-continue :
    (P Q E : Holds) (r : Result (Unit {0}) × World CommitOperation) (rest : Move (Unit {0}))
    → Ends (After P) (Raised E) r
    → ((w : World CommitOperation) → P w.files w.memory → Ends (After Q) (Raised E) (rest w))
    → Ends (After Q) (Raised E) (continue r (λ _. rest))
Ends-continue P Q E (ok u, w) rest h k = k w h
Ends-continue P Q E (err e, w) rest h k = h

Ends-call_with :
    (P E : Holds) (fault : Bool) (effect : Files → Files) (w : World CommitOperation)
    → P (effect w.files) w.memory
    → E w.files w.memory
    → Ends (After P) (Raised E) (call_with fault effect w)
Ends-call_with P E true effect w p e = e
Ends-call_with P E false effect w p e = p

pub Ends-call :
    (P E : Holds) (effect : Files → Files) (w : World CommitOperation)
    → P (effect w.files) w.memory
    → E w.files w.memory
    → Ends (After P) (Raised E) (call effect w)
unfolding call
Ends-call P E effect w p e = Ends-call_with P E _ effect _ p e

pub Ends-rename :
    (P E : Holds) (source target : FilePath) (w : World CommitOperation)
    → (lexists source w.files ≡ true → P (moved source target w.files) w.memory)
    → E w.files w.memory
    → Ends (After P) (Raised E) (rename source target w)
unfolding rename
Ends-rename P E source target w p e = elim (Bool-cases (lexists source w.files)) [
  | inl there ↦ rw there (Ends-call P E (moved source target) w (p there) e)
  | inr gone ↦ rw gone e
]

-- What an operation keeps of itself.
pub record SameTask (old new : CommitOperation) : Type 0 where
  pub path : new.path ≡ old.path
  pub backup_path : new.backup_path ≡ old.backup_path

pub Ends-require :
    (P E : Holds) (path : FilePath) (error : Error) (w : World CommitOperation)
    → P w.files w.memory
    → E w.files w.memory
    → Ends (After P) (Raised E) (require path error w)
Ends-require P E path error w p e = elim (Bool-cases (lexists path w.files)) [
  | inl there ↦ rw there p
  | inr gone ↦ rw gone e
]

-- Calls that write elsewhere.
pub Ends-other :
    (P Q E : Holds) (w : World CommitOperation) (rest : Move (Unit {0}))
    → P w.files w.memory
    → E w.files w.memory
    → ((w : World CommitOperation) → P w.files w.memory → Ends (After Q) (Raised E) (rest w))
    → Ends (After Q) (Raised E) (continue (other_call w) (λ _. rest))
Ends-other P Q E w rest p e k = Ends-continue P Q E _ _ (Ends-call P E (λ f. f) w p e) k

-- What is known at the end can be weakened.
pub weaken :
    (P Q E F : Holds) (r : Result (Unit {0}) × World CommitOperation)
    → ((now : Files) (op : CommitOperation) → P now op → Q now op)
    → ((now : Files) (op : CommitOperation) → E now op → F now op)
    → Ends (After P) (Raised E) r
    → Ends (After Q) (Raised F) r
weaken P Q E F (ok u, w) p e h = p w.files w.memory h
weaken P Q E F (err x, w) p e h = e w.files w.memory h
