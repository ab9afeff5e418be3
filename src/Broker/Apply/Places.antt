-- ===== src/Broker/Apply/Places.antt =====
-- The places of an operation, and what one operation leaves at each path.
use agent_workspace_guard.Base.{
  ◌≡◌, inl, Bool, true, false, List, [], ◌∷◌, ◌++◌, starts_with, list_eq, nat_eq,
}
use agent_workspace_guard.Paths.{FilePath, parent}
use agent_workspace_guard.Models.CommitOperation.{CommitOperation}
use agent_workspace_guard.FileSystem.{Files, lexists, moved, grown}
use agent_workspace_guard.FileSystem.Moves.{Separate, moved_target}
use agent_workspace_guard.FileSystem.Near.{
  Near, ◌▹◌, Near-grown, Near-moved, Like-Near, lexists-Near, lexists-moved,
}
use agent_workspace_guard.Broker.Apply.Outcomes.{Backed, Installed}
use agent_workspace_guard.Broker.Apply.Back.{relocated}

-- Where an operation's target, backup and payload lie, and where the rollback moves the payload.
pub record Places : Type 0 where
  pub d : FilePath
  pub b : FilePath
  pub s : FilePath
  pub x : FilePath

-- The target lies beside the three others, and so does the backup.
pub record Apart (p : Places) : Type 0 where
  pub d_b : Separate p.d p.b
  pub d_s : Separate p.d p.s
  pub d_x : Separate p.d p.x
  pub b_s : Separate p.b p.s
  pub b_x : Separate p.b p.x

-- A path that lies below none of the places that a commit uses for itself.
pub record Aside (p : Places) (path : FilePath) : Type 0 where
  pub from_b : starts_with path p.b ≡ false
  pub from_s : starts_with path p.s ≡ false
  pub from_x : starts_with path p.x ≡ false

pub relocated_beside :
    (source target path : FilePath) (files : Files)
    → starts_with path source ≡ false
    → starts_with path target ≡ false
    → Near (files path) (relocated source target files path)
relocated_beside source target path files h k =
    Near-grown (parent target) path files
    ▹ Near-moved source target path (grown (parent target) files) h k

pub relocated_below :
    (source target rest : FilePath) (files : Files)
    → Near (files (source ++ rest)) (relocated source target files (target ++ rest))
relocated_below source target rest files =
    Near-grown (parent target) (source ++ rest) files
    ▹ inl (moved_target source target rest (grown (parent target) files))

module _ (files : Files) (operation : CommitOperation) (p : Places) (a : Apart p) where
  abbrev ancestors : List FilePath
  ancestors = parent p.b ∷ parent p.d ∷ []

  abbrev IsBacked : Files → CommitOperation → Type 0
  IsBacked = Backed files operation p.d p.b p.s true

  abbrev IsInstalled : Files → Bool → Files → CommitOperation → Type 0
  IsInstalled m was = Installed files operation p.d p.b p.s m was true

  pub backed_beside :
      (m : Files) (o : CommitOperation) (path : FilePath)
      → IsBacked m o
      → starts_with path p.d ≡ false
      → starts_with path p.b ≡ false
      → Near (files path) (m path)
  backed_beside m o path k h j =
      Like-Near ancestors files k.before k.before_like path
      ▹ Near-moved p.d p.b path k.before h j
      ▹ Like-Near ancestors (moved p.d p.b k.before) m k.like path

  pub backed_below :
      (m : Files) (o : CommitOperation) (rest : FilePath)
      → IsBacked m o
      → Near (files (p.d ++ rest)) (m (p.b ++ rest))
  backed_below m o rest k =
      Like-Near ancestors files k.before k.before_like (p.d ++ rest)
      ▹ inl (moved_target p.d p.b rest k.before)
      ▹ Like-Near ancestors (moved p.d p.b k.before) m k.like (p.b ++ rest)

  pub backed_there : (m : Files) (o : CommitOperation) → IsBacked m o → lexists p.b m ≡ true
  backed_there m o k =
      lexists-Near p.b (moved p.d p.b k.before) m
        (Like-Near ancestors (moved p.d p.b k.before) m k.like p.b)
        (lexists-moved p.d p.b k.before k.there)

  pub installed_beside :
      (m now : Files) (was : Bool) (o : CommitOperation) (path : FilePath)
      → IsInstalled m was now o
      → starts_with path p.d ≡ false
      → starts_with path p.s ≡ false
      → Near (m path) (now path)
  installed_beside m now was o path k h j =
      Like-Near ancestors m k.before k.before_like path
      ▹ Near-moved p.s p.d path k.before j h
      ▹ Like-Near ancestors (moved p.s p.d k.before) now k.like path

  pub installed_there :
      (m now : Files) (was : Bool) (o : CommitOperation)
      → IsInstalled m was now o
      → lexists p.d now ≡ true
  installed_there m now was o k =
      lexists-Near p.d (moved p.s p.d k.before) now
        (Like-Near ancestors (moved p.s p.d k.before) now k.like p.d)
        (lexists-moved p.s p.d k.before k.there)
