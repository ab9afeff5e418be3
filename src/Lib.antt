-- ===== src/Lib.antt =====
-- Agent Workspace Guard: a broker between a coding agent and a workspace. The agent works on a copy;
-- the broker compares the copy with the workspace, judges the changes by a policy, and applies an
-- approved plan with backups in quarantine. Its state is signed and its actions are logged.
--
-- The parts, and where they are modelled:
--   src/agent_workspace_guard/errors.py       Base/Errors: exceptions as results
--   src/agent_workspace_guard/models.py       Models: one module to a class, with its conversions
--   src/agent_workspace_guard/util.py         Paths, Validate, Json/Dump (canonical_json)
--   src/agent_workspace_guard/manifest.py     Manifest: diff and roots, Manifest/Verify, Manifest/Scan
--   src/agent_workspace_guard/policy.py       Policy: Config (fields), Tally (the loop of evaluate),
--                                             Evaluate (limits and decision), Symlink
--   src/agent_workspace_guard/crypto.py       Signer: sign and verify under a loaded key
--   src/agent_workspace_guard/audit.py        Audit: the log as a list of lines
--   src/agent_workspace_guard/broker.py       Broker: StatePaths, Records, Load, Begin (begin, environment,
--                                             discard), Approval, Plan, Commit
--                                             (its checks), Prepare (its operations), Apply (its
--                                             loop), Rollback (_rollback_failed_commit), Lock, Held
--                                             and Perform (commit as a whole), Restore
--   src/agent_workspace_guard/shell_gate.py   ShellGate: Patterns (the regular expressions), inspection
-- Functions keep their names, without the leading underscore. A method takes the fields of its object
-- that it uses as arguments. Base holds what the modules share, Host what the program takes from its
-- host, Tests the theorems at concrete inputs.
--
-- A text is the list of its code points, an int is an integer without bounds, a dict is a list of
-- keys and values in insertion order, and a path is the tuple of its parts, as pathlib gives it on a
-- POSIX host. An operation that raises returns an error; messages of exceptions are left out. Every
-- loop is recursion on a list or on a tree, so no fuel is needed.
--
-- FileSystem is what the broker's loops see of the disk: the files are a function from paths to what lies
-- there; a rename moves a tree, mkdir with its ancestors adds what is missing, and make_directory (mkdir
-- with mode 0o700) raises where something lies at the path. Each call takes the next fault of a schedule, and a call that raises has no effect, so a theorem for every schedule speaks of
-- every place where a commit can stop. Saving a record and fsync write elsewhere and may only raise; of
-- what commit and restore save, Held keeps the states. A crash of the process between two calls is not
-- modelled.
--
-- Parameters: re.search, the copy of a payload to the apply root, sha256 and hmac, the Unicode case
-- tables, the floats of the deletion fraction, Path.resolve, the conversions of values that
-- well-formed state never holds (Builtins), and fsencode, the encoding of a link target. A directory
-- that is scanned is data: what the host says of each entry below it, or that it says nothing.
--
-- What the broker reads from files, the clock, its scans and its random identifiers are arguments, and
-- the files that plan and approve write are part of their results. The events that they log are not; in
-- begin, commit and restore an event is a call that may raise.
--
-- Not modelled: the constructor of the broker, the values of events, creation of the key, the command
-- line, and the release scripts.
pub mod Base
pub mod Paths
pub mod Json
pub mod Models
pub mod Validate
pub mod Manifest
pub mod Host
pub mod Policy
pub mod Signer
pub mod Audit
pub mod FileSystem
pub mod Broker
pub mod ShellGate
pub mod Tests
