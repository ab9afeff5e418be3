-- ===== src/Paths/Safe.antt =====
-- `validate_relative_path` and `safe_join`: what they accept, and where a join lies.
pub mod Printed
pub mod Joined
