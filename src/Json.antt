-- ===== src/Json.antt =====
-- JSON values, `canonical_json` of src/agent_workspace_guard/util.py, and Python's conversions of
-- loaded values.
pub mod Values
pub mod Dump
pub mod Convert
