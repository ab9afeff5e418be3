-- ===== src/Policy/Config.antt =====
-- The fields of `GuardPolicy` and its fingerprint.
use agent_workspace_guard.Base.{
  ℕ, Bool, false, List, [], ◌∷◌, map, Text, codes, ℤ, pos, Result, ◌*◌,
}
use agent_workspace_guard.Host.{Floats}
use agent_workspace_guard.Json.Values.{
  Json, boolean, number, float, string, array, object, items_of, fields_of,
}
use agent_workspace_guard.Manifest.{digest_json}

module _ (floats : Floats) where
  pub record GuardPolicy : Type 0 where
    pub auto_add_max_entries : ℤ
    pub auto_add_max_bytes : ℤ
    pub max_total_changes : ℤ
    pub hard_delete_entries : ℤ
    pub hard_delete_fraction : floats.Float
    pub mass_delete_min_baseline_entries : ℤ
    pub allow_mass_delete : Bool
    pub protected_top_level : List Text
    pub sensitive_names : List Text
    pub executable_suffixes : List Text
    pub policy_name : Text
    pub policy_version : ℤ

  -- The default values. `half` is the literal 0.50.
  abbrev pub default_policy : floats.Float → GuardPolicy
  default_policy half = record {
    auto_add_max_entries = pos 200;
    auto_add_max_bytes = pos (20 * 1024 * 1024);
    max_total_changes = pos 20_000;
    hard_delete_entries = pos 5_000;
    hard_delete_fraction = half;
    mass_delete_min_baseline_entries = pos 20;
    allow_mass_delete = false;
    protected_top_level = codes ".git" ∷ codes ".agent-workspace-guard" ∷ [];
    sensitive_names =
        codes ".env"
        ∷ codes ".env.local"
        ∷ codes "credentials"
        ∷ codes "credentials.json"
        ∷ codes "id_rsa"
        ∷ codes "id_ed25519"
        ∷ codes "secrets.json"
        ∷ [];
    executable_suffixes =
        codes ".bat" ∷ codes ".cmd" ∷ codes ".com" ∷ codes ".exe" ∷ codes ".ps1" ∷ codes ".sh" ∷ [];
    policy_name = codes "awg-default";
    policy_version = pos 1;
  }

  abbrev texts : List Text → Json
  texts names = array (items_of (map string names))

  -- `asdict(self)`
  unfoldable pub configuration : GuardPolicy → Json
  configuration p = object (
      fields_of (
        (codes "auto_add_max_entries", number p.auto_add_max_entries)
        ∷ (codes "auto_add_max_bytes", number p.auto_add_max_bytes)
        ∷ (codes "max_total_changes", number p.max_total_changes)
        ∷ (codes "hard_delete_entries", number p.hard_delete_entries)
        ∷ (codes "hard_delete_fraction", float (floats.repr p.hard_delete_fraction))
        ∷ (codes "mass_delete_min_baseline_entries", number p.mass_delete_min_baseline_entries)
        ∷ (codes "allow_mass_delete", boolean p.allow_mass_delete)
        ∷ (codes "protected_top_level", texts p.protected_top_level)
        ∷ (codes "sensitive_names", texts p.sensitive_names)
        ∷ (codes "executable_suffixes", texts p.executable_suffixes)
        ∷ (codes "policy_name", string p.policy_name)
        ∷ (codes "policy_version", number p.policy_version)
        ∷ []))

  unfoldable pub fingerprint : (List ℕ → Text) → GuardPolicy → Result Text
  unfolding configuration digest_json
  fingerprint sha256 p = digest_json sha256 (
      object (
        fields_of (
          (codes "kind", string (codes "guard_policy"))
          ∷ (codes "configuration", configuration p)
          ∷ [])))
