-- ===== src/Broker/Apply/Layout.antt =====
-- The operations that a commit prepares, with the places that the broker's roots give them.
use agent_workspace_guard.Base.{
  ◌≡◌, ◌≢◌, inl, inr, sym, subst, Bool-cases, false, List, [], ◌∷◌, ◌++◌, append_assoc, append-nil,
  map, All, Text, list_eq, nat_eq, starts_with,
}
use agent_workspace_guard.Paths.{FilePath, parse}
use agent_workspace_guard.Paths.Names.{IsRelative}
use agent_workspace_guard.Paths.Safe.Joined.{IsPlain, IsSafeName}
use agent_workspace_guard.FileSystem.Moves.{Separate, starts_with-Separate, Separate-prefix}
use agent_workspace_guard.FileSystem.Near.{Separate-sym}
use agent_workspace_guard.Broker.Apply.Places.{Places, Apart}
use agent_workspace_guard.Broker.Apply.Elsewhere.{starts_with_longer}
use agent_workspace_guard.Broker.Apply.Backwards.{Beside}

-- A path of a change: what `safe_join` accepts below any root.
pub record IsJoinable (path : Text) : Type 0 where
  pub plain : IsPlain path
  pub safe : All IsSafeName (parse path)
  pub some_part : parse path ≢ []

not_below_longer : (a b r s : FilePath) → Separate a b → starts_with (a ++ r) (b ++ s) ≡ false
not_below_longer a b r s h = elim (Bool-cases (starts_with (a ++ r) (b ++ s))) [
  | inl below ↦
      let e = starts_with_longer (a ++ r) b s below in let k = starts_with-Separate a b r h in cc
  | inr c ↦ c
]

Separate-append : (a b r s : FilePath) → Separate a b → Separate (a ++ r) (b ++ s)
Separate-append a b r s h = record {
  not_below = not_below_longer a b r s h;
  not_above = not_below_longer b a s r (Separate-sym a b h);
}

pub IsRelative-append : (a b : FilePath) → IsRelative a → All IsSafeName b → IsRelative (a ++ b)
IsRelative-append [] [] h k = tt
IsRelative-append [] (y ∷ b) h (k, ks) = ((k.0, k.1, k.3), IsRelative-append [] b h ks)
IsRelative-append (x ∷ a) b (h, hs) k = (h, IsRelative-append a b hs k)

-- The roots that a commit works with; `name` is the directory in the quarantine that takes payloads
-- that are moved aside.
module _ (workspace apply_root quarantine_root : FilePath) (name : Text) where
  pub record RootsApart : Type 0 where
    pub w_q : Separate workspace quarantine_root
    pub w_a : Separate workspace apply_root
    pub q_a : Separate quarantine_root apply_root

  abbrev pub aside_root : FilePath
  aside_root = quarantine_root ++ (name ∷ [])

  abbrev pub places_of : Text → Places
  places_of path = record {
    d = workspace ++ parse path;
    b = quarantine_root ++ parse path;
    s = apply_root ++ parse path;
    x = aside_root ++ parse path;
  }

  -- What is asked of the paths of the changes: they can be joined, none lies in another, and none lies
  -- in the directory that takes payloads aside.
  abbrev pub Fits : Text → Type 0
  Fits path = IsJoinable path × Separate (parse path) (name ∷ [])

  abbrev pub FitTogether : List Text → Type 0
  FitTogether [] = Unit
  FitTogether (path ∷ paths) =
      Fits path × All (λ other. Separate (parse path) (parse other)) paths × FitTogether paths

  module _ (roots : RootsApart) where
    from_x :
        (r s : FilePath)
        → Separate workspace quarantine_root
        → Separate (workspace ++ r) (aside_root ++ s)
    from_x r s h =
        subst (λ x. Separate (workspace ++ r) x) (sym (append_assoc quarantine_root (name ∷ []) s))
          (Separate-append workspace quarantine_root r ((name ∷ []) ++ s) h)

    b_from_x :
        (r s : FilePath)
        → Separate r (name ∷ [])
        → Separate (quarantine_root ++ r) (aside_root ++ s)
    b_from_x r s h =
        subst (λ x. Separate (quarantine_root ++ r) x)
          (sym (append_assoc quarantine_root (name ∷ []) s))
          (Separate-prefix quarantine_root r ((name ∷ []) ++ s) (
            subst (λ x. Separate x ((name ∷ []) ++ s)) (append-nil r)
              (Separate-append r (name ∷ []) [] s h)))

    pub apart_places : (path : Text) → Fits path → Apart (places_of path)
    apart_places path h = record {
      d_b = Separate-append workspace quarantine_root (parse path) (parse path) roots.w_q;
      d_s = Separate-append workspace apply_root (parse path) (parse path) roots.w_a;
      d_x = from_x (parse path) (parse path) roots.w_q;
      b_s = Separate-append quarantine_root apply_root (parse path) (parse path) roots.q_a;
      b_x = b_from_x (parse path) (parse path) h.1;
    }

    Beside-places :
        (path other : Text)
        → Fits path
        → Separate (parse path) (parse other)
        → Beside (places_of path) (places_of other)
    Beside-places path other h k =
        let r = parse path in
        let s = parse other in
        record {
          d_d = Separate-prefix workspace r s k;
          d_b = Separate-append workspace quarantine_root r s roots.w_q;
          d_s = Separate-append workspace apply_root r s roots.w_a;
          d_x = from_x r s roots.w_q;
          b_d =
              Separate-append quarantine_root workspace r s
                (Separate-sym workspace quarantine_root roots.w_q);
          b_b = Separate-prefix quarantine_root r s k;
          b_s = Separate-append quarantine_root apply_root r s roots.q_a;
          b_x = b_from_x r s h.1;
          s_d =
              Separate-append apply_root workspace r s
                (Separate-sym workspace apply_root roots.w_a);
        }

    pub All-Beside :
        (path : Text) (others : List Text)
        → Fits path
        → All (λ other. Separate (parse path) (parse other)) others
        → All (Beside (places_of path)) (map places_of others)
    All-Beside path [] h k = tt
    All-Beside path (other ∷ others) h (k, ks) =
        (Beside-places path other h k, All-Beside path others h ks)
