-- ===== src/Policy/Evaluate/Flags.antt =====
-- What the loop of `evaluate` leaves in its flags, its counts and its findings.
use agent_workspace_guard.Base.{
  ◌≡◌, refl, ap, subst, ok-injective, ◌∙◌, Bool, Bool-cases, inl, inr, true, false, ◌&&◌, ◌||◌,
  Option, none, some, List, [], ◌∷◌, ◌++◌, Text, codes, ◌==◌, nat_eq, list_eq, contains, any, arith,
  ok, >>=-eq-ok,
}
use agent_workspace_guard.Paths.{FilePath, parse}
use agent_workspace_guard.Host.{CaseTables, Floats}
use agent_workspace_guard.Models.Enums.{special, entry_kind_eq}
use agent_workspace_guard.Models.Change.{Change}
use agent_workspace_guard.Models.Finding.{Finding}
use agent_workspace_guard.Policy.Config.{GuardPolicy}
use agent_workspace_guard.Policy.Tally.{
  Tally, has_kind, or_before, is_destructive_kind, count_change, add_bytes, note_destructive,
  note_special, add_symlink_finding, protected_names, is_protected_top, note_protected,
  is_new_symlink, symlink_reason, note_symlink, is_new_executable, note_executable, is_sensitive,
  note_sensitive, tally_change, tally_changes,
}

abbrev is_error : Finding → Bool
is_error f = f.severity == codes "error"

-- Some finding has the severity "error".
abbrev pub has_error : List Finding → Bool
has_error = any is_error

has_error-append :
    (fs : List Finding) (f : Finding) → has_error (fs ++ (f ∷ [])) ≡ (has_error fs || is_error f)
has_error-append [] f = ground arith
has_error-append (g ∷ fs) f = ground (arith, has_error-append fs f)

pub error_added :
    (fs : List Finding) (f : Finding) → is_error f ≡ true → has_error (fs ++ (f ∷ [])) ≡ true
error_added fs f h = ground (arith, has_error-append fs f)

pub warning_added :
    (fs : List Finding) (f : Finding)
    → is_error f ≡ false
    → has_error (fs ++ (f ∷ [])) ≡ has_error fs
warning_added fs f h = ground (arith, has_error-append fs f)

-- A plan is denied with an error among its findings, and only then.
abbrev pub IsExplained : Tally → Type 0
IsExplained t = has_error t.findings ≡ t.hard_deny

abbrev pub is_special_change : Change → Bool
is_special_change change = has_kind special (or_before change.after change.before)

abbrev is_some_text : Option Text → Bool
is_some_text none = false
is_some_text (some text) = true

-- What a stage of the loop does to the two flags.
pub record Pass (hard risky : Bool) (s t : Tally) : Type 0 where
  pub hard_flag : t.hard_deny ≡ (s.hard_deny || hard)
  pub risky_flag : t.destructive ≡ (s.destructive || risky)
  pub explained : IsExplained s → IsExplained t

pub join-Pass :
    (h r h' r' : Bool) {s t u : Tally}
    → Pass h r s t
    → Pass h' r' t u
    → Pass (h || h') (r || r') s u
join-Pass h r h' r' p q = record {
  hard_flag = ground (arith, p.hard_flag, q.hard_flag);
  risky_flag = ground (arith, p.risky_flag, q.risky_flag);
  explained = λ e. q.explained (p.explained e);
}

pub same-Pass : (h r h' r' : Bool) {s t : Tally} → h ≡ h' → r ≡ r' → Pass h r s t → Pass h' r' s t
same-Pass h r h' r' e f p = record {
  hard_flag = rw (← e) p.hard_flag;
  risky_flag = rw (← f) p.risky_flag;
  explained = p.explained;
}

Pass-count : (c : Change) (t : Tally) → Pass false false t (count_change c t)
unfolding count_change
Pass-count c t = record { hard_flag = ground arith; risky_flag = ground arith; explained = λ e. e }

Pass-bytes : (c : Change) (t : Tally) → Pass false false t (add_bytes c t)
unfolding add_bytes
Pass-bytes c t = record { hard_flag = ground arith; risky_flag = ground arith; explained = λ e. e }

Pass-destructive :
    (c : Change) (t : Tally) → Pass false (is_destructive_kind c.kind) t (note_destructive c t)
unfolding note_destructive
Pass-destructive c t = record {
  hard_flag = ground arith;
  risky_flag = ground arith;
  explained = λ e. e;
}

Pass-special : (c : Change) (t : Tally) → Pass (is_special_change c) false t (note_special c t)
unfolding note_special list_eq nat_eq
Pass-special c t = record {
  hard_flag = ground arith;
  risky_flag = ground arith;
  explained = λ e. elim (Bool-cases (is_special_change c)) [
    | inl k ↦ rw k (error_added t.findings _ refl)
    | inr k ↦ rw k e
  ];
}

Pass-symlink_finding :
    (c : Change) (reason : Option Text) (t : Tally)
    → Pass (is_some_text reason) true t (add_symlink_finding c reason t)
unfolding add_symlink_finding list_eq nat_eq
Pass-symlink_finding c none t = record {
  hard_flag = ground arith;
  risky_flag = ground arith;
  explained = λ e. warning_added t.findings _ refl ∙ e;
}
Pass-symlink_finding c (some reason) t = record {
  hard_flag = ground arith;
  risky_flag = ground arith;
  explained = λ e. error_added t.findings _ refl;
}

Pass-nothing : (t : Tally) → Pass false false t t
Pass-nothing t = record { hard_flag = ground arith; risky_flag = ground arith; explained = λ e. e }

module _ (cases : CaseTables) (floats : Floats) (policy : GuardPolicy floats) where
  -- The first part of the path, in any case, is a protected name.
  abbrev pub touches_protected : FilePath → Bool
  touches_protected [] = false
  touches_protected (top ∷ parts) =
      contains (protected_names cases floats policy) (cases.casefold top)

  -- The change adds or changes a symlink that leaves the workspace or enters a protected directory.
  abbrev pub is_unsafe_symlink : Change → Bool
  is_unsafe_symlink change =
      is_new_symlink cases floats policy change
      && is_some_text (symlink_reason cases floats policy change)

  -- A change that no review can allow.
  abbrev pub is_hard : Change → Bool
  is_hard change =
      touches_protected (parse change.path) || is_special_change change || is_unsafe_symlink change

  -- A change that a review must allow.
  abbrev pub is_risky : Change → Bool
  is_risky change =
      is_destructive_kind change.kind
      || is_new_symlink cases floats policy change
      || is_new_executable cases floats policy change
      || is_sensitive cases floats policy change

  Pass-protected :
      (c : Change) (b : Bool) (t : Tally)
      → Pass b false t (note_protected cases floats policy c b t)
  unfolding note_protected list_eq nat_eq
  Pass-protected c true t = record {
    hard_flag = ground arith;
    risky_flag = ground arith;
    explained = λ e. error_added t.findings _ refl;
  }
  Pass-protected c false t = Pass-nothing t

  Pass-symlink :
      (c : Change) (t : Tally)
      → Pass
          (is_unsafe_symlink c)
          (is_new_symlink cases floats policy c)
          t
          (note_symlink cases floats policy c t)
  unfolding note_symlink
  Pass-symlink c t = elim (Bool-cases (is_new_symlink cases floats policy c)) [
    | inl k ↦ rw k (Pass-symlink_finding c (symlink_reason cases floats policy c) t)
    | inr k ↦ rw k (Pass-nothing t)
  ]

  Pass-executable :
      (c : Change) (t : Tally)
      → Pass false
          (is_new_executable cases floats policy c)
          t
          (note_executable cases floats policy c t)
  unfolding note_executable list_eq nat_eq
  Pass-executable c t = elim (Bool-cases (is_new_executable cases floats policy c)) [
    | inl k ↦ rw k (record {
      hard_flag = ground arith;
      risky_flag = ground arith;
      explained = λ e. warning_added t.findings _ refl ∙ e;
    })
    | inr k ↦ rw k (Pass-nothing t)
  ]

  Pass-sensitive :
      (c : Change) (t : Tally)
      → Pass false (is_sensitive cases floats policy c) t (note_sensitive cases floats policy c t)
  unfolding note_sensitive list_eq nat_eq
  Pass-sensitive c t = elim (Bool-cases (is_sensitive cases floats policy c)) [
    | inl k ↦ rw k (record {
      hard_flag = ground arith;
      risky_flag = ground arith;
      explained = λ e. warning_added t.findings _ refl ∙ e;
    })
    | inr k ↦ rw k (Pass-nothing t)
  ]

  protected_top :
      (path : FilePath) (b : Bool)
      → is_protected_top cases floats policy path ≡ ok b
      → b ≡ touches_protected path
  unfolding is_protected_top
  protected_top [] b h = cc
  protected_top (top ∷ parts) b h = ground arith

  -- The stages of one pass, in their order.
  Pass-stages :
      (c : Change) (b : Bool) (t : Tally)
      → Pass (b || is_special_change c || is_unsafe_symlink c) (is_risky c) t (
          note_sensitive cases floats policy c (
            note_executable cases floats policy c (
              note_symlink cases floats policy c (
                note_special c (
                  note_destructive c
                    (add_bytes c (note_protected cases floats policy c b (count_change c t))))))))
  Pass-stages c b t =
      let counted = join-Pass _ _ _ _ (Pass-count c t) (Pass-protected c b _) in
      let sized =
        join-Pass _ _ _ _ (Pass-bytes c _)
          (join-Pass _ _ _ _ (Pass-destructive c _) (Pass-special c _)) in
      let noted =
        join-Pass _ _ _ _ (Pass-symlink c _)
          (join-Pass _ _ _ _ (Pass-executable c _) (Pass-sensitive c _)) in
      same-Pass _ _ _ _ (ground arith) (ground arith)
        (join-Pass _ _ _ _ counted (join-Pass _ _ _ _ sized noted))

  -- One pass of the loop.
  Pass-change :
      (c : Change) (t u : Tally)
      → tally_change cases floats policy c t ≡ ok u
      → Pass (is_hard c) (is_risky c) t u
  unfolding tally_change
  Pass-change c t u h =
      let (b, top, rest) = >>=-eq-ok (is_protected_top cases floats policy (parse c.path)) _ h in
      subst (λ v. Pass (is_hard c) (is_risky c) t v) (ok-injective rest)
        (same-Pass _ _ _ _
          (ap (λ x. x || is_special_change c || is_unsafe_symlink c)
            (protected_top (parse c.path) b top))
          refl (Pass-stages c b t))

  -- The loop raises its flags for the changes that call for it, and explains each denial.
  pub Pass-changes :
      (changes : List Change) (t u : Tally)
      → tally_changes cases floats policy changes t ≡ ok u
      → Pass (any is_hard changes) (any is_risky changes) t u
  unfolding tally_changes
  Pass-changes [] t u h = subst (λ v. Pass false false t v) (ok-injective h) (Pass-nothing t)
  Pass-changes (c ∷ changes) t u h =
      let (v, first, rest) = >>=-eq-ok (tally_change cases floats policy c t) _ h in
      join-Pass _ _ _ _ (Pass-change c t v first) (Pass-changes changes v u rest)
