-- ===== src/Policy/Evaluate/Counts.antt =====
-- The counts that the loop of `evaluate` keeps.
use agent_workspace_guard.Base.{
  ◌≡◌, refl, sym, ap, ok-injective, ◌∙◌, ℕ, ◌+◌, Bool, Bool-cases, inl, inr, true, false, ◌==◌,
  Option, none, some, List, [], ◌∷◌, length, arith, if◌then◌else◌, Text, ℤ, pos, ◌+ℤ◌, +ℤ_assoc,
  add_zero_ℤ, zero_add_ℤ, ◌&&◌, ok, >>=-eq-ok,
}
use agent_workspace_guard.Paths.{parse}
use agent_workspace_guard.Host.{CaseTables, Floats}
use agent_workspace_guard.Models.Enums.{
  file, entry_kind_eq, ChangeKind, add, modify, delete, type_change, change_kind_eq,
}
use agent_workspace_guard.Models.Change.{Change}
use agent_workspace_guard.Policy.Config.{GuardPolicy}
use agent_workspace_guard.Policy.Tally.{
  Tally, has_kind, size_of, increment, count_change, add_bytes, note_destructive, note_special,
  add_symlink_finding, is_protected_top, note_protected, is_new_symlink, symlink_reason,
  note_symlink, is_new_executable, note_executable, is_sensitive, note_sensitive, tally_change,
  tally_changes,
}

-- The number of changes of one kind.
abbrev pub count_kind : ChangeKind → List Change → ℕ
count_kind kind [] = 0
count_kind kind (change ∷ changes) =
    (if change.kind == kind then 1 else 0) + count_kind kind changes

-- The bytes of the files that the changes add.
abbrev pub sum_added_bytes : List Change → ℤ
sum_added_bytes [] = pos 0
sum_added_bytes (change ∷ changes) =
    (if change.kind == add && has_kind file change.after then size_of change.after else pos 0)
    +ℤ sum_added_bytes changes

-- A stage that leaves the counts and the added bytes alone.
record SameTotals (s t : Tally) : Type 0 where
  counts : t.counts ≡ s.counts
  bytes : t.added_bytes ≡ s.added_bytes

same_totals : (t : Tally) → SameTotals t t
same_totals t = record { counts = refl; bytes = refl }

join_totals : {s t u : Tally} → SameTotals s t → SameTotals t u → SameTotals s u
join_totals p q = record { counts = q.counts ∙ p.counts; bytes = q.bytes ∙ p.bytes }

totals_note_destructive : (c : Change) (t : Tally) → SameTotals t (note_destructive c t)
unfolding note_destructive
totals_note_destructive c t = record { counts = refl; bytes = refl }

totals_note_special : (c : Change) (t : Tally) → SameTotals t (note_special c t)
unfolding note_special
totals_note_special c t = record { counts = ground arith; bytes = ground arith }

totals_add_symlink_finding :
    (c : Change) (reason : Option Text) (t : Tally) → SameTotals t (add_symlink_finding c reason t)
unfolding add_symlink_finding
totals_add_symlink_finding c none t = record { counts = refl; bytes = refl }
totals_add_symlink_finding c (some reason) t = record { counts = refl; bytes = refl }

module _ (cases : CaseTables) (floats : Floats) (policy : GuardPolicy floats) where
  totals_note_protected :
      (c : Change) (b : Bool) (t : Tally) → SameTotals t (note_protected cases floats policy c b t)
  unfolding note_protected
  totals_note_protected c true t = record { counts = refl; bytes = refl }
  totals_note_protected c false t = same_totals t

  totals_note_symlink :
      (c : Change) (t : Tally) → SameTotals t (note_symlink cases floats policy c t)
  unfolding note_symlink
  totals_note_symlink c t = elim (Bool-cases (is_new_symlink cases floats policy c)) [
    | inl k ↦ rw k (totals_add_symlink_finding c (symlink_reason cases floats policy c) t)
    | inr k ↦ rw k (same_totals t)
  ]

  totals_note_executable :
      (c : Change) (t : Tally) → SameTotals t (note_executable cases floats policy c t)
  unfolding note_executable
  totals_note_executable c t = elim (Bool-cases (is_new_executable cases floats policy c)) [
    | inl k ↦ rw k (record { counts = refl; bytes = refl })
    | inr k ↦ rw k (same_totals t)
  ]

  totals_note_sensitive :
      (c : Change) (t : Tally) → SameTotals t (note_sensitive cases floats policy c t)
  unfolding note_sensitive
  totals_note_sensitive c t = elim (Bool-cases (is_sensitive cases floats policy c)) [
    | inl k ↦ rw k (record { counts = refl; bytes = refl })
    | inr k ↦ rw k (same_totals t)
  ]

  totals_late_stages :
      (c : Change) (t : Tally)
      → SameTotals t (
          note_sensitive cases floats policy c (
            note_executable cases floats policy c
              (note_symlink cases floats policy c (note_special c (note_destructive c t)))))
  totals_late_stages c t = join_totals (totals_note_destructive c t) (
      join_totals (totals_note_special c _) (
        join_totals (totals_note_symlink c _)
          (join_totals (totals_note_executable c _) (totals_note_sensitive c _))))

  tally_change_totals :
      (c : Change) (t u : Tally)
      → tally_change cases floats policy c t ≡ ok u
      → (u.counts ≡ increment c.kind t.counts)
        × (u.added_bytes ≡ (
            if c.kind == add && has_kind file c.after
            then t.added_bytes +ℤ size_of c.after
            else t.added_bytes))
  unfolding tally_change
  tally_change_totals c t u h =
      let (b, top, rest) = >>=-eq-ok (is_protected_top cases floats policy (parse c.path)) _ h in
      let e = sym (ok-injective rest) in
      let counted = count_change c t in
      let early = totals_note_protected c b counted in
      let late =
        totals_late_stages c (add_bytes c (note_protected cases floats policy c b counted)) in
      (
        ap (λ (v : Tally). v.counts) e
            ∙ late.counts
            ∙ unfold add_bytes in early.counts ∙ unfold count_change in refl,
        ap (λ (v : Tally). v.added_bytes) e
            ∙ late.bytes
            ∙ unfold add_bytes count_change in ground (arith, early.bytes),
      )

  -- Each counter grows by the number of changes of its kind, and the added bytes by the sizes of
  -- the added files.
  pub tally_changes_totals :
      (changes : List Change) (t u : Tally)
      → tally_changes cases floats policy changes t ≡ ok u
      → (u.counts.added ≡ t.counts.added + count_kind add changes)
        × (u.counts.modified ≡ t.counts.modified + count_kind modify changes)
        × (u.counts.deleted ≡ t.counts.deleted + count_kind delete changes)
        × (u.counts.type_changed ≡ t.counts.type_changed + count_kind type_change changes)
        × (u.added_bytes ≡ t.added_bytes +ℤ sum_added_bytes changes)
  unfolding tally_changes increment
  tally_changes_totals [] t u h =
      let e = ok-injective h in let z = add_zero_ℤ t.added_bytes in ground arith
  tally_changes_totals (c ∷ changes) t u h =
      let (v, first, rest) = >>=-eq-ok (tally_change cases floats policy c t) _ h in
      let later = tally_changes_totals changes v u rest in
      let now = tally_change_totals c t v first in
      let z = zero_add_ℤ (sum_added_bytes changes) in
      let a = +ℤ_assoc t.added_bytes (size_of c.after) (sum_added_bytes changes) in
      (ground arith, ground arith, ground arith, ground arith, ground arith)

-- Every change has one of the four kinds.
pub count_kind_total :
    (changes : List Change)
    → count_kind add changes
        + count_kind modify changes
        + count_kind delete changes
        + count_kind type_change changes
      ≡ length changes
count_kind_total [] = refl
count_kind_total (c ∷ changes) = ground (arith, count_kind_total changes)
