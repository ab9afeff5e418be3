-- ===== src/Manifest/Roots.antt =====
-- The changes that `operation_roots` of src/agent_workspace_guard/manifest.py selects.
use agent_workspace_guard.Base.{
  ◌≡◌, ◌⊎◌, Bool, Bool-cases, inl, inr, true, false, ◌||◌, List, [], ◌∷◌, ◌++◌, nat_eq, list_eq,
  any, All, In, In-sorted_by, sorted_by-In, arith,
}
use agent_workspace_guard.Paths.{FilePath, parse}
use agent_workspace_guard.Models.Change.{Change}
use agent_workspace_guard.Manifest.{
  is_under, replaces_tree, smaller_change, select_roots, operation_roots,
}

-- `change` lies below, or is, a selected change that replaces a whole tree.
abbrev pub Covered : Change → List Change → Type 0
Covered change [] = ⊥
Covered change (root ∷ roots) =
    ((replaces_tree root ≡ true) × (is_under (parse change.path) (parse root.path) ≡ true))
    ⊎ Covered change roots

-- No later change lies below an earlier one that replaces a whole tree.
abbrev pub Apart : List Change → Type 0
Apart [] = Unit
Apart (root ∷ roots) =
    All (λ later. replaces_tree root ≡ true → is_under (parse later.path) (parse root.path) ≡ false)
      roots
    × Apart roots

any-append :
    (p : FilePath → Bool) (xs : List FilePath) (x : FilePath)
    → any p (xs ++ (x ∷ [])) ≡ (any p xs || p x)
any-append p [] x = ground arith
any-append p (y ∷ xs) x = ground (arith, any-append p xs x)

-- A change of the list is under an outer root, or selected, or covered.
Kept : Change → List FilePath → List Change → Type 0
Kept c roots selected =
    (any (is_under (parse c.path)) roots ≡ true) ⊎ (In c selected ⊎ Covered c selected)

grow :
    (c d : Change) (roots : List FilePath) (selected : List Change)
    → replaces_tree d ≡ true
    → Kept c (roots ++ (parse d.path ∷ [])) selected
    → Kept c roots (d ∷ selected)
unfolding Kept
grow c d roots selected r (inr (inl m)) = inr (inl (inr m))
grow c d roots selected r (inr (inr m)) = inr (inr (inr m))
grow c d roots selected r (inl h) = elim (Bool-cases (is_under (parse c.path) (parse d.path))) [
  | inl u ↦ inr (inr (inl (r, u)))
  | inr u ↦ inl (ground (arith, any-append (is_under (parse c.path)) roots (parse d.path)))
]

keep :
    (c d : Change) (roots : List FilePath) (selected : List Change)
    → Kept c roots selected
    → Kept c roots (d ∷ selected)
unfolding Kept
keep c d roots selected (inl h) = inl h
keep c d roots selected (inr (inl m)) = inr (inl (inr m))
keep c d roots selected (inr (inr m)) = inr (inr (inr m))

select_roots-Kept :
    (c : Change) (roots : List FilePath) (cs : List Change)
    → In c cs
    → Kept c roots (select_roots roots cs)
unfolding select_roots
select_roots-Kept c roots [] h = absurd h
select_roots-Kept c roots (d ∷ cs) (inl p) =
    unfold Kept in
    elim (Bool-cases (any (is_under (parse d.path)) roots)) [
      | inl u ↦ inl (rw p u)
      | inr u ↦ elim (Bool-cases (replaces_tree d)) [
        | inl r ↦ rw (u, r) (inr (inl (inl p)))
        | inr r ↦ rw (u, r) (inr (inl (inl p)))
      ]
    ]
select_roots-Kept c roots (d ∷ cs) (inr m) =
    elim (Bool-cases (any (is_under (parse d.path)) roots)) [
      | inl u ↦ rw u (select_roots-Kept c roots cs m)
      | inr u ↦ elim (Bool-cases (replaces_tree d)) [
        | inl r ↦
            rw (u, r) (grow c d roots _ r (select_roots-Kept c (roots ++ (parse d.path ∷ [])) cs m))
        | inr r ↦ rw (u, r) (keep c d roots _ (select_roots-Kept c roots cs m))
      ]
    ]

select_roots-In :
    (c : Change) (roots : List FilePath) (cs : List Change) → In c (select_roots roots cs) → In c cs
unfolding select_roots
select_roots-In c roots [] h = h
select_roots-In c roots (d ∷ cs) h = elim (Bool-cases (any (is_under (parse d.path)) roots)) [
  | inl u ↦ inr (select_roots-In c roots cs (rw u at h))
  | inr u ↦ elim (Bool-cases (replaces_tree d)) [
    | inl r ↦ later _ (select_roots-In c (roots ++ (parse d.path ∷ [])) cs) (rw (u, r) at h)
    | inr r ↦ later _ (select_roots-In c roots cs) (rw (u, r) at h)
  ]
]
  where
    later :
        (selected : List Change) → (In c selected → In c cs) → In c (d ∷ selected) → In c (d ∷ cs)
    later selected ih (inl p) = inl p
    later selected ih (inr q) = inr (ih q)

-- The roots are changes of the plan, and each change of the plan is a root or lies below a root
-- that replaces its whole tree.
pub operation_roots-Covered :
    (changes : List Change) (change : Change)
    → (In change (operation_roots changes) → In change changes)
      × (In change changes
          → In change (operation_roots changes) ⊎ Covered change (operation_roots changes))
unfolding operation_roots
operation_roots-Covered changes change = (
  λ h. sorted_by-In smaller_change change changes (select_roots-In change [] _ h),
  λ h.
      unfold Kept in
      elim (select_roots-Kept change [] _ (In-sorted_by smaller_change change changes h)) [
        | inl e ↦ cc
        | inr m ↦ m
      ],
)

Outside : List FilePath → Change → Type 0
Outside roots later = any (is_under (parse later.path)) roots ≡ false

Outside-append :
    (roots : List FilePath) (root : FilePath) (cs : List Change)
    → All (Outside (roots ++ (root ∷ []))) cs
    → All (Outside roots) cs × All (λ later. is_under (parse later.path) root ≡ false) cs
unfolding Outside
Outside-append roots root [] h = (tt, tt)
Outside-append roots root (c ∷ cs) (h, hs) =
    let (outer, inner) = Outside-append roots root cs hs in
    let e = any-append (is_under (parse c.path)) roots root in
    ((ground arith, outer), (ground arith, inner))

select_roots-Outside :
    (roots : List FilePath) (cs : List Change) → All (Outside roots) (select_roots roots cs)
unfolding select_roots
select_roots-Outside roots [] = tt
select_roots-Outside roots (d ∷ cs) = elim (Bool-cases (any (is_under (parse d.path)) roots)) [
  | inl u ↦ rw u (select_roots-Outside roots cs)
  | inr u ↦ elim (Bool-cases (replaces_tree d)) [
    | inl r ↦
        rw (u, r)
          (
            unfold Outside in u,
            (Outside-append roots (parse d.path) _
                (select_roots-Outside (roots ++ (parse d.path ∷ [])) cs)).0,
          )
    | inr r ↦ rw (u, r) (unfold Outside in u, select_roots-Outside roots cs)
  ]
]

vacuous :
    (root : Change) (cs : List Change)
    → replaces_tree root ≡ false
    → All
        (λ later. replaces_tree root ≡ true → is_under (parse later.path) (parse root.path) ≡ false)
        cs
vacuous root [] h = tt
vacuous root (c ∷ cs) h = (λ k. cc, vacuous root cs h)

given :
    (root : Change) (cs : List Change)
    → All (λ later. is_under (parse later.path) (parse root.path) ≡ false) cs
    → All
        (λ later. replaces_tree root ≡ true → is_under (parse later.path) (parse root.path) ≡ false)
        cs
given root [] h = tt
given root (c ∷ cs) (h, hs) = (λ k. h, given root cs hs)

select_roots-Apart : (roots : List FilePath) (cs : List Change) → Apart (select_roots roots cs)
unfolding select_roots
select_roots-Apart roots [] = tt
select_roots-Apart roots (d ∷ cs) = elim (Bool-cases (any (is_under (parse d.path)) roots)) [
  | inl u ↦ rw u (select_roots-Apart roots cs)
  | inr u ↦ elim (Bool-cases (replaces_tree d)) [
    | inl r ↦
        rw (u, r)
          (
            given d _
                (Outside-append roots (parse d.path) _
                  (select_roots-Outside (roots ++ (parse d.path ∷ [])) cs)).1,
            select_roots-Apart (roots ++ (parse d.path ∷ [])) cs,
          )
    | inr r ↦ rw (u, r) (vacuous d _ r, select_roots-Apart roots cs)
  ]
]

-- No operation root lies below an earlier root that replaces its whole tree, so no operation is
-- carried out inside a tree that an earlier operation has moved.
pub operation_roots-Apart : (changes : List Change) → Apart (operation_roots changes)
unfolding operation_roots
operation_roots-Apart changes = select_roots-Apart [] _
