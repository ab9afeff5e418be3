-- ===== src/ShellGate/Reported.antt =====
-- What `add` of src/agent_workspace_guard/shell_gate.py reports.
use agent_workspace_guard.Base.{
  ◌≡◌, refl, Bool, true, false, not, ◌&&◌, ◌||◌, List, [], ◌∷◌, ◌++◌, Text, any, map, contains,
  ◌==◌, list_eq, nat_eq, arith,
}
use agent_workspace_guard.Models.Enums.{Decision}
use agent_workspace_guard.Models.Finding.{Finding}
use agent_workspace_guard.ShellGate.{Verdict, add}

abbrev pub codes_of : List Finding → List Text
codes_of findings = map (λ f. f.code) findings

-- No text stands twice in a list.
abbrev pub is_distinct : List Text → Bool
is_distinct [] = true
is_distinct (x ∷ xs) = not (contains xs x) && is_distinct xs

contains_last :
    (findings : List Finding) (f : Finding) (code : Text)
    → contains (codes_of (findings ++ (f ∷ []))) code
      ≡ (contains (codes_of findings) code || code == f.code)
contains_last [] f code = ground arith
contains_last (item ∷ findings) f code = ground (arith, contains_last findings f code)

contains_reported :
    (findings : List Finding) (code : Text)
    → any (λ item. item.code == code) findings ≡ contains (codes_of findings) code
contains_reported [] code = refl
contains_reported (item ∷ findings) code = ground (arith, contains_reported findings code)

is_distinct-append :
    (findings : List Finding) (f : Finding)
    → is_distinct (codes_of findings) ≡ true
    → any (λ item. item.code == f.code) findings ≡ false
    → is_distinct (codes_of (findings ++ (f ∷ []))) ≡ true
is_distinct-append [] f h k = refl
is_distinct-append (item ∷ findings) f h k =
    ground (arith, contains_last findings f item.code, is_distinct-append findings f)

-- A finding that is added never makes a code be reported twice: if no code is reported twice, that holds
-- after the finding, whatever it is, and the code of the finding is reported.
pub is_distinct-add :
    (f : Finding) (target : Decision) (v : Verdict)
    → is_distinct (codes_of v.findings) ≡ true
    → (is_distinct (codes_of (add f target v).findings) ≡ true)
      × (contains (codes_of (add f target v).findings) f.code ≡ true)
unfolding add list_eq nat_eq
is_distinct-add f target v h = ground (
  arith,
  is_distinct-append v.findings f,
  contains_last v.findings f f.code,
  contains_reported v.findings f.code,
)
