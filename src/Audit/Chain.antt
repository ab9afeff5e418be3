-- ===== src/Audit/Chain.antt =====
-- The hash chain of src/agent_workspace_guard/audit.py, and what its last hash fixes.
use agent_workspace_guard.Base.{
  ◌≡◌, ◌≢◌, ◌⊎◌, refl, sym, ap, ◌∙◌, ℕ, ◌+◌, inl, inr, not, Option, some, List, [], ◌∷◌, ◌++◌,
  length, Text, codes, ◌==◌, nat_eq, list_eq, option_eq, arith, if◌then◌else◌, Result, ok, err,
  builtin, integrity_error, refuse, traverse, ltb, ◌>>=◌, >>=-eq-ok,
}
use agent_workspace_guard.Json.Values.{object, string, Fields, get, json_eq}
use agent_workspace_guard.Json.Dump.{canonical_json}
use agent_workspace_guard.Json.Convert.{Builtins}
use agent_workspace_guard.Audit.{
  Line, blank, invalid, value, zero_hash, body_of, encode_ascii, chain_hash, claimed_hash,
  check_signature, check_row, verify_lines, verify_unlocked,
}

-- Two different inputs with one hash.
abbrev pub Collision : (List ℕ → Text) → Type 0
Collision sha256 = (a b : List ℕ) × (a ≢ b) × (sha256 a ≡ sha256 b)

-- The events of a log, as the bytes of their bodies. Blank lines hold none.
abbrev pub events : List Line → List (Result (List ℕ))
events [] = []
events (value (object row) ∷ lines) = canonical_json (object (body_of row)) ∷ events lines
events (_ ∷ lines) = events lines

row_events : List Fields → List (Result (List ℕ))
row_events [] = []
row_events (row ∷ rows) = canonical_json (object (body_of row)) ∷ row_events rows

encode_ascii_same : (text : Text) (bytes : List ℕ) → encode_ascii text ≡ ok bytes → bytes ≡ text
unfolding encode_ascii
encode_ascii_same [] bytes h = ground arith
encode_ascii_same (c ∷ text) bytes h =
    let (d, e, rest) = >>=-eq-ok (if ltb c 128 then ok c else err builtin) _ h in
    let (more, f, same) =
      >>=-eq-ok (traverse (λ x. if ltb x 128 then ok x else err builtin) text) _ rest in
    let tail = encode_ascii_same text more f in ground arith

append_cancel : (p q a b : List ℕ) → length p ≡ length q → p ++ a ≡ q ++ b → (p ≡ q) × (a ≡ b)
append_cancel [] [] a b h e = (refl, e)
append_cancel [] (y ∷ q) a b h e = absurd (omega arith)
append_cancel (x ∷ p) [] a b h e = absurd (omega arith)
append_cancel (x ∷ p) (y ∷ q) a b h e =
    let (same, rest) = append_cancel p q a b (omega arith) (cc) in
    let first : x ≡ y = cc in (cc, rest)

chain_hash_lem :
    (sha256 : List ℕ → Text) (previous : Text) (body : Fields) (hash : Text)
    → chain_hash sha256 previous body ≡ ok hash
    → (bytes : List ℕ) × (canonical_json (object body) ≡ ok bytes)
      × (hash ≡ sha256 (previous ++ bytes))
unfolding chain_hash
chain_hash_lem sha256 previous body hash h =
    let (front, encoded, rest) = >>=-eq-ok (encode_ascii previous) _ h in
    let (bytes, written, f) = >>=-eq-ok (canonical_json (object body)) _ rest in
    let same = encode_ascii_same previous front encoded in (bytes, written, cc)

accepted : (a b : Text) {u : Unit} → refuse (not (a == b)) integrity_error ≡ ok u → a ≡ b
accepted a b h = ground arith

module _ (py : Builtins) (sha256 : List ℕ → Text) (signer : Option (List ℕ → Text)) where
  verify_rows : List Fields → ℕ → Text → Result (ℕ × Text)
  verify_rows [] count previous = ok (count, previous)
  verify_rows (row ∷ rows) count previous =
      check_row py sha256 signer previous row >>= λ hash. verify_rows rows (count + 1) hash

  -- A log that verifies is a list of rows that do.
  rows_of :
      (lines : List Line) (count : ℕ) (previous : Text) (r : ℕ × Text)
      → verify_lines py sha256 signer lines count previous ≡ ok r
      → (rows : List Fields) × (verify_rows rows count previous ≡ ok r)
        × (row_events rows ≡ events lines)
  unfolding verify_lines verify_rows row_events
  rows_of [] c p r h = ([], h, refl)
  rows_of (blank ∷ lines) c p r h = rows_of lines c p r h
  rows_of (value (object row) ∷ lines) c p r h =
      let (hash, e, rest) = >>=-eq-ok (check_row py sha256 signer p row) _ h in
      let (rows, f, same) = rows_of lines (c + 1) hash r rest in
      (row ∷ rows, rw e f, ap (λ more. canonical_json (object (body_of row)) ∷ more) same)
  rows_of (invalid ∷ lines) c p r h = cc
  rows_of (value _ ∷ lines) c p r h = cc

  -- The hash of an accepted row is the hash of its predecessor and its body.
  check_row_hash :
      (previous : Text) (row : Fields) (hash : Text)
      → check_row py sha256 signer previous row ≡ ok hash
      → (bytes : List ℕ) × (canonical_json (object (body_of row)) ≡ ok bytes)
        × (hash ≡ sha256 (previous ++ bytes))
  unfolding check_row
  check_row_hash previous row hash h =
      let (u, linked, rest) =
        >>=-eq-ok
          (refuse (not (get (codes "previous_hash") (body_of row) == some (string previous)))
            integrity_error)
          _ h in
      let (expected, hashed, rest1) = >>=-eq-ok (chain_hash sha256 previous (body_of row)) _ rest in
      let (v, same, rest2) =
        >>=-eq-ok (refuse (not (claimed_hash py row == expected)) integrity_error) _ rest1 in
      let (w, signed, e) = >>=-eq-ok (check_signature py signer row) _ rest2 in
      let (bytes, written, f) = chain_hash_lem sha256 previous (body_of row) expected hashed in
      let claimed : claimed_hash py row ≡ expected = accepted _ _ same in (bytes, written, cc)

  verify_rows-count :
      (rows : List Fields) (count : ℕ) (previous : Text) (n : ℕ) (last : Text)
      → verify_rows rows count previous ≡ ok (n, last)
      → count + length rows ≡ n
  unfolding verify_rows
  verify_rows-count [] c p n last h = grind arith
  verify_rows-count (row ∷ rows) c p n last h =
      let (hash, e, rest) = >>=-eq-ok (check_row py sha256 signer p row) _ h in
      let more = verify_rows-count rows (c + 1) hash n last rest in omega arith

  -- Rows of two logs that end in one hash are linked to one hash and are the same.
  verify_rows-same :
      ((bytes : List ℕ) → length (sha256 bytes) ≡ 64)
      → (rows1 rows2 : List Fields) → length rows1 ≡ length rows2
      → (c1 c2 : ℕ) (p1 p2 : Text) → length p1 ≡ length p2
      → (n1 n2 : ℕ) (last : Text) → verify_rows rows1 c1 p1 ≡ ok (n1, last)
      → verify_rows rows2 c2 p2 ≡ ok (n2, last)
      → ((p1 ≡ p2) × (row_events rows1 ≡ row_events rows2)) ⊎ Collision sha256
  unfolding verify_rows row_events
  verify_rows-same wide [] [] s c1 c2 p1 p2 w n1 n2 last h1 h2 = inl (grind arith, refl)
  verify_rows-same wide [] (_ ∷ _) s c1 c2 p1 p2 w n1 n2 last h1 h2 = absurd (omega arith)
  verify_rows-same wide (_ ∷ _) [] s c1 c2 p1 p2 w n1 n2 last h1 h2 = absurd (omega arith)
  verify_rows-same wide (x ∷ xs) (y ∷ ys) s c1 c2 p1 p2 w n1 n2 last h1 h2 =
      let (hash1, e1, rest1) = >>=-eq-ok (check_row py sha256 signer p1 x) _ h1 in
      let (hash2, e2, rest2) = >>=-eq-ok (check_row py sha256 signer p2 y) _ h2 in
      let (b1, written1, f1) = check_row_hash p1 x hash1 e1 in
      let (b2, written2, f2) = check_row_hash p2 y hash2 e2 in
      let widths : length hash1 ≡ length hash2 =
        ap length f1 ∙ wide (p1 ++ b1) ∙ sym (wide (p2 ++ b2)) ∙ sym (ap length f2) in
      elim (verify_rows-same wide xs ys (omega arith) (c1 + 1) (c2 + 1) hash1 hash2 widths n1 n2
        last rest1 rest2) [
          | inl (same, more) ↦ elim (list_eq.dec (p1 ++ b1) (p2 ++ b2)) [
            | yes joined ↦
                let (front, body) = append_cancel p1 p2 b1 b2 w joined in
                let first : canonical_json (object (body_of x))
                    ≡ canonical_json (object (body_of y)) =
                  cc in
                inl (front, cc)
            | no apart ↦ inr (p1 ++ b1, p2 ++ b2, apart, sym f1 ∙ same ∙ f2)
          ]
          | inr collision ↦ inr collision
        ]

  -- Two logs that verify to one count and one last hash hold the same events in the same order,
  -- or two different inputs of the hash have one value. A hash has 64 characters.
  pub verify_unlocked-TamperEvident :
      ((bytes : List ℕ) → length (sha256 bytes) ≡ 64)
      → (lines1 lines2 : List Line) (count : ℕ) (last : Text)
      → verify_unlocked py sha256 signer lines1 ≡ ok (count, last)
      → verify_unlocked py sha256 signer lines2 ≡ ok (count, last)
      → (events lines1 ≡ events lines2) ⊎ Collision sha256
  verify_unlocked-TamperEvident wide lines1 lines2 count last h1 h2 =
      let (rows1, e1, same1) = rows_of lines1 0 zero_hash (count, last) h1 in
      let (rows2, e2, same2) = rows_of lines2 0 zero_hash (count, last) h2 in
      let n1 = verify_rows-count rows1 0 zero_hash count last e1 in
      let n2 = verify_rows-count rows2 0 zero_hash count last e2 in
      elim (verify_rows-same wide rows1 rows2 (omega arith) 0 0 zero_hash zero_hash refl count count
        last e1 e2) [
          | inl (_, same) ↦ inl (sym same1 ∙ same ∙ same2)
          | inr collision ↦ inr collision
        ]
