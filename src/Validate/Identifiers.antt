-- ===== src/Validate/Identifiers.antt =====
-- What `validate_object_id` of src/agent_workspace_guard/util.py accepts.
use agent_workspace_guard.Base.{
  ◌≡◌, refl, ℕ, ◌-◌, true, false, [], ◌∷◌, ◌++◌, Text, nat_eq, list_eq, starts_with, contains, all,
  length, arith, ok, ◌≤◌,
}
use agent_workspace_guard.Paths.{slash}
use agent_workspace_guard.Paths.Safe.Joined.{IsSafeName}
use agent_workspace_guard.Validate.{
  underscore, is_token_char, is_token, matches_tail, is_object_id, validate_object_id,
}

token_no_slash : (text : Text) → all is_token_char text ≡ true → contains text slash ≡ false
unfolding is_token_char
token_no_slash [] h = refl
token_no_slash (c ∷ text) h = ground (arith, token_no_slash text)

tail_no_slash :
    (room : ℕ) (text : Text) → matches_tail room text ≡ true → contains text slash ≡ false
unfolding matches_tail is_token
tail_no_slash room [] h = refl
tail_no_slash room (c ∷ text) h = ground (arith, token_no_slash text, tail_no_slash (room - 1) text)

tail_length : (room : ℕ) (text : Text) → matches_tail room text ≡ true → 17 ≤ length text
unfolding matches_tail is_token
tail_length room [] h = cc
tail_length room (c ∷ text) h = ground (arith, tail_length (room - 1) text)

-- An accepted identifier is the text that was given. It is a single path component that neither
-- stays in place nor goes up, and it starts with the expected prefix and an underscore.
pub validate_object_id-IsSafeName :
    (value expected_prefix result : Text)
    → validate_object_id value expected_prefix ≡ ok result
    → (result ≡ value)
      × IsSafeName value
      × (starts_with value (expected_prefix ++ (underscore ∷ [])) ≡ true)
unfolding validate_object_id is_object_id
validate_object_id-IsSafeName [] expected_prefix result h = cc
validate_object_id-IsSafeName (c ∷ text) expected_prefix result h =
    ground (arith, tail_no_slash 31 text, tail_length 31 text)
