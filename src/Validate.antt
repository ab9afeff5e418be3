-- ===== src/Validate.antt =====
-- The validators of src/agent_workspace_guard/util.py for identifiers, texts, leases and digests.
-- The `isinstance` tests hold by the types here.
pub mod Identifiers
pub mod Fields
use agent_workspace_guard.Base.{
  ℕ, ◌-◌, Bool, true, false, not, ◌&&◌, ◌||◌, List, [], ◌∷◌, ◌++◌, Text, ◌==◌, nat_eq, list_eq,
  starts_with, any, all, reverse, length, ltb, leb, if◌then◌else◌, ℤ, pos, ltb_ℤ, Result, ok,
  guard_error, unsafe_path, refuse, ◌>>=◌, ◌>>◌,
}

-- `[a-z]`, `[0-9]`, `[A-Z]`
abbrev pub is_lower : ℕ → Bool
is_lower c = leb b'a' c && leb c b'z'

abbrev pub is_digit : ℕ → Bool
is_digit c = leb b'0' c && leb c b'9'

abbrev pub is_upper : ℕ → Bool
is_upper c = leb b'A' c && leb c b'Z'

abbrev pub underscore : ℕ
underscore = b'_'

-- `[a-z0-9-]` and `[A-Za-z0-9_-]`
unfoldable pub is_prefix_char : ℕ → Bool
unfolding nat_eq
is_prefix_char c = is_lower c || is_digit c || c == b'-'

unfoldable pub is_token_char : ℕ → Bool
unfolding nat_eq
is_token_char c = is_upper c || is_lower c || is_digit c || c == underscore || c == b'-'

-- `[A-Za-z0-9_-]{16,128}`
unfoldable pub is_token : Text → Bool
unfolding is_token_char
is_token text = leb 16 (length text) && leb (length text) 128 && all is_token_char text

-- `[a-z0-9-]{0,room}_[A-Za-z0-9_-]{16,128}`: the first class holds no underscore, so the first
-- underscore ends it.
unfoldable pub matches_tail : ℕ → Text → Bool
unfolding is_prefix_char is_token nat_eq
matches_tail room [] = false
matches_tail room (c ∷ text) =
    let rest = matches_tail (room - 1) text in
    if c == underscore then is_token text else ltb 0 room && is_prefix_char c && rest

-- `_OBJECT_ID_RE.fullmatch(value)`
unfoldable pub is_object_id : Text → Bool
unfolding matches_tail
is_object_id [] = false
is_object_id (c ∷ text) = is_lower c && matches_tail 31 text

unfoldable pub validate_object_id : Text → Text → Result Text
unfolding is_object_id starts_with
validate_object_id value expected_prefix = do
  refuse (not (is_object_id value)) unsafe_path
  refuse (not (starts_with value (expected_prefix ++ (underscore ∷ [])))) unsafe_path
  ok value

-- `str.isspace`, the characters that `str.strip` takes off.
unfoldable pub is_space : ℕ → Bool
unfolding nat_eq
is_space c =
    leb 9 c && leb c 13
    || leb 28 c && leb c 32
    || c == 0x85
    || c == 0xa0
    || c == 0x1680
    || leb 0x2000 c && leb c 0x200a
    || c == 0x2028
    || c == 0x2029
    || c == 0x202f
    || c == 0x205f
    || c == 0x3000

unfoldable pub strip_left : Text → Text
unfolding is_space
strip_left [] = []
strip_left (c ∷ text) = let rest = strip_left text in if is_space c then rest else c ∷ text

-- `text.strip()`
unfoldable pub strip : Text → Text
unfolding strip_left
strip text = reverse (strip_left (reverse (strip_left text)))

abbrev pub is_control : ℕ → Bool
is_control c = ltb c 32 || c == 127

unfoldable pub validate_text_field : Text → ℕ → Result Text
unfolding strip nat_eq list_eq
validate_text_field value max_length = do
  let normalized = strip value
  refuse (normalized == []) guard_error
  refuse (ltb max_length (length normalized)) guard_error
  refuse (any is_control normalized) guard_error
  ok normalized

unfoldable pub validate_ttl : ℤ → ℤ → Result ℤ
validate_ttl value maximum = do
  refuse (ltb_ℤ value (pos 1) || ltb_ℤ maximum value) guard_error
  ok value

unfoldable pub is_hex_char : ℕ → Bool
is_hex_char c = is_digit c || leb b'a' c && leb c b'f'

-- `_SHA256_RE.fullmatch(value)`
unfoldable pub validate_sha256 : Text → Result Text
unfolding is_hex_char nat_eq
validate_sha256 value = do
  refuse (not (length value == 64 && all is_hex_char value)) guard_error
  ok value
