-- ===== src/Json/Dump.antt =====
-- `canonical_json` of src/agent_workspace_guard/util.py: `json.dumps` with sorted keys, no spaces
-- and `ensure_ascii=False`, encoded as UTF-8.
use agent_workspace_guard.Base.{
  ◌≡◌, ℕ, ◌+◌, ◌/◌, ◌%◌, ◌-◌, Bool, true, false, List, [], ◌∷◌, ◌++◌, map, Text, codes, ◌==◌,
  nat_eq, ltb, leb, if◌then◌else◌, Result, ok, err, builtin, ◌>>=◌, ◌&&◌, show_int, join, text_ltb,
  sorted_by, refl, pos,
}
use agent_workspace_guard.Json.Values.{
  Json, null, boolean, number, float, string, array, object, Items, nil, cons, Fields, end, field,
}

unfoldable pub hex_digit : ℕ → ℕ
hex_digit d = if ltb d 10 then b'0' + d else b'a' + (d - 10)

-- The escape of one character inside a string.
unfoldable pub escape : ℕ → Text
unfolding hex_digit nat_eq
escape c =
    if c == b'"'
    then codes "\\\""
    else if c == b'\\'
    then codes "\\\\"
    else if c == 0x0a
    then codes "\\n"
    else if c == 0x0d
    then codes "\\r"
    else if c == 0x09
    then codes "\\t"
    else if c == 0x0c
    then codes "\\f"
    else if c == 0x08
    then codes "\\b"
    else if ltb c 0x20
    then codes "\\u00" ++ (hex_digit (c / 16) ∷ hex_digit (c % 16) ∷ [])
    else c ∷ []

unfoldable pub escape_all : Text → Text
unfolding escape
escape_all [] = []
escape_all (c ∷ text) = escape c ++ escape_all text

unfoldable pub quote : Text → Text
unfolding escape_all
quote text = b'"' ∷ (escape_all text ++ (b'"' ∷ []))

unfoldable pub smaller_key : Text × Text → Text × Text → Bool
unfolding text_ltb
smaller_key (k, v) (l, w) = text_ltb k l

unfoldable pub member : Text × Text → Text
unfolding quote
member (k, v) = quote k ++ (b':' ∷ v)

unfoldable mutual
  pub dumps : Json → Text
  dumps null = codes "null"
  dumps (boolean true) = codes "true"
  dumps (boolean false) = codes "false"
  dumps (number n) = show_int n
  dumps (float repr) = repr
  dumps (string text) = quote text
  dumps (array items) = b'[' ∷ (join (b',' ∷ []) (dumps_items items) ++ (b']' ∷ []))
  dumps (object fields) =
      b'{'
      ∷ (join (b',' ∷ []) (map member (sorted_by smaller_key (dumps_fields fields))) ++ (b'}' ∷ []))

  pub dumps_items : Items → List Text
  dumps_items nil = []
  dumps_items (cons value items) = dumps value ∷ dumps_items items

  pub dumps_fields : Fields → List (Text × Text)
  dumps_fields end = []
  dumps_fields (field key value fields) = (key, dumps value) ∷ dumps_fields fields

-- One code point in UTF-8. A lone surrogate raises `UnicodeEncodeError`.
unfoldable pub encode_char : ℕ → Result (List ℕ)
encode_char c =
    if ltb c 0x80
    then ok (c ∷ [])
    else if ltb c 0x800
    then ok ((0xc0 + c / 64) ∷ (0x80 + c % 64) ∷ [])
    else if leb 0xd800 c && leb c 0xdfff
    then err builtin
    else if ltb c 0x10000
    then ok ((0xe0 + c / 4096) ∷ (0x80 + c / 64 % 64) ∷ (0x80 + c % 64) ∷ [])
    else ok
        ((0xf0 + c / 262144) ∷ (0x80 + c / 4096 % 64) ∷ (0x80 + c / 64 % 64) ∷ (0x80 + c % 64) ∷ [])

unfoldable pub encode_utf8 : Text → Result (List ℕ)
unfolding encode_char
encode_utf8 [] = ok []
encode_utf8 (c ∷ text) = do bytes ← encode_char c; more ← encode_utf8 text; ok (bytes ++ more)

unfoldable pub canonical_json : Json → Result (List ℕ)
unfolding dumps encode_utf8 quote escape_all escape member smaller_key sorted_by join show_int
canonical_json value = encode_utf8 (dumps value)

canonical_sorted :
    canonical_json
      (object (field (codes "b") (number (pos 12)) (field (codes "a") (array (cons null nil)) end)))
    ≡ ok (codes "{\"a\":[null],\"b\":12}")
unfolding canonical_json
canonical_sorted = refl
