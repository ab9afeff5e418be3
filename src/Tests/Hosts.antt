-- ===== src/Tests/Hosts.antt =====
-- Concrete hosts, in place of the code that is not the repository's.
use agent_workspace_guard.Base.{
  ℕ, ◌+◌, ◌*◌, ◌/◌, ◌%◌, ◌&&◌, List, [], ◌∷◌, Text, codes, map, leb, if◌then◌else◌, pos, err,
  builtin,
}
use agent_workspace_guard.Json.Convert.{Builtins}
use agent_workspace_guard.Host.{CaseTables, Floats}
use agent_workspace_guard.Audit.{zero_hash}

abbrev pub builtins : Builtins
builtins = record {
  repr = λ _. [];
  int_of_text = λ _. err builtin;
  int_of_float = λ _. err builtin;
  dict_of_items = λ _. err builtin;
}

-- Case of the ASCII letters.
abbrev lower_char : ℕ → ℕ
lower_char c = if leb b'A' c && leb c b'Z' then c + 32 else c

abbrev pub ascii_cases : CaseTables
ascii_cases = record { lower = map lower_char; casefold = map lower_char }

-- Fractions in millionths.
abbrev pub millionths : Floats
millionths = record {
  Float = ℕ;
  ratio = λ n d. n * 1_000_000 / d;
  at_least = λ x y. leb y x;
  ppm = pos;
  repr = λ x. codes "0.5";
}

abbrev sum : List ℕ → ℕ
sum [] = 0
sum (c ∷ text) = c + sum text

-- A checksum with the width and the alphabet of a SHA-256 in hex.
abbrev pub checksum : List ℕ → Text
checksum bytes = (b'0' + sum bytes % 10) ∷ drop_first zero_hash
  where
    drop_first : Text → Text
    drop_first [] = []
    drop_first (c ∷ text) = text
