-- ===== src/LevelDb/Keys.antt =====
-- The keys of datastore/leveldb/leveldb.go, blockindex.go and nodeindex.go.
use juren_cluster.Prelude.{
  ℕ, zero, suc, ◌+◌, ◌*◌, ◌/◌, ◌%◌, ◌^◌, ◌-◌, not, ◌&&◌, ◌||◌, Option, none, some, [], ◌∷◌, ◌++◌,
  Bytes, bytes_eq, length, ltb, leb, ◌==◌, if◌then◌else◌,
}
use juren_cluster.Outcome.{
  Result, ok, err, invalid_key_length, invalid_key_prefix, expected_integer,
}
use juren_cluster.Oid.{Oid, to_string}

-- "OID", "SEQ" and "NOD"
abbrev pub key_prefix_oid : Bytes
key_prefix_oid = b'O' ∷ b'I' ∷ b'D' ∷ []

abbrev pub key_prefix_seq : Bytes
key_prefix_seq = b'S' ∷ b'E' ∷ b'Q' ∷ []

abbrev pub key_prefix_node : Bytes
key_prefix_node = b'N' ∷ b'O' ∷ b'D' ∷ []

unfoldable pub key_from_block_oid : Oid → Bytes
key_from_block_oid oid = key_prefix_oid ++ to_string oid

unfoldable pub key_from_node_oid : Oid → Bytes
key_from_node_oid oid = key_prefix_node ++ to_string oid

unfoldable pub hex_digit : ℕ → ℕ
hex_digit d = if ltb d 10 then 48 + d else 87 + d

-- A number below 16 ^ w in w lower-case hexadecimal digits.
unfoldable pub hex : ℕ → ℕ → Bytes
hex zero n = []
hex (suc w) n = hex_digit (n / 16 ^ w) ∷ hex w (n % 16 ^ w)

-- `fmt.Sprintf("%016x", seq)`: a uint64 never has more than sixteen digits.
unfoldable pub key_from_seq : ℕ → Bytes
key_from_seq seq = key_prefix_seq ++ hex 16 seq

unfoldable pub hex_value? : ℕ → Option ℕ
hex_value? c =
    if leb 48 c && leb c 57
    then some (c - 48)
    else if leb 97 c && leb c 102
    then some (c - 87)
    else if leb 65 c && leb c 70
    then some (c - 55)
    else none

-- The value of the digits at the front of a text, `w` at most.
unfoldable pub scan_digits : ℕ → ℕ → Bytes → ℕ
scan_digits zero v src = v
scan_digits (suc w) v [] = v
scan_digits (suc w) v (c ∷ src) = elim (hex_value? c) [
  | none ↦ v
  | some d ↦ scan_digits w (v * 16 + d) src
]

skip_spaces : Bytes → Bytes
skip_spaces [] = []
skip_spaces (c ∷ src) =
    let rest = skip_spaces src in
    if c == 32 || (c == 9 || (c == 11 || (c == 12 || c == 13))) then rest else c ∷ src

digits_at : Bytes → Result ℕ
digits_at [] = err expected_integer
digits_at (c ∷ src) = elim (hex_value? c) [
  | none ↦ err expected_integer
  | some d ↦ ok (scan_digits 16 0 (c ∷ src))
]

-- `fmt.Sscanf(s, "%016x", &seq)`: spaces are skipped, one to sixteen digits are read, and what
-- follows them is left. (Sixteen digits fit a uint64.)
unfoldable pub sscanf_hex : Bytes → Result ℕ
unfolding skip_spaces digits_at
sscanf_hex s = digits_at (skip_spaces s)

-- The key is cut behind its first three bytes.
cut_key : Bytes → Bytes × Bytes
cut_key (a ∷ b ∷ c ∷ rest) = (a ∷ b ∷ c ∷ [], rest)
cut_key key = (key, [])

unfoldable pub seq_from_key : Bytes → Result ℕ
unfolding cut_key
seq_from_key key =
    if not (length key == 3 + 16)
    then err invalid_key_length
    else if not (bytes_eq (cut_key key).0 key_prefix_seq)
    then err invalid_key_prefix
    else sscanf_hex (cut_key key).1
