-- ===== src/Oid/Base32.antt =====
-- `base32.StdEncoding` of Go's standard library, which oid/oid.go encodes and decodes with.
use juren_cluster.Prelude.{
  ℕ, zero, suc, ◌+◌, ◌-◌, ◌*◌, ◌/◌, ◌%◌, Bool, true, ◌&&◌, ◌||◌, Option, none, some, List, [], ◌∷◌,
  ◌++◌, Bytes, length, ltb, leb, ◌==◌, if◌then◌else◌,
}
use juren_cluster.Outcome.{Result, ok, err, ◌>>=◌, corrupt_input}

abbrev pub pad : ℕ
pad = b'='

-- "ABCDEFGHIJKLMNOPQRSTUVWXYZ234567"
unfoldable pub letter : ℕ → ℕ
letter q = if ltb q 26 then 65 + q else 24 + q

-- `decodeMap`, with `none` for 0xFF.
unfoldable pub digit? : ℕ → Option ℕ
digit? c =
    if leb 65 c && leb c 90
    then some (c - 65)
    else if leb 50 c && leb c 55
    then some (c - 24)
    else none

-- Five bytes as eight letters.
unfoldable pub encode_group : ℕ → ℕ → ℕ → ℕ → ℕ → Bytes
encode_group a b c d e =
    letter (a / 8)
    ∷ letter (a % 8 * 4 + b / 64)
    ∷ letter (b / 2 % 32)
    ∷ letter (b % 2 * 16 + c / 16)
    ∷ letter (c % 16 * 2 + d / 128)
    ∷ letter (d / 4 % 32)
    ∷ letter (d % 4 * 8 + e / 32)
    ∷ letter (e % 32)
    ∷ []

-- The first letters of a group that the input ends in, and the padding.
padded : ℕ → Bytes → Bytes
padded zero (x ∷ xs) = pad ∷ padded zero xs
padded (suc n) (x ∷ xs) = x ∷ padded n xs
padded n [] = []

unfoldable pub encode_to_string : Bytes → Bytes
unfolding padded
encode_to_string [] = []
encode_to_string (a ∷ []) = padded 2 (encode_group a 0 0 0 0)
encode_to_string (a ∷ b ∷ []) = padded 4 (encode_group a b 0 0 0)
encode_to_string (a ∷ b ∷ c ∷ []) = padded 5 (encode_group a b c 0 0)
encode_to_string (a ∷ b ∷ c ∷ d ∷ []) = padded 7 (encode_group a b c d 0)
encode_to_string (a ∷ b ∷ c ∷ d ∷ e ∷ rest) = encode_group a b c d e ++ encode_to_string rest

-- The bytes that the digits of a quantum give: 2, 4, 5, 7 or 8 digits give 1 to 5 bytes.
unfoldable pub quantum : List ℕ → Bytes
quantum (q ∷ r ∷ []) = (q * 8 + r / 4) ∷ []
quantum (q ∷ r ∷ s ∷ t ∷ []) = (q * 8 + r / 4) ∷ (r % 4 * 64 + s * 2 + t / 16) ∷ []
quantum (q ∷ r ∷ s ∷ t ∷ u ∷ []) =
    (q * 8 + r / 4) ∷ (r % 4 * 64 + s * 2 + t / 16) ∷ (t % 16 * 16 + u / 2) ∷ []
quantum (q ∷ r ∷ s ∷ t ∷ u ∷ v ∷ w ∷ []) =
    (q * 8 + r / 4)
    ∷ (r % 4 * 64 + s * 2 + t / 16)
    ∷ (t % 16 * 16 + u / 2)
    ∷ (u % 2 * 128 + v * 4 + w / 8)
    ∷ []
quantum (q ∷ r ∷ s ∷ t ∷ u ∷ v ∷ w ∷ x ∷ []) =
    (q * 8 + r / 4)
    ∷ (r % 4 * 64 + s * 2 + t / 16)
    ∷ (t % 16 * 16 + u / 2)
    ∷ (u % 2 * 128 + v * 4 + w / 8)
    ∷ (w % 8 * 32 + x)
    ∷ []
quantum _ = []

-- The first `n` characters, as far as there are so many, are padding.
all_pad : ℕ → Bytes → Bool
all_pad zero src = true
all_pad (suc n) [] = true
all_pad (suc n) (c ∷ src) = c == pad && all_pad n src

-- The end of the input at a padding character: the digits so far, and what follows the character.
unfoldable pub finish : List ℕ → Bytes → Result Bytes
unfolding all_pad
finish digits src =
    if ltb (length src + length digits) 7
    then err corrupt_input
    else if all_pad (7 - length digits) src
    then (if length digits == 3 || length digits == 6
        then err corrupt_input
        else ok (quantum digits))
    else err corrupt_input

-- A digit joins the quantum; the eighth ends it.
unfoldable pub joined : List ℕ → ℕ → Result Bytes → Result Bytes
joined digits q rest =
    if length digits == 7
    then rest >>= (λ bytes. ok (quantum (digits ++ q ∷ []) ++ bytes))
    else rest

unfoldable pub next_digits : List ℕ → Option ℕ → List ℕ
next_digits digits none = []
next_digits digits (some q) = if length digits == 7 then [] else digits ++ q ∷ []

-- `decode`: the digits of the quantum at hand, and the input.
unfoldable pub decode : List ℕ → Bytes → Result Bytes
decode digits [] = if length digits == 0 then ok [] else err corrupt_input
decode digits (c ∷ src) =
    let rest = decode (next_digits digits (digit? c)) src in
    if c == pad && (leb 2 (length digits) && ltb (length src) 8)
    then finish digits src
    else elim (digit? c) [ none ↦ err corrupt_input | some q ↦ joined digits q rest ]

-- `stripNewlines`
unfoldable pub strip_newlines : Bytes → Bytes
strip_newlines [] = []
strip_newlines (c ∷ src) =
    let rest = strip_newlines src in if c == 13 || c == 10 then rest else c ∷ rest

unfoldable pub decode_string : Bytes → Result Bytes
unfolding decode strip_newlines
decode_string s = decode [] (strip_newlines s)
