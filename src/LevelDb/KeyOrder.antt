-- ===== src/LevelDb/KeyOrder.antt =====
-- Sequence keys (datastore/leveldb/leveldb.go) are ordered as their numbers and read back.
use juren_cluster.Prelude.{
  ℕ, zero, suc, ◌+◌, ◌*◌, ◌/◌, ◌%◌, ◌^◌, ◌≤◌, ◌<◌, ◌≡◌, ◌≢◌, refl, sym, ap, ◌∙◌, arith, ◌&&◌, ◌||◌,
  some, ◌∷◌, Bytes, bytes_eq, bytes_lt, length, ltb, ◌==◌,
}
use native.Mathlib.Nat.{pow-suc, div-lt_iff_lt-mul, mod-lt, div-add-mod'}
use mathlib.Core.Path.{ap₂}
use juren_cluster.Outcome.{ok}
use juren_cluster.LevelDb.Keys.{
  hex_digit, hex, key_from_seq, hex_value?, scan_digits, sscanf_hex, seq_from_key,
}

-- A sequence number fits a uint64.
abbrev pub IsU64 : ℕ → Type 0
IsU64 n = n < 2 ^ 64

pow_pos : (w : ℕ) → 0 < 16 ^ w
pow_pos zero = omega arith
pow_pos (suc w) = rw pow-suc (omega (arith, pow_pos w))

-- The first digit of a number and the rest.
split_digit :
    (w n : ℕ)
    → n < 16 ^ suc w
    → (n / 16 ^ w < 16) × (n % 16 ^ w < 16 ^ w) × (n / 16 ^ w * 16 ^ w + n % 16 ^ w ≡ n)
split_digit w n h = (
  (div-lt_iff_lt-mul (pow_pos w)).1 (omega (arith, pow-suc 16 w)),
  mod-lt n (pow_pos w),
  div-add-mod' n (16 ^ w),
)

next_multiple : (p q q' : ℕ) → q < q' → q * p + p ≤ q' * p
next_multiple p q q' h = let m : suc q * p ≤ q' * p = grind arith in omega (arith, m)

-- Two digits with rests compare as the digits, and on a tie as the rests.
digits_lt :
    (p q r q' r' : ℕ)
    → r < p
    → r' < p
    → ltb (q * p + r) (q' * p + r') ≡ (ltb q q' || (q == q' && ltb r r'))
digits_lt p q r q' r' h h' = ground (arith, next_multiple p q q', next_multiple p q' q)

hex_digit-order :
    (d e : ℕ)
    → d < 16
    → e < 16
    → (ltb (hex_digit d) (hex_digit e) ≡ ltb d e) × ((hex_digit d == hex_digit e) ≡ (d == e))
unfolding hex_digit
hex_digit-order d e hd he = ground arith

lt-hex : (w a b : ℕ) → a < 16 ^ w → b < 16 ^ w → bytes_lt (hex w a) (hex w b) ≡ ltb a b
unfolding hex bytes_lt
lt-hex zero a b ha hb = ground arith
lt-hex (suc w) a b ha hb =
    let (qa, ra, ea) = split_digit w a ha in
    let (qb, rb, eb) = split_digit w b hb in
    let (lt, eq) = hex_digit-order (a / 16 ^ w) (b / 16 ^ w) qa qb in
    rw (lt, eq, lt-hex w (a % 16 ^ w) (b % 16 ^ w) ra rb)
      (sym (digits_lt (16 ^ w) _ _ _ _ ra rb) ∙ ap₂ ltb ea eb)

-- For two numbers that fit a uint64, the bytewise order of their keys is the order of the
-- numbers.
pub lt-key_from_seq :
    (a b : ℕ) → IsU64 a → IsU64 b → bytes_lt (key_from_seq a) (key_from_seq b) ≡ ltb a b
unfolding key_from_seq bytes_lt
lt-key_from_seq a b ha hb = lt-hex 16 a b ha hb

hex_value?-hex_digit : (d : ℕ) → d < 16 → hex_value? (hex_digit d) ≡ some d
unfolding hex_value? hex_digit
hex_value?-hex_digit d h = ground arith

-- Reading the digits of a number from a value `v` on shifts `v` and adds the number.
scan_digits-hex : (w v n : ℕ) → n < 16 ^ w → scan_digits w v (hex w n) ≡ v * 16 ^ w + n
unfolding scan_digits hex
scan_digits-hex zero v n h = omega arith
scan_digits-hex (suc w) v n h =
    let (q, r, e) = split_digit w n h in
    ground (
      arith,
      hex_value?-hex_digit (n / 16 ^ w) q,
      scan_digits-hex w (v * 16 + n / 16 ^ w) (n % 16 ^ w) r,
      ap (λ (t : ℕ). v * t) (pow-suc 16 w),
      e,
    )

length-hex : (w n : ℕ) → length (hex w n) ≡ w
unfolding hex
length-hex zero n = refl
length-hex (suc w) n = ap suc (length-hex w (n % 16 ^ w))

digit_not_space :
    (d : ℕ)
    → d < 16
    → (hex_digit d ≢ 32)
      × (hex_digit d ≢ 9)
      × (hex_digit d ≢ 11)
      × (hex_digit d ≢ 12)
      × (hex_digit d ≢ 13)
unfolding hex_digit
digit_not_space d h = ground arith

hex_plain :
    (w n : ℕ) → n < 16 ^ suc w → sscanf_hex (hex (suc w) n) ≡ ok (scan_digits 16 0 (hex (suc w) n))
unfolding sscanf_hex hex
hex_plain w n h = let (q, r, e) = split_digit w n h in plain (n / 16 ^ w) (hex w (n % 16 ^ w)) q
  where
    plain :
        (d : ℕ) (src : Bytes)
        → d < 16
        → sscanf_hex (hex_digit d ∷ src) ≡ ok (scan_digits 16 0 (hex_digit d ∷ src))
    plain d src hd = ground (arith, hex_value?-hex_digit d hd, digit_not_space d hd)

-- A number that fits a uint64 is read back from its key.
pub seq_from_key-key_from_seq : (n : ℕ) → IsU64 n → seq_from_key (key_from_seq n) ≡ ok n
unfolding seq_from_key key_from_seq bytes_eq
seq_from_key-key_from_seq n h =
    rw (length-hex 16 n, hex_plain 15 n h) (ap ok (scan_digits-hex 16 0 n h ∙ omega arith))
