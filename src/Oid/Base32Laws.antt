-- ===== src/Oid/Base32Laws.antt =====
-- Decoding reads back what was encoded.
use juren_cluster.Prelude.{
  ◌/◌, ◌%◌, ◌∙◌, ℕ, zero, suc, ◌+◌, ◌*◌, ◌<◌, ◌≡◌, refl, ◌≢◌, arith, List, [], ◌∷◌, ◌++◌, Bytes,
  length, All, some,
}
use juren_cluster.Outcome.{ok, ◌>>=◌}
use juren_cluster.Oid.Base32.{
  letter, digit?, encode_group, encode_to_string, quantum, joined, next_digits, decode,
  strip_newlines, decode_string,
}

abbrev pub IsByte : ℕ → Type 0
IsByte b = b < 256

digit?-letter : (q : ℕ) → q < 32 → digit? (letter q) ≡ some q
unfolding digit? letter
digit?-letter q h = ground arith

letter_plain : (q : ℕ) → q < 32 → (letter q ≢ 61) × (letter q ≢ 13) × (letter q ≢ 10)
unfolding letter
letter_plain q h = ground arith

decode_digit :
    (digits : List ℕ) (q : ℕ) (src : Bytes)
    → q < 32
    → decode digits (letter q ∷ src) ≡ joined digits q (decode (next_digits digits (some q)) src)
unfolding decode
decode_digit digits q src h = ground (arith, digit?-letter q h, letter_plain q h)

abbrev pub IsDigit : ℕ → Type 0
IsDigit q = q < 32

-- Eight letters are read as one quantum.
decode_letters :
    (q r s t u v w x : ℕ) (src : Bytes)
    → All IsDigit (q ∷ r ∷ s ∷ t ∷ u ∷ v ∷ w ∷ x ∷ [])
    → decode [] (
        letter q ∷ letter r ∷ letter s ∷ letter t ∷ letter u ∷ letter v ∷ letter w ∷ letter x ∷ src)
      ≡ (decode [] src >>= λ bytes. ok (quantum (q ∷ r ∷ s ∷ t ∷ u ∷ v ∷ w ∷ x ∷ []) ++ bytes))
unfolding joined next_digits
decode_letters q r s t u v w x src (hq, (hr, (hs, (ht, (hu, (hv, (hw, (hx, _)))))))) = rw (
  decode_digit [] q _ hq,
  decode_digit (q ∷ []) r _ hr,
  decode_digit (q ∷ r ∷ []) s _ hs,
  decode_digit (q ∷ r ∷ s ∷ []) t _ ht,
  decode_digit (q ∷ r ∷ s ∷ t ∷ []) u _ hu,
  decode_digit (q ∷ r ∷ s ∷ t ∷ u ∷ []) v _ hv,
  decode_digit (q ∷ r ∷ s ∷ t ∷ u ∷ v ∷ []) w _ hw,
  decode_digit (q ∷ r ∷ s ∷ t ∷ u ∷ v ∷ w ∷ []) x _ hx,
)

digits_in_range :
    (a b c d e : ℕ)
    → All IsByte (a ∷ b ∷ c ∷ d ∷ e ∷ [])
    → All IsDigit (
        a / 8
        ∷ (a % 8 * 4 + b / 64)
        ∷ b / 2 % 32
        ∷ (b % 2 * 16 + c / 16)
        ∷ (c % 16 * 2 + d / 128)
        ∷ d / 4 % 32
        ∷ (d % 4 * 8 + e / 32)
        ∷ e % 32
        ∷ [])
digits_in_range a b c d e h = omega arith

-- The five bytes of a group are read back from its eight digits.
quantum_group :
    (a b c d e : ℕ)
    → All IsByte (a ∷ b ∷ c ∷ d ∷ e ∷ [])
    → quantum (
        a / 8
        ∷ (a % 8 * 4 + b / 64)
        ∷ b / 2 % 32
        ∷ (b % 2 * 16 + c / 16)
        ∷ (c % 16 * 2 + d / 128)
        ∷ d / 4 % 32
        ∷ (d % 4 * 8 + e / 32)
        ∷ e % 32
        ∷ [])
      ≡ a ∷ b ∷ c ∷ d ∷ e ∷ []
unfolding quantum
quantum_group a b c d e h = ground arith

decode-encode_group :
    (a b c d e : ℕ) (src : Bytes)
    → All IsByte (a ∷ b ∷ c ∷ d ∷ e ∷ [])
    → decode [] (encode_group a b c d e ++ src)
      ≡ (decode [] src >>= λ bytes. ok (a ∷ b ∷ c ∷ d ∷ e ∷ bytes))
unfolding encode_group
decode-encode_group a b c d e src h =
    decode_letters _ _ _ _ _ _ _ _ src (digits_in_range a b c d e h)
    ∙ rw (quantum_group a b c d e h)

-- Whole groups of five bytes are read back.
decode-encode_to_string :
    (k : ℕ) (bytes : Bytes)
    → length bytes ≡ 5 * k
    → All IsByte bytes
    → decode [] (encode_to_string bytes) ≡ ok bytes
unfolding encode_to_string
decode-encode_to_string k [] e h = unfold decode in refl
decode-encode_to_string k (a ∷ []) e h = absurd (omega arith)
decode-encode_to_string k (a ∷ b ∷ []) e h = absurd (omega arith)
decode-encode_to_string k (a ∷ b ∷ c ∷ []) e h = absurd (omega arith)
decode-encode_to_string k (a ∷ b ∷ c ∷ d ∷ []) e h = absurd (omega arith)
decode-encode_to_string zero (a ∷ b ∷ c ∷ d ∷ f ∷ bytes) e h = absurd (omega arith)
decode-encode_to_string (suc k) (a ∷ b ∷ c ∷ d ∷ f ∷ bytes) e (ha, (hb, (hc, (hd, (hf, hs))))) =
    rw (
      decode-encode_group a b c d f (encode_to_string bytes) (ha, (hb, (hc, (hd, (hf, tt))))),
      decode-encode_to_string k bytes (omega arith) hs,
    )

strip_letter :
    (q : ℕ) (src : Bytes) → q < 32 → strip_newlines (letter q ∷ src) ≡ letter q ∷ strip_newlines src
unfolding strip_newlines
strip_letter q src h = ground (arith, letter_plain q h)

strip-encode_group :
    (a b c d e : ℕ) (src : Bytes)
    → All IsByte (a ∷ b ∷ c ∷ d ∷ e ∷ [])
    → strip_newlines (encode_group a b c d e ++ src) ≡ encode_group a b c d e ++ strip_newlines src
unfolding encode_group
strip-encode_group a b c d e src h =
    let (h1, (h2, (h3, (h4, (h5, (h6, (h7, (h8, _)))))))) = digits_in_range a b c d e h in
    rw (
      strip_letter _ _ h1,
      strip_letter _ _ h2,
      strip_letter _ _ h3,
      strip_letter _ _ h4,
      strip_letter _ _ h5,
      strip_letter _ _ h6,
      strip_letter _ _ h7,
      strip_letter _ _ h8,
    )

strip-encode_to_string :
    (k : ℕ) (bytes : Bytes)
    → length bytes ≡ 5 * k
    → All IsByte bytes
    → strip_newlines (encode_to_string bytes) ≡ encode_to_string bytes
unfolding encode_to_string
strip-encode_to_string k [] e h = unfold strip_newlines in refl
strip-encode_to_string k (a ∷ []) e h = absurd (omega arith)
strip-encode_to_string k (a ∷ b ∷ []) e h = absurd (omega arith)
strip-encode_to_string k (a ∷ b ∷ c ∷ []) e h = absurd (omega arith)
strip-encode_to_string k (a ∷ b ∷ c ∷ d ∷ []) e h = absurd (omega arith)
strip-encode_to_string zero (a ∷ b ∷ c ∷ d ∷ f ∷ bytes) e h = absurd (omega arith)
strip-encode_to_string (suc k) (a ∷ b ∷ c ∷ d ∷ f ∷ bytes) e (ha, (hb, (hc, (hd, (hf, hs))))) = rw (
  strip-encode_group a b c d f (encode_to_string bytes) (ha, (hb, (hc, (hd, (hf, tt))))),
  strip-encode_to_string k bytes (omega arith) hs,
)

pub decode_string-encode_to_string :
    (k : ℕ) (bytes : Bytes)
    → length bytes ≡ 5 * k
    → All IsByte bytes
    → decode_string (encode_to_string bytes) ≡ ok bytes
unfolding decode_string
decode_string-encode_to_string k bytes e h =
    rw (strip-encode_to_string k bytes e h) (decode-encode_to_string k bytes e h)
