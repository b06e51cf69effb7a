-- ===== src/Oid/Base32Bytes.antt =====
-- What a successful decoding gives are bytes.
use juren_cluster.Prelude.{
  ltb, leb, ◌&&◌, Option-cases, Bool-cases, ◌==◌, All-append, ◌⊎◌, inl, inr, ℕ, ◌≡◌, refl, arith,
  List, [], ◌∷◌, ◌++◌, Bytes, length, All, some,
}
use mathlib.Core.Path.{subst}
use juren_cluster.Outcome.{panic, stuck, Result, ok, err}
use juren_cluster.Oid.Base32.{
  pad, digit?, quantum, finish, joined, next_digits, decode, strip_newlines, decode_string,
}
use juren_cluster.Oid.Base32Laws.{IsByte, IsDigit}

quantum-IsByte : (digits : List ℕ) → All IsDigit digits → All IsByte (quantum digits)
unfolding quantum
quantum-IsByte (q ∷ r ∷ []) h = omega arith
quantum-IsByte (q ∷ r ∷ s ∷ t ∷ []) h = omega arith
quantum-IsByte (q ∷ r ∷ s ∷ t ∷ u ∷ []) h = omega arith
quantum-IsByte (q ∷ r ∷ s ∷ t ∷ u ∷ v ∷ w ∷ []) h = omega arith
quantum-IsByte (q ∷ r ∷ s ∷ t ∷ u ∷ v ∷ w ∷ x ∷ []) h = omega arith
quantum-IsByte _ h = tt

digit?-IsDigit : (c q : ℕ) → digit? c ≡ some q → IsDigit q
unfolding digit?
digit?-IsDigit c q h = ground arith

finish-IsByte :
    (digits : List ℕ) (src bytes : Bytes)
    → All IsDigit digits
    → finish digits src ≡ ok bytes
    → All IsByte bytes
unfolding finish
finish-IsByte digits src bytes h e =
    subst (All IsByte) (finished digits src bytes e) (quantum-IsByte digits h)
  where
    finished : (ds : List ℕ) (cs bs : Bytes) → finish ds cs ≡ ok bs → quantum ds ≡ bs
    finished ds cs bs p = ground arith

next_digits-IsDigit :
    (digits : List ℕ) (q : ℕ)
    → All IsDigit digits
    → IsDigit q
    → All IsDigit (next_digits digits (some q))
unfolding next_digits
next_digits-IsDigit digits q h hq = elim (Bool-cases (length digits == 7)) [
  | inl e ↦ rw e tt
  | inr e ↦ rw e (All-append IsDigit digits (q ∷ []) h (hq, tt))
]

joined-IsByte :
    (digits : List ℕ) (q : ℕ) (rest : Result Bytes) (bytes : Bytes)
    → All IsDigit digits
    → IsDigit q
    → ((bs : Bytes) → rest ≡ ok bs → All IsByte bs)
    → joined digits q rest ≡ ok bytes
    → All IsByte bytes
unfolding joined
joined-IsByte digits q (ok bs) bytes h hq k e = elim (Bool-cases (length digits == 7)) [
  | inl full ↦
      let joined_bytes : quantum (digits ++ q ∷ []) ++ bs ≡ bytes = ground (arith, full, e) in
      subst (All IsByte) joined_bytes (
        All-append IsByte (quantum (digits ++ q ∷ [])) bs
          (quantum-IsByte (digits ++ q ∷ []) (All-append IsDigit digits (q ∷ []) h (hq, tt)))
          (k bs refl))
  | inr part ↦
      let same : bs ≡ bytes = ground (arith, part, e) in subst (All IsByte) same (k bs refl)
]
joined-IsByte digits q (err x) bytes h hq k e = absurd (ground (arith, e))
joined-IsByte digits q (panic x) bytes h hq k e = absurd (ground (arith, e))
joined-IsByte digits q stuck bytes h hq k e = absurd (ground (arith, e))

decode_cases :
    (digits : List ℕ) (c : ℕ) (src bytes : Bytes)
    → decode digits (c ∷ src) ≡ ok bytes
    → (finish digits src ≡ ok bytes)
      ⊎ ((q : ℕ) × (digit? c ≡ some q)
          × (joined digits q (decode (next_digits digits (some q)) src) ≡ ok bytes))
unfolding decode
decode_cases digits c src bytes e =
    elim (Bool-cases (c == pad && (leb 2 (length digits) && ltb (length src) 8))) [
      | inl end ↦ inl (ground (arith, end, e))
      | inr more ↦ elim (Option-cases (digit? c)) [
        | inl bad ↦ absurd (ground (arith, more, bad, e))
        | inr (q, good) ↦ inr (q, good, ground (arith, more, good, e))
      ]
    ]

decode-IsByte :
    (digits : List ℕ) (src bytes : Bytes)
    → All IsDigit digits
    → decode digits src ≡ ok bytes
    → All IsByte bytes
decode-IsByte [] [] bytes h e =
    subst (All IsByte) (let p : [] ≡ bytes = unfold decode in ground (arith, e) in p) tt
decode-IsByte (d ∷ digits) [] bytes h e = absurd (unfold decode in ground (arith, e))
decode-IsByte digits (c ∷ src) bytes h e = elim (decode_cases digits c src bytes e) [
  | inl end ↦ finish-IsByte digits src bytes h end
  | inr (q, good, more) ↦
      joined-IsByte digits q _ bytes h (digit?-IsDigit c q good)
        (λ bs p.
          decode-IsByte (next_digits digits (some q)) src bs
            (next_digits-IsDigit digits q h (digit?-IsDigit c q good)) p)
        more
]

pub decode_string-IsByte : (s bytes : Bytes) → decode_string s ≡ ok bytes → All IsByte bytes
unfolding decode_string
decode_string-IsByte s bytes e = decode-IsByte [] (strip_newlines s) bytes tt e
