-- ===== src/Oid/Accepts.antt =====
-- What `UnmarshalBinary` and `FromString` (oid/oid.go) accept, and what they answer otherwise.
use mathlib.Core.Path.{subst}
use juren_cluster.Prelude.{
  ◌≢◌, ◌⊎◌, if◌then◌else◌, Bool-cases, inl, inr, ◌==◌, ℕ, ◌≡◌, refl, sym, ◌∙◌, arith, [], ◌∷◌,
  Bytes, length, All, ◌↔◌,
}
use juren_cluster.Outcome.{
  stuck, Result, ok, err, panic, stuck, ◌>>=◌, invalid_oid_string, invalid_oid_format,
}
use juren_cluster.Oid.Base32.{decode_string}
use juren_cluster.Oid.Base32Bytes.{decode_string-IsByte}
use juren_cluster.Oid.Base32Laws.{IsByte}
use juren_cluster.Oid.{Oid, zero_oid, unmarshal_fields, unmarshal_binary, parsed, from_string}
use juren_cluster.Oid.RoundTrip.{IsOid, oid_of}

-- A type byte, two zero bytes and 32 bytes more.
abbrev pub IsBinaryOid : Bytes → Type 0
IsBinaryOid bytes = (t : ℕ) × (hash : Bytes) × (bytes ≡ t ∷ 0 ∷ 0 ∷ hash) × (length hash ≡ 32)

fields_ok :
    (r : Oid) (bytes : Bytes)
    → length bytes ≡ 35
    → (unmarshal_fields r bytes).1 ≡ ok tt
    → (t : ℕ) × (hash : Bytes) × (bytes ≡ t ∷ 0 ∷ 0 ∷ hash)
      × (length hash ≡ 32)
      × ((unmarshal_fields r bytes).0 ≡ oid_of t hash)
unfolding unmarshal_fields oid_of
fields_ok r [] n e = absurd (omega arith)
fields_ok r (t ∷ []) n e = absurd (omega arith)
fields_ok r (t ∷ p ∷ []) n e = absurd (omega arith)
fields_ok r (t ∷ p ∷ q ∷ hash) n e = (t, hash, ground (arith, e), omega arith, ground (arith, e))

unmarshal_ok :
    (r : Oid) (bytes : Bytes)
    → (unmarshal_binary r bytes).1 ≡ ok tt
    → (t : ℕ) × (hash : Bytes) × (bytes ≡ t ∷ 0 ∷ 0 ∷ hash)
      × (length hash ≡ 32)
      × ((unmarshal_binary r bytes).0 ≡ oid_of t hash)
unfolding unmarshal_binary
unmarshal_ok r bytes e = elim (Bool-cases (length bytes == 35)) [
  | inl size ↦
      let n : length bytes ≡ 35 = ground (arith, size) in
      rw (unfold_size r bytes n) (fields_ok r bytes n (rw (unfold_size r bytes n) at e))
  | inr size ↦ absurd (ground (arith, size, e))
]
  where
    unfold_size :
        (o : Oid) (bs : Bytes) → length bs ≡ 35 → unmarshal_binary o bs ≡ unmarshal_fields o bs
    unfold_size o bs n = rw n

unmarshal_made :
    (r : Oid) (t : ℕ) (hash : Bytes)
    → length hash ≡ 32
    → (unmarshal_binary r (t ∷ 0 ∷ 0 ∷ hash)).1 ≡ ok tt
unfolding unmarshal_binary
unmarshal_made r t hash n = rw n

-- Whatever the receiver held, `UnmarshalBinary` succeeds exactly on a type byte, two zero bytes
-- and 32 bytes more. So the identifier of block_test.go, whose bytes begin with 1, 170, 0, is
-- not accepted, nor is one with the version first and the type third, as docs/concepts.md lays
-- it out, unless its type is zero.
pub unmarshal_binary_accepts :
    (r : Oid) (bytes : Bytes) → ((unmarshal_binary r bytes).1 ≡ ok tt) ↔ IsBinaryOid bytes
unmarshal_binary_accepts r bytes = (
  λ e. let (t, hash, p, n, _) = unmarshal_ok r bytes e in (t, hash, p, n),
  λ h. let (t, hash, p, n) = h in rw p (unmarshal_made r t hash n),
)

fields_cases :
    (r : Oid) (bytes : Bytes)
    → ((unmarshal_fields r bytes).1 ≡ ok tt)
      ⊎ ((unmarshal_fields r bytes).1 ≡ err invalid_oid_string)
unfolding unmarshal_fields
fields_cases r [] = inr refl
fields_cases r (t ∷ []) = inr refl
fields_cases r (t ∷ p ∷ []) = inr refl
fields_cases r (t ∷ p ∷ q ∷ hash) = ground arith

-- Whatever the receiver held, on any input but a type byte, two zero bytes and 32 bytes more
-- `UnmarshalBinary` gives the error of an invalid format if the input is empty, and of an
-- invalid string if it is not. The identifier of block_test.go, whose bytes begin with 1, 170,
-- 0, is such an input, and so is one with the version first and a type that is not zero third,
-- as docs/concepts.md lays it out.
pub unmarshal_binary_refuses :
    (r : Oid) (bytes : Bytes)
    → ¬ IsBinaryOid bytes
    → (unmarshal_binary r bytes).1
      ≡ err (if length bytes == 0 then invalid_oid_format else invalid_oid_string)
unmarshal_binary_refuses r bytes h = elim (fields_cases r bytes) [
  | inl good ↦ not_accepted (λ e. h ((unmarshal_binary_accepts r bytes).0 e)) (inl good)
  | inr bad ↦ not_accepted (λ e. h ((unmarshal_binary_accepts r bytes).0 e)) (inr bad)
]
  where
    not_accepted :
        ¬ ((unmarshal_binary r bytes).1 ≡ ok tt)
        → ((unmarshal_fields r bytes).1 ≡ ok tt)
          ⊎ ((unmarshal_fields r bytes).1 ≡ err invalid_oid_string)
        → (unmarshal_binary r bytes).1
          ≡ err (if length bytes == 0 then invalid_oid_format else invalid_oid_string)
    not_accepted n c = unfold unmarshal_binary in ground (arith, n, c)

pub unmarshal_binary-ends : (r : Oid) (bytes : Bytes) → (unmarshal_binary r bytes).1 ≢ stuck
unfolding unmarshal_binary
unmarshal_binary-ends r bytes = elim (fields_cases r bytes) [
  | inl good ↦ ground (arith, good)
  | inr bad ↦ ground (arith, bad)
]

parsed_ok : (m : Oid × Result (Unit {0})) (o : Oid) → parsed m ≡ ok o → (m.1 ≡ ok tt) × (m.0 ≡ o)
unfolding parsed
parsed_ok (p, ok u) o e = (refl, ground (arith, e))
parsed_ok (p, err x) o e = absurd (ground (arith, e))
parsed_ok (p, panic x) o e = absurd (ground (arith, e))
parsed_ok (p, stuck) o e = absurd (ground (arith, e))

decoded_cases :
    (r : Result Bytes) (o : Oid)
    → (r >>= λ oid_bytes. parsed (unmarshal_binary zero_oid oid_bytes)) ≡ ok o
    → (bytes : Bytes) × (r ≡ ok bytes) × (parsed (unmarshal_binary zero_oid bytes) ≡ ok o)
decoded_cases (ok bytes) o e = (bytes, refl, e)
decoded_cases (err x) o e = absurd (ground (arith, e))
decoded_cases (panic x) o e = absurd (ground (arith, e))
decoded_cases stuck o e = absurd (ground (arith, e))

-- Whatever text parses, the result is the identifier of a type byte and a hash of 32 bytes, with
-- its text.
pub from_string-IsOid : (s : Bytes) (o : Oid) → from_string s ≡ ok o → IsOid o
unfolding from_string
from_string-IsOid s o e =
    let (bytes, decoded, fields) = decoded_cases (decode_string s) o e in
    let (good, same) = parsed_ok (unmarshal_binary zero_oid bytes) o fields in
    let (t, hash, p, n, made) = unmarshal_ok zero_oid bytes good in
    let all = subst (All IsByte) p (decode_string-IsByte s bytes decoded) in
    record {
      kind = t;
      hash = hash;
      kind_byte = all.0;
      hash_size = n;
      hash_bytes = all.1.1.1;
      fields = sym same ∙ made;
    }
