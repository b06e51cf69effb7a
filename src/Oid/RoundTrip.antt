-- ===== src/Oid/RoundTrip.antt =====
-- The text and the binary form of an identifier (oid/oid.go) are read back to the identifier.
use juren_cluster.Prelude.{
  ℕ, ◌%◌, ◌<◌, ◌≡◌, sym, ap, arith, some, ◌∷◌, Bytes, length, All, ◌↔◌, true, bytes_eq_iff,
}
use mathlib.Core.Path.{subst}
use juren_cluster.Outcome.{ok, ◌>>=◌}
use juren_cluster.Oid.Base32.{encode_to_string, decode_string}
use juren_cluster.Oid.Base32Laws.{IsByte, decode_string-encode_to_string}
use juren_cluster.Json.{string_of}
use juren_cluster.Oid.{
  marshal_json, replaced, unmarshal_json, Oid, zero_oid, to_string, marshal_binary,
  unmarshal_binary, encode, from_string, equal, oid_eq, oid_padding_byte,
}

-- The identifier of one type byte and a hash.
unfoldable pub oid_of : ℕ → Bytes → Oid
oid_of t hash =
    let bytes = t ∷ oid_padding_byte ∷ oid_padding_byte ∷ hash in
    record { b = bytes; t = t; s = encode_to_string bytes }

-- The identifiers that a type byte and a hash of 32 bytes make.
pub record IsOid (o : Oid) : Type 0 where
  pub kind : ℕ
  pub hash : Bytes
  pub kind_byte : kind < 256
  pub hash_size : length hash ≡ 32
  pub hash_bytes : All IsByte hash
  pub fields : o ≡ oid_of kind hash

encode-eq-oid_of : (t : ℕ) (hash : Bytes) → t < 256 → encode t hash ≡ ok (oid_of t hash)
unfolding encode oid_of
encode-eq-oid_of t hash h = let e : t % 256 ≡ t = omega arith in rw e

pub encode-IsOid :
    (t : ℕ) (hash : Bytes) (o : Oid)
    → t < 256
    → length hash ≡ 32
    → All IsByte hash
    → encode t hash ≡ ok o
    → IsOid o
encode-IsOid t hash o h size bytes e = record {
  kind = t;
  hash = hash;
  kind_byte = h;
  hash_size = size;
  hash_bytes = bytes;
  fields = cc (e, encode-eq-oid_of t hash h);
}

unmarshal_oid_of :
    (r : Oid) (t : ℕ) (hash : Bytes)
    → length hash ≡ 32
    → unmarshal_binary r (oid_of t hash).b ≡ (oid_of t hash, ok tt)
unfolding unmarshal_binary oid_of
unmarshal_oid_of r t hash size = rw size

-- Whatever the receiver held, unmarshalling what `MarshalBinary` gives for an identifier makes
-- it that identifier, without an error.
pub unmarshal-marshal :
    (r o : Oid)
    → IsOid o
    → (marshal_binary o >>= λ bytes. ok (unmarshal_binary r bytes)) ≡ ok (o, ok tt)
unmarshal-marshal r o h =
    subst (λ p. ok (unmarshal_binary r p.b) ≡ ok (p, ok tt)) (sym h.fields)
      (ap ok (unmarshal_oid_of r h.kind h.hash h.hash_size))

decode_oid_of :
    (t : ℕ) (hash : Bytes)
    → t < 256
    → length hash ≡ 32
    → All IsByte hash
    → decode_string (oid_of t hash).s ≡ ok (oid_of t hash).b
unfolding oid_of
decode_oid_of t hash h size bytes =
    decode_string-encode_to_string 7 (t ∷ 0 ∷ 0 ∷ hash) (omega arith)
      (h, (omega arith, (omega arith, bytes)))

from_string-oid_of :
    (t : ℕ) (hash : Bytes)
    → t < 256
    → length hash ≡ 32
    → All IsByte hash
    → from_string (oid_of t hash).s ≡ ok (oid_of t hash)
unfolding from_string
from_string-oid_of t hash h size bytes =
    rw (decode_oid_of t hash h size bytes, unmarshal_oid_of zero_oid t hash size)

-- The text of an identifier parses to the identifier.
pub from_string-to_string : (o : Oid) → IsOid o → from_string (to_string o) ≡ ok o
from_string-to_string o h =
    subst (λ p. from_string p.s ≡ ok p) (sym h.fields)
      (from_string-oid_of h.kind h.hash h.kind_byte h.hash_size h.hash_bytes)

-- So two identifiers with one text are equal.
pub to_string_injective : (o p : Oid) → IsOid o → IsOid p → to_string o ≡ to_string p → o ≡ p
to_string_injective o p ho hp e =
    cc (from_string-to_string o ho, from_string-to_string p hp, ap from_string e)

-- For a type below 256 and a hash of 32 bytes, the text of what `Encode` makes parses to what it
-- makes.
pub from_string-encode :
    (t : ℕ) (hash : Bytes)
    → t < 256
    → length hash ≡ 32
    → All IsByte hash
    → (encode t hash >>= λ o. from_string (to_string o)) ≡ encode t hash
from_string-encode t hash h size bytes =
    rw (encode-eq-oid_of t hash h) (from_string-oid_of t hash h size bytes)

pub unmarshal_json-marshal_json :
    (r o : Oid) → IsOid o → unmarshal_json r (marshal_json o) ≡ (o, ok tt)
unfolding unmarshal_json replaced string_of
unmarshal_json-marshal_json r o h = rw (from_string-to_string o h)

-- Go's `==` on identifiers is equality.
pub oid_eq_iff : (o p : Oid) → (oid_eq o p ≡ true) ↔ (o ≡ p)
unfolding oid_eq
oid_eq_iff o p = (
  λ h. ground (arith, bytes_eq_iff o.b p.b, bytes_eq_iff o.s p.s),
  λ h. ground (arith, bytes_eq_iff o.b p.b, bytes_eq_iff o.s p.s),
)

bytes_determine : (o p : Oid) → IsOid o → IsOid p → o.b ≡ p.b → o ≡ p
bytes_determine o p ho hp e =
    cc (unmarshal-marshal zero_oid o ho, unmarshal-marshal zero_oid p hp, e)

-- `Equal` of two identifiers, which compares their bytes alone, is true exactly if they are
-- equal in all fields.
pub equal_iff : (o p : Oid) → IsOid o → IsOid p → (equal (some o) (some p) ≡ true) ↔ (o ≡ p)
unfolding equal
equal_iff o p ho hp = (
  λ h. bytes_determine o p ho hp ((bytes_eq_iff o.b p.b).0 h),
  λ h. (bytes_eq_iff o.b p.b).1 (ap (λ q. q.b) h),
)
