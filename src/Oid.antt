-- ===== src/Oid.antt =====
-- oid/oid.go: object identifiers, their binary form and their Base32 text.
-- The children: `Base32` is the encoding of Go's `encoding/base32` that the file calls.
mod Base32
pub mod Base32Laws
mod Base32Bytes
pub mod RoundTrip
pub mod Accepts
mod Tests
use juren_cluster.Prelude.{
  ℕ, ◌%◌, Bool, true, false, not, ◌||◌, ◌&&◌, Option, none, some, List, [], ◌∷◌, Bytes, bytes_eq,
  length, ◌==◌, if◌then◌else◌,
}
use juren_cluster.Outcome.{
  Result, ok, err, panic, stuck, ◌>>=◌, invalid_oid_string, invalid_oid_format, corrupt_input,
}
use juren_cluster.Json.{Json, text, string_of}
use Base32.{encode_to_string, decode_string}

-- `OidType`: the constants of the file, and the byte that pads an identifier.
abbrev pub oid_type_raw_block : ℕ
oid_type_raw_block = 0x08

abbrev pub oid_type_object : ℕ
oid_type_object = 0x70

abbrev pub oid_type_node : ℕ
oid_type_node = 0x68

abbrev pub oid_type_object_set : ℕ
oid_type_object_set = 0x90

abbrev pub oid_padding_byte : ℕ
oid_padding_byte = 0x00

-- The 35 bytes, the cached type and the cached text.
pub record Oid : Type 0 where
  pub b : Bytes
  pub t : ℕ
  pub s : Bytes

-- The zero value: `&Oid{}`.
abbrev pub zero_oid : Oid
zero_oid = record {
  b =
      0 ∷ 0 ∷ 0 ∷ 0 ∷ 0 ∷ 0 ∷ 0 ∷ 0 ∷ 0 ∷ 0 ∷ 0 ∷ 0 ∷ 0 ∷ 0 ∷ 0 ∷ 0 ∷ 0 ∷ 0 ∷ 0 ∷ 0 ∷ 0 ∷ 0 ∷ 0 ∷ 0
      ∷ 0 ∷ 0 ∷ 0 ∷ 0 ∷ 0 ∷ 0 ∷ 0 ∷ 0 ∷ 0 ∷ 0 ∷ 0 ∷ [];
  t = 0;
  s = [];
}

abbrev pub to_string : Oid → Bytes
to_string o = o.s

abbrev pub get_type : Oid → ℕ
get_type o = o.t

abbrev pub marshal_binary : Oid → Result Bytes
marshal_binary o = ok o.b

-- What `UnmarshalBinary` does with the 35 bytes: the type is stored before the padding is tested.
unmarshal_fields : Oid → Bytes → Oid × Result (Unit {0})
unmarshal_fields o (t ∷ p ∷ q ∷ hash) =
    if not (p == oid_padding_byte) || not (q == oid_padding_byte)
    then (record o { t = t }, err invalid_oid_string)
    else (record { b = t ∷ p ∷ q ∷ hash; t = t; s = encode_to_string (t ∷ p ∷ q ∷ hash) }, ok tt)
unmarshal_fields o _ = (o, err invalid_oid_string)

-- The receiver is changed in place, so the method returns it beside its error.
pub unmarshal_binary : Oid → Bytes → Oid × Result (Unit {0})
unfolding unmarshal_fields
unmarshal_binary o bytes =
    if length bytes == 0
    then (o, err invalid_oid_format)
    else if not (length bytes == 35)
    then (o, err invalid_oid_string)
    else unmarshal_fields o bytes

-- `byte(t)` keeps the low eight bits of the type; the cached type is the whole number.
pub encode : ℕ → Bytes → Result Oid
encode t hash =
    let oidbytes = (t % 256) ∷ oid_padding_byte ∷ oid_padding_byte ∷ hash in
    ok (record { b = oidbytes; t = t; s = encode_to_string oidbytes })

-- `o, err` after `o.UnmarshalBinary`.
parsed : Oid × Result (Unit {0}) → Result Oid
parsed (o, r) = r >>= λ _. ok o

pub from_string : Bytes → Result Oid
unfolding parsed
from_string s = decode_string s >>= λ oid_bytes. parsed (unmarshal_binary zero_oid oid_bytes)

-- `json.Marshal` of the text: a string of JSON.
abbrev pub marshal_json : Oid → Json
marshal_json o = text (to_string o)

replaced : Oid → Result Oid → Oid × Result (Unit {0})
replaced o (ok p) = (p, ok tt)
replaced o (err e) = (o, err e)
replaced o (panic x) = (o, panic x)
replaced o stuck = (o, stuck)

-- The receiver is replaced as a whole.
pub unmarshal_json : Oid → Json → Oid × Result (Unit {0})
unfolding replaced from_string
unmarshal_json o json = replaced o (string_of json >>= from_string)

-- `rand.Read` gives 32 bytes or an error.
pub random : ℕ → Result Bytes → Result Oid
random t read = read >>= encode t

-- The arguments are pointers, and `none` is nil.
pub equal : Option Oid → Option Oid → Bool
equal none none = true
equal none (some p) = false
equal (some o) none = false
equal (some o) (some p) = bytes_eq o.b p.b

-- Go's `==` on two identifiers compares all fields.
unfoldable pub oid_eq : Oid → Oid → Bool
oid_eq o p = bytes_eq o.b p.b && (o.t == p.t && bytes_eq o.s p.s)
