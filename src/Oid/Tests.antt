-- ===== src/Oid/Tests.antt =====
-- oid/oid.go and `IsMetadataEqual` (datamodel/block/block.go) on concrete identifiers.
use juren_cluster.Prelude.{◌≡◌, ◌↔◌, arith, [], ◌∷◌, Bytes}
use juren_cluster.Outcome.{ok, err, invalid_oid_string, ◌>>=◌}
use juren_cluster.Oid.{zero_oid, to_string, marshal_binary, unmarshal_binary, from_string}
use juren_cluster.Oid.RoundTrip.{IsOid, from_string-to_string, unmarshal-marshal}
use juren_cluster.Oid.Accepts.{
  IsBinaryOid, unmarshal_binary_accepts, unmarshal_binary_refuses, from_string-IsOid,
}
use juren_cluster.Examples.{repeat, block_a, block_b, block_a-IsOid}

from_string-to_string_example : from_string (to_string block_a) ≡ ok block_a
from_string-to_string_example = from_string-to_string block_a block_a-IsOid

unmarshal-marshal_example :
    (marshal_binary block_a >>= λ bytes. ok (unmarshal_binary block_b bytes)) ≡ ok (block_a, ok tt)
unmarshal-marshal_example = unmarshal-marshal block_b block_a block_a-IsOid

abbrev binary_a : Bytes
binary_a = 8 ∷ 0 ∷ 0 ∷ repeat 32 1

unmarshal_binary_accepts_example :
    ((unmarshal_binary zero_oid binary_a).1 ≡ ok tt) ↔ IsBinaryOid binary_a
unmarshal_binary_accepts_example = unmarshal_binary_accepts zero_oid binary_a

-- The bytes of the identifier in datamodel/block/block_test.go.
abbrev of_block_test : Bytes
of_block_test =
    1 ∷ 170 ∷ 0 ∷ 228 ∷ 207 ∷ 226 ∷ 85 ∷ 23 ∷ 232 ∷ 10 ∷ 230 ∷ 36 ∷ 99 ∷ 170 ∷ 95 ∷ 177 ∷ 244 ∷ 47
    ∷ 191 ∷ 156 ∷ 184 ∷ 219 ∷ 100 ∷ 240 ∷ 131 ∷ 195 ∷ 248 ∷ 29 ∷ 26 ∷ 29 ∷ 161 ∷ 97 ∷ 8 ∷ 2 ∷ 243
    ∷ []

of_block_test-IsBinaryOid : ¬ IsBinaryOid of_block_test
of_block_test-IsBinaryOid (t, hash, p, n) = absurd (ground (arith, p))

unmarshal_binary_refuses_example :
    (unmarshal_binary zero_oid of_block_test).1 ≡ err invalid_oid_string
unmarshal_binary_refuses_example =
    unmarshal_binary_refuses zero_oid of_block_test of_block_test-IsBinaryOid

from_string-IsOid_example : IsOid block_a
from_string-IsOid_example =
    from_string-IsOid (to_string block_a) block_a (from_string-to_string block_a block_a-IsOid)
