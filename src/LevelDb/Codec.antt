-- ===== src/LevelDb/Codec.antt =====
-- The encoder of the storage in memory: metadata (datamodel) as numbers, a time in whole seconds.
use juren_cluster.Prelude.{
  ◌≢◌, ℕ, zero, suc, ◌*◌, ◌/◌, ◌≡◌, refl, ◌∙◌, arith, Bool, true, false, Option, none, some, List,
  [], ◌∷◌, ◌++◌, map, Bytes,
}
use mathlib.Core.List.{append_assoc, append-nil}
use juren_cluster.Outcome.{Result, ok, err, decode_error, ◌>>=◌, panic, stuck}
use juren_cluster.Oid.{Oid, zero_oid, unmarshal_binary}
use juren_cluster.Oid.RoundTrip.{IsOid, unmarshal-marshal}
use juren_cluster.Oid.Accepts.{unmarshal_binary-ends}
use juren_cluster.DataModel.{
  Time, Metadata, ExtendedMetadata, NodeMetadata, Capability, persistent_storage, accepting_blocks,
}

-- Rows of numbers in one list: each number one higher, each row ended by 0.
pack_row : List ℕ → Bytes → Bytes
pack_row [] rest = 0 ∷ rest
pack_row (c ∷ row) rest = suc c ∷ pack_row row rest

pack : List Bytes → Bytes
unfolding pack_row
pack [] = []
pack (row ∷ rows) = pack_row row (pack rows)

unpack : Bytes → Bytes → List Bytes
unpack row [] = []
unpack row (zero ∷ rest) = row ∷ unpack [] rest
unpack row (suc c ∷ rest) = unpack (row ++ c ∷ []) rest

unpack-pack_row :
    (front row : Bytes) (rest : Bytes)
    → unpack front (pack_row row rest) ≡ (front ++ row) ∷ unpack [] rest
unfolding pack_row unpack
unpack-pack_row front [] rest = rw append-nil
unpack-pack_row front (c ∷ row) rest =
    unpack-pack_row (front ++ c ∷ []) row rest ∙ rw (append_assoc front (c ∷ []) row)

unpack-pack : (rows : List Bytes) → unpack [] (pack rows) ≡ rows
unfolding pack
unpack-pack [] = unfold unpack in refl
unpack-pack (row ∷ rows) = unpack-pack_row [] row (pack rows) ∙ rw (unpack-pack rows)

-- cbor keeps whole seconds.
abbrev second : ℕ
second = 1000000000

to_bit : Bool → ℕ
to_bit true = 1
to_bit false = 0

of_bit : ℕ → Bool
of_bit zero = false
of_bit (suc n) = true

unfoldable pub encode_block : ExtendedMetadata → Option Metadata → Bytes
unfolding to_bit
encode_block em none = em.sequence_number ∷ []
encode_block em (some m) =
    em.sequence_number ∷ m.length ∷ (m.update_time.instant / second) ∷ to_bit m.is_deleted ∷ m.oid.b

of_unmarshalled : Oid × Result (Unit {0}) → (Oid → ExtendedMetadata) → Result ExtendedMetadata
of_unmarshalled (o, r) f = r >>= λ _. ok (f o)

unfoldable pub decode_block : Bytes → Result ExtendedMetadata
unfolding of_unmarshalled of_bit
decode_block [] = err decode_error
decode_block (n ∷ []) = ok (record { sequence_number = n; metadata = none })
decode_block (n ∷ len ∷ secs ∷ deleted ∷ oid) =
    of_unmarshalled (unmarshal_binary zero_oid oid) (λ o. record {
      sequence_number = n;
      metadata = some (record {
        oid = o;
        length = len;
        update_time = record { instant = secs * second; form = 0 };
        is_deleted = of_bit deleted;
      });
    })
decode_block _ = err decode_error

of_unmarshalled-ends :
    (o : Oid) (r : Result (Unit {0})) (f : Oid → ExtendedMetadata)
    → r ≢ stuck
    → of_unmarshalled (o, r) f ≢ stuck
unfolding of_unmarshalled
of_unmarshalled-ends o (ok u) f ne e = cc e
of_unmarshalled-ends o (err x) f ne e = cc e
of_unmarshalled-ends o (panic p) f ne e = cc e
of_unmarshalled-ends o stuck f ne e = ne refl

pub decode_block-ends : (raw : Bytes) → decode_block raw ≢ stuck
unfolding decode_block
decode_block-ends [] e = cc e
decode_block-ends (n ∷ []) e = cc e
decode_block-ends (n ∷ len ∷ []) e = cc e
decode_block-ends (n ∷ len ∷ secs ∷ []) e = cc e
decode_block-ends (n ∷ len ∷ secs ∷ deleted ∷ oid) e =
    of_unmarshalled-ends (unmarshal_binary zero_oid oid).0 (unmarshal_binary zero_oid oid).1
      (λ o. record {
        sequence_number = n;
        metadata = some (record {
          oid = o;
          length = len;
          update_time = record { instant = secs * second; form = 0 };
          is_deleted = of_bit deleted;
        });
      })
      (unmarshal_binary-ends zero_oid oid) e

capability_code : Capability → ℕ
capability_code persistent_storage = 0
capability_code accepting_blocks = 1

capability_of : ℕ → Capability
capability_of zero = persistent_storage
capability_of (suc n) = accepting_blocks

unfoldable pub encode_node : NodeMetadata → Bytes
unfolding capability_code pack
encode_node m = pack (
    (m.sequence_number
      ∷ (m.last_seen.instant / second)
      ∷ m.storage_usage.total_bytes
      ∷ m.storage_usage.used_bytes
      ∷ m.storage_usage.available_bytes
      ∷ [])
    ∷ m.node_id.b
    ∷ map capability_code m.capabilities
    ∷ m.addresses)

of_node : Oid × Result (Unit {0}) → (Oid → NodeMetadata) → Result NodeMetadata
of_node (o, r) f = r >>= λ _. ok (f o)

decode_rows : List Bytes → Result NodeMetadata
unfolding of_node capability_of
decode_rows ((n ∷ secs ∷ total ∷ used ∷ available ∷ []) ∷ id ∷ caps ∷ addresses) =
    of_node (unmarshal_binary zero_oid id) (λ o. record {
      node_id = o;
      addresses = addresses;
      sequence_number = n;
      last_seen = record { instant = secs * second; form = 0 };
      capabilities = map capability_of caps;
      storage_usage = record {
        total_bytes = total;
        used_bytes = used;
        available_bytes = available;
      };
    })
decode_rows _ = err decode_error

unfoldable pub decode_node : Bytes → Result NodeMetadata
unfolding decode_rows unpack
decode_node raw = decode_rows (unpack [] raw)

unmarshalled : (o : Oid) → IsOid o → unmarshal_binary zero_oid o.b ≡ (o, ok tt)
unmarshalled o h = ground (arith, unmarshal-marshal zero_oid o h)

capabilities_back : (cs : List Capability) → map capability_of (map capability_code cs) ≡ cs
unfolding capability_of capability_code
capabilities_back [] = refl
capabilities_back (persistent_storage ∷ cs) = rw (capabilities_back cs)
capabilities_back (accepting_blocks ∷ cs) = rw (capabilities_back cs)

abbrev pub truncated : Time → Time
truncated t = record { instant = t.instant / second * second; form = 0 }

pub decode-encode_block :
    (n : ℕ) (m : Metadata)
    → IsOid m.oid
    → decode_block (encode_block (record { sequence_number = n; metadata = some m }) (some m))
      ≡ ok (record {
        sequence_number = n;
        metadata = some (record m { update_time = truncated m.update_time });
      })
unfolding decode_block encode_block
decode-encode_block n m h = rw (unmarshalled m.oid h) (ground arith)

pub decode-encode_node :
    (m : NodeMetadata)
    → IsOid m.node_id
    → decode_node (encode_node m) ≡ ok (record m { last_seen = truncated m.last_seen })
unfolding decode_node encode_node
decode-encode_node m h =
    rw (unpack-pack, unmarshalled m.node_id h, capabilities_back m.capabilities)

of_node-ends :
    (o : Oid) (r : Result (Unit {0})) (f : Oid → NodeMetadata)
    → r ≢ stuck
    → of_node (o, r) f ≢ stuck
unfolding of_node
of_node-ends o (ok u) f ne e = cc e
of_node-ends o (err x) f ne e = cc e
of_node-ends o (panic p) f ne e = cc e
of_node-ends o stuck f ne e = ne refl

decode_rows-ends : (rows : List Bytes) → decode_rows rows ≢ stuck
unfolding decode_rows
decode_rows-ends ((n ∷ secs ∷ total ∷ used ∷ available ∷ []) ∷ id ∷ caps ∷ addresses) =
    of_node-ends (unmarshal_binary zero_oid id).0 (unmarshal_binary zero_oid id).1
      (λ o. record {
        node_id = o;
        addresses = addresses;
        sequence_number = n;
        last_seen = record { instant = secs * second; form = 0 };
        capabilities = map capability_of caps;
        storage_usage = record {
          total_bytes = total;
          used_bytes = used;
          available_bytes = available;
        };
      })
      (unmarshal_binary-ends zero_oid id)
decode_rows-ends _ = λ e. cc e

pub decode_node-ends : (raw : Bytes) → decode_node raw ≢ stuck
unfolding decode_node
decode_node-ends raw = decode_rows-ends (unpack [] raw)
