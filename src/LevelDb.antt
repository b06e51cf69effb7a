-- ===== src/LevelDb.antt =====
-- datastore/leveldb/leveldb.go: what the two indexes share. The store itself (goleveldb) and the
-- encoder (fxamacker/cbor) are other people's code: `Storage` has the calls that the indexes make
-- of them, and `StorageLaws` what the indexes rely on. The children: `Keys` are the key functions.
pub mod Keys
pub mod KeyOrder
pub mod Codec
pub mod Memory
mod Tests
use juren_cluster.Prelude.{
  ℕ, ◌≤◌, ◌≡◌, ◌≢◌, Bool, not, ◌&&◌, Option, none, some, List, [], ◌∷◌, Bytes, bytes_lt, bytes_eq,
  has_prefix, lookup, IsSorted, if◌then◌else◌, or_else,
}
use juren_cluster.Outcome.{Error, Result, ok, err, not_found, panic, stuck}
use juren_cluster.Oid.RoundTrip.{IsOid}
use juren_cluster.DataModel.{Time, Metadata, ExtendedMetadata, NodeMetadata}

pub record Storage : Type 1 where
  -- the contents of one open `leveldb.DB`
  pub Db : Type 0
  -- `db.Get`
  pub get : Db → Bytes → Result Bytes
  -- `db.Write` of a batch of puts, and `db.Put` as a batch of one
  pub write : Db → List (Bytes × Bytes) → Db × Result (Unit {0})
  -- the pairs that `db.NewIterator` goes through, for `util.Range` and for `util.BytesPrefix`
  pub scan : Db → Bytes → Bytes → List (Bytes × Bytes)
  pub scan_prefix : Db → Bytes → List (Bytes × Bytes)
  -- `cbor.Marshal` and `cbor.Unmarshal` at the two types that are stored
  pub marshal_block : ExtendedMetadata → Result Bytes
  pub unmarshal_block : Bytes → Result ExtendedMetadata
  pub marshal_node : NodeMetadata → Result Bytes
  pub unmarshal_node : Bytes → Result NodeMetadata

-- `initLevelDb`: what `leveldb.OpenFile` gives, and `leveldb.RecoverFile` where it says that the
-- database is corrupted.
unfoldable pub init_level_db : {Db : Type 0} → (Error → Bool) → Result Db → Result Db → Result Db
init_level_db is_corrupted (err e) recovered = if is_corrupted e then recovered else err e
init_level_db is_corrupted opened recovered = opened

-- What a batch writes under a key: its last record for the key.
abbrev pub last_put : Bytes → List (Bytes × Bytes) → Option Bytes
last_put k [] = none
last_put k ((j, v) ∷ batch) = or_else (last_put k batch) (if bytes_eq j k then some v else none)

abbrev pub written : Option Bytes → Result Bytes → Result Bytes
written none r = r
written (some v) r = ok v

abbrev pub found : Result Bytes → Option Bytes
found (ok v) = some v
found (err e) = none
found (panic p) = none
found stuck = none

-- The key lies in the half-open range of an iterator.
abbrev pub in_range : Bytes → Bytes → Bytes → Bool
in_range start limit k = not (bytes_lt k start) && bytes_lt k limit

pub record StorageLaws (S : Storage) : Type 0 where
  -- a batch is written as a whole, or not at all
  pub get-write :
      (d : S.Db) (batch : List (Bytes × Bytes)) (k : Bytes)
      → (S.write d batch).1 ≡ ok tt
      → S.get (S.write d batch).0 k ≡ written (last_put k batch) (S.get d k)
  pub get-write_failed :
      (d : S.Db) (batch : List (Bytes × Bytes)) (k : Bytes)
      → (S.write d batch).1 ≢ ok tt
      → S.get (S.write d batch).0 k ≡ S.get d k
  -- iterators go through the keys that are there, in bytewise order
  pub scan-IsSorted : (d : S.Db) (start limit : Bytes) → IsSorted (S.scan d start limit)
  pub lookup-scan :
      (d : S.Db) (start limit k : Bytes)
      → lookup k (S.scan d start limit)
        ≡ (if in_range start limit k then found (S.get d k) else none)
  pub scan_prefix-IsSorted : (d : S.Db) (prefix : Bytes) → IsSorted (S.scan_prefix d prefix)
  pub lookup-scan_prefix :
      (d : S.Db) (prefix k : Bytes)
      → lookup k (S.scan_prefix d prefix)
        ≡ (if has_prefix prefix k then found (S.get d k) else none)
  -- the encoder keeps all but the precision and the form of a time
  pub stored_time : Time → Time
  pub stored_time_idem : (t : Time) → stored_time (stored_time t) ≡ stored_time t
  pub stored_time_mono :
      (t u : Time) → t.instant ≤ u.instant → (stored_time t).instant ≤ (stored_time u).instant
  pub unmarshal-marshal_block :
      (n : ℕ) (m : Metadata) (raw : Bytes)
      → IsOid m.oid
      → S.marshal_block (record { sequence_number = n; metadata = some m }) ≡ ok raw
      → S.unmarshal_block raw
        ≡ ok (record {
          sequence_number = n;
          metadata = some (record m { update_time = stored_time m.update_time });
        })
  pub unmarshal-marshal_node :
      (m : NodeMetadata) (raw : Bytes)
      → IsOid m.node_id
      → S.marshal_node m ≡ ok raw
      → S.unmarshal_node raw ≡ ok (record m { last_seen = stored_time m.last_seen })

-- Nothing that the indexes ask of the store or the encoder fails.
pub record IsReliable (S : Storage) : Type 0 where
  pub writes : (d : S.Db) (batch : List (Bytes × Bytes)) → (S.write d batch).1 ≡ ok tt
  pub encodes_block : (em : ExtendedMetadata) → (raw : Bytes) × (S.marshal_block em ≡ ok raw)
  pub encodes_node : (m : NodeMetadata) → (raw : Bytes) × (S.marshal_node m ≡ ok raw)

-- Every call of the store and the encoder ends.
pub record Ends (S : Storage) : Type 0 where
  pub get : (d : S.Db) (k : Bytes) → S.get d k ≢ stuck
  pub write : (d : S.Db) (batch : List (Bytes × Bytes)) → (S.write d batch).1 ≢ stuck
  pub marshal_block : (em : ExtendedMetadata) → S.marshal_block em ≢ stuck
  pub unmarshal_block : (raw : Bytes) → S.unmarshal_block raw ≢ stuck
  pub marshal_node : (m : NodeMetadata) → S.marshal_node m ≢ stuck
  pub unmarshal_node : (raw : Bytes) → S.unmarshal_node raw ≢ stuck
