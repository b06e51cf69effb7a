-- ===== src/BlockIndex.antt =====
-- datastore/leveldb/blockindex.go: the journal of block metadata. Every method holds the mutex
-- from its first line to its return, so each is one step on the state.
pub mod Ends
pub mod Refines
pub mod Journal
pub mod Represents
pub mod Read
pub mod Put
pub mod Range
pub mod Reopen
pub mod Wins
pub mod Renumbers
mod Tests
use juren_cluster.Prelude.{
  ℕ, ◌+◌, ◌%◌, ◌^◌, Bool, true, false, Option, none, some, List, [], ◌∷◌, Bytes, ltb, ◌==◌,
  if◌then◌else◌,
}
use juren_cluster.Outcome.{
  Result, Error, ok, err, panic, stuck, ◌>>=◌, not_found, corrupted, invalid_range, nil_dereference,
}
use juren_cluster.Oid.{Oid, oid_eq}
use juren_cluster.DataModel.{Metadata, ExtendedMetadata, is_metadata_equal, after}
use juren_cluster.LevelDb.{Storage}
use juren_cluster.LevelDb.Keys.{
  key_prefix_oid, key_prefix_seq, key_from_block_oid, key_from_seq, seq_from_key,
}

-- The open store and the last sequence number.
pub record BlockIndex (S : Storage) : Type 0 where
  pub db : S.Db
  pub seq : ℕ

-- `iter.Last()` and `iter.Key()`
unfoldable pub last_key : List (Bytes × Bytes) → Option Bytes
last_key [] = none
last_key ((k, v) ∷ []) = some k
last_key (p ∷ q ∷ rest) = last_key (q ∷ rest)

unfoldable pub is_not_found : Error → Bool
is_not_found not_found = true
is_not_found _ = false

module _ (S : Storage) where
  max_seq : Option Bytes → Result ℕ
  max_seq none = ok 0
  max_seq (some key) = seq_from_key key

  -- The argument is what `initLevelDb` gave.
  pub new_block_index : Result S.Db → Result (BlockIndex S)
  unfolding max_seq last_key
  new_block_index opened = do
    db ← opened
    seq ← max_seq (last_key (S.scan_prefix db key_prefix_seq))
    ok (record { db = db; seq = seq })

  check_oid : Oid → ExtendedMetadata → Option Metadata → Result ExtendedMetadata
  check_oid oid md none = panic nil_dereference
  check_oid oid md (some m) = if oid_eq m.oid oid then ok md else err corrupted

  pub get_by_oid : BlockIndex S → Oid → Result ExtendedMetadata
  unfolding check_oid
  get_by_oid ix oid = do
    raw ← S.get ix.db (key_from_block_oid oid)
    md ← S.unmarshal_block raw
    check_oid oid md md.metadata

  pub get_by_seq : BlockIndex S → ℕ → Result ExtendedMetadata
  get_by_seq ix seq = do
    raw ← S.get ix.db (key_from_seq seq)
    md ← S.unmarshal_block raw
    if md.sequence_number == seq then ok md else err corrupted

  -- The batch was written, or not: the sequence number is kept only if it was.
  finish_put :
      BlockIndex S
      → ExtendedMetadata
      → S.Db × Result (Unit {0})
      → BlockIndex S × Result ExtendedMetadata
  finish_put ix md (db, ok u) = (record { db = db; seq = md.sequence_number }, ok md)
  finish_put ix md (db, err e) = (record ix { db = db }, err e)
  finish_put ix md (db, panic p) = (record ix { db = db }, panic p)
  finish_put ix md (db, stuck) = (record ix { db = db }, stuck)

  write_batch :
      BlockIndex S
      → Metadata
      → ExtendedMetadata
      → Result Bytes
      → BlockIndex S × Result ExtendedMetadata
  unfolding finish_put
  write_batch ix m md (ok raw) = finish_put ix md (
      S.write ix.db ((key_from_block_oid m.oid, raw) ∷ (key_from_seq md.sequence_number, raw) ∷ []))
  write_batch ix m md (err e) = (ix, err e)
  write_batch ix m md (panic p) = (ix, panic p)
  write_batch ix m md stuck = (ix, stuck)

  -- `Put` from "Create the new sequence number" on.
  append : BlockIndex S → Metadata → BlockIndex S × Result ExtendedMetadata
  unfolding write_batch
  append ix m =
      let md : ExtendedMetadata = record {
        sequence_number = (ix.seq + 1) % 2 ^ 64;
        metadata = some m;
      } in
      write_batch ix m md (S.marshal_block md)

  -- The entry that is there is kept if it is equal or more fresh.
  put_over :
      BlockIndex S
      → Metadata
      → ExtendedMetadata
      → Option Metadata
      → BlockIndex S × Result ExtendedMetadata
  put_over ix m existing none = (ix, panic nil_dereference)
  put_over ix m existing (some old) =
      if is_metadata_equal (some old) (some m)
      then (ix, ok existing)
      else if after old.update_time m.update_time
      then (ix, ok existing)
      else append ix m

  -- An entry that cannot be decoded is written over.
  put_decoded :
      BlockIndex S → Metadata → Result ExtendedMetadata → BlockIndex S × Result ExtendedMetadata
  unfolding put_over
  put_decoded ix m (ok existing) = put_over ix m existing existing.metadata
  put_decoded ix m (err e) = append ix m
  put_decoded ix m (panic p) = (ix, panic p)
  put_decoded ix m stuck = (ix, stuck)

  put_fetched : BlockIndex S → Metadata → Result Bytes → BlockIndex S × Result ExtendedMetadata
  unfolding put_decoded
  put_fetched ix m (ok raw) = put_decoded ix m (S.unmarshal_block raw)
  put_fetched ix m (err e) = if is_not_found e then append ix m else (ix, err e)
  put_fetched ix m (panic p) = (ix, panic p)
  put_fetched ix m stuck = (ix, stuck)

  put_metadata : BlockIndex S → Option Metadata → BlockIndex S × Result ExtendedMetadata
  unfolding put_fetched
  put_metadata ix none = (ix, panic nil_dereference)
  put_metadata ix (some m) = put_fetched ix m (S.get ix.db (key_from_block_oid m.oid))

  -- The sequence number of the argument is not read.
  pub put : BlockIndex S → ExtendedMetadata → BlockIndex S × Result ExtendedMetadata
  unfolding put_metadata
  put ix metadata = put_metadata ix metadata.metadata

  has_answer : Result Bytes → Result Bool
  has_answer (ok raw) = ok true
  has_answer (err e) = if is_not_found e then ok false else err e
  has_answer (panic p) = panic p
  has_answer stuck = stuck

  pub has : BlockIndex S → Oid → Result Bool
  unfolding has_answer
  has ix oid = has_answer (S.get ix.db (key_from_block_oid oid))

  -- The loop of an enumeration, over the pairs that the iterator goes through.
  decode_all : List (Bytes × Bytes) → Result (List ExtendedMetadata)
  decode_all [] = ok []
  decode_all ((k, raw) ∷ rest) = do
    let results = decode_all rest
    md ← S.unmarshal_block raw
    mds ← results
    ok (md ∷ mds)

  pub enumerate_by_seq : BlockIndex S → ℕ → ℕ → Result (List ExtendedMetadata)
  unfolding decode_all
  enumerate_by_seq ix start end =
      if ltb end start
      then err invalid_range
      else decode_all (S.scan ix.db (key_from_seq start) (key_from_seq end))

  pub enumerate : BlockIndex S → Result (List ExtendedMetadata)
  unfolding decode_all
  enumerate ix = decode_all (S.scan_prefix ix.db key_prefix_oid)

  pub get_seq : BlockIndex S → ℕ
  get_seq ix = ix.seq

  -- `Vacuum` locks the mutex and returns.
  pub vacuum : BlockIndex S → BlockIndex S × Result (Unit {0})
  vacuum ix = (ix, ok tt)
