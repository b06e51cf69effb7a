-- ===== src/BlockIndex/Ends.antt =====
-- datastore/leveldb/blockindex.go: `Put` and an enumeration end if the store and the
-- decoder do.
use juren_cluster.Prelude.{
  ℕ, ◌+◌, ◌%◌, ◌^◌, Option, none, some, ◌≢◌, refl, List, [], ◌∷◌, Bytes, ltb, Bool-cases, inl, inr,
}
use juren_cluster.Outcome.{Result, ok, err, panic, stuck, ◌>>=◌}
use juren_cluster.LevelDb.{Storage, Ends}
use juren_cluster.LevelDb.Keys.{key_from_seq, key_from_block_oid}
use juren_cluster.BlockIndex.{
  BlockIndex, decode_all, enumerate_by_seq, finish_put, write_batch, append, put_over, put_decoded,
  put_fetched, put_metadata, put, is_not_found,
}
use juren_cluster.DataModel.{Metadata, ExtendedMetadata, is_metadata_equal, after}

pub bind-ends :
    {A B : Type 0} (r : Result A) (f : A → Result B)
    → r ≢ stuck
    → ((a : A) → f a ≢ stuck)
    → (r >>= f) ≢ stuck
bind-ends (ok a) f ne each e = each a e
bind-ends (err x) f ne each e = cc e
bind-ends (panic p) f ne each e = cc e
bind-ends stuck f ne each e = ne refl

module _ (S : Storage) (ends : (raw : Bytes) → S.unmarshal_block raw ≢ stuck) where
  decode_all-ends : (rows : List (Bytes × Bytes)) → decode_all S rows ≢ stuck
  unfolding decode_all
  decode_all-ends [] = λ e. cc e
  decode_all-ends ((k, raw) ∷ rest) =
      let before : decode_all S rest ≢ stuck = decode_all-ends rest in
      bind-ends (S.unmarshal_block raw) _ (ends raw)
        (λ md. bind-ends (decode_all S rest) _ before (λ mds e. cc e))

  pub enumerate_by_seq-ends :
      (ix : BlockIndex S) (start end : ℕ) → enumerate_by_seq S ix start end ≢ stuck
  unfolding enumerate_by_seq
  enumerate_by_seq-ends ix start end = elim (Bool-cases (ltb end start)) [
    | inl empty ↦ rw empty (λ e. cc e)
    | inr range ↦ rw range (decode_all-ends (S.scan ix.db (key_from_seq start) (key_from_seq end)))
  ]

module _ (S : Storage) (ends : Ends S) where
  finish_put-ends :
      (ix : BlockIndex S) (md : ExtendedMetadata) (db : S.Db) (r : Result (Unit {0}))
      → r ≢ stuck
      → (finish_put S ix md (db, r)).1 ≢ stuck
  unfolding finish_put
  finish_put-ends ix md db (ok u) ne e = cc e
  finish_put-ends ix md db (err x) ne e = cc e
  finish_put-ends ix md db (panic p) ne e = cc e
  finish_put-ends ix md db stuck ne e = ne refl

  write_batch-ends :
      (ix : BlockIndex S) (m : Metadata) (md : ExtendedMetadata) (r : Result Bytes)
      → r ≢ stuck
      → (write_batch S ix m md r).1 ≢ stuck
  unfolding write_batch
  write_batch-ends ix m md (ok raw) ne =
      let batch = (key_from_block_oid m.oid, raw) ∷ (key_from_seq md.sequence_number, raw) ∷ [] in
      finish_put-ends ix md (S.write ix.db batch).0 (S.write ix.db batch).1 (ends.write ix.db batch)
  write_batch-ends ix m md (err x) ne = λ e. cc e
  write_batch-ends ix m md (panic p) ne = λ e. cc e
  write_batch-ends ix m md stuck ne = λ e. ne refl

  append-ends : (ix : BlockIndex S) (m : Metadata) → (append S ix m).1 ≢ stuck
  unfolding append
  append-ends ix m =
      let md : ExtendedMetadata = record {
        sequence_number = (ix.seq + 1) % 2 ^ 64;
        metadata = some m;
      } in
      write_batch-ends ix m md (S.marshal_block md) (ends.marshal_block md)

  put_over-ends :
      (ix : BlockIndex S) (m : Metadata) (existing : ExtendedMetadata) (old : Option Metadata)
      → (put_over S ix m existing old).1 ≢ stuck
  unfolding put_over
  put_over-ends ix m existing none = λ e. cc e
  put_over-ends ix m existing (some old) =
      elim (Bool-cases (is_metadata_equal (some old) (some m))) [
        | inl equal ↦ rw equal (λ e. cc e)
        | inr differ ↦ elim (Bool-cases (after old.update_time m.update_time)) [
          | inl fresher ↦ rw (differ, fresher) (λ e. cc e)
          | inr not_fresher ↦ rw (differ, not_fresher) (append-ends ix m)
        ]
      ]

  put_decoded-ends :
      (ix : BlockIndex S) (m : Metadata) (r : Result ExtendedMetadata)
      → r ≢ stuck
      → (put_decoded S ix m r).1 ≢ stuck
  unfolding put_decoded
  put_decoded-ends ix m (ok existing) ne = put_over-ends ix m existing existing.metadata
  put_decoded-ends ix m (err x) ne = append-ends ix m
  put_decoded-ends ix m (panic p) ne = λ e. cc e
  put_decoded-ends ix m stuck ne = λ e. ne refl

  put_fetched-ends :
      (ix : BlockIndex S) (m : Metadata) (r : Result Bytes)
      → r ≢ stuck
      → (put_fetched S ix m r).1 ≢ stuck
  unfolding put_fetched
  put_fetched-ends ix m (ok raw) ne =
      put_decoded-ends ix m (S.unmarshal_block raw) (ends.unmarshal_block raw)
  put_fetched-ends ix m (err x) ne = elim (Bool-cases (is_not_found x)) [
    | inl missing ↦ rw missing (append-ends ix m)
    | inr other ↦ rw other (λ e. cc e)
  ]
  put_fetched-ends ix m (panic p) ne = λ e. cc e
  put_fetched-ends ix m stuck ne = λ e. ne refl

  put_metadata-ends : (ix : BlockIndex S) (m : Option Metadata) → (put_metadata S ix m).1 ≢ stuck
  unfolding put_metadata
  put_metadata-ends ix none = λ e. cc e
  put_metadata-ends ix (some m) =
      put_fetched-ends ix m (S.get ix.db (key_from_block_oid m.oid))
        (ends.get ix.db (key_from_block_oid m.oid))

  pub put-ends : (ix : BlockIndex S) (em : ExtendedMetadata) → (put S ix em).1 ≢ stuck
  unfolding put
  put-ends ix em = put_metadata-ends ix em.metadata
