-- ===== src/BlockIndex/Renumbers.antt =====
-- `Put` (datastore/leveldb/blockindex.go) of a time that the encoder does not keep as it is.
use juren_cluster.Prelude.{
  ℕ, suc, ◌+◌, ◌≤◌, ◌≡◌, ◌≢◌, refl, arith, true, none, some, List, ◌∷◌, length, inl, inr,
  Bool-cases,
}
use juren_cluster.Oid.RoundTrip.{IsOid, oid_eq_iff}
use juren_cluster.DataModel.{Metadata, is_metadata_equal, is_metadata_equal_iff}
use juren_cluster.LevelDb.{Storage, StorageLaws, IsReliable}
use juren_cluster.LevelDb.KeyOrder.{IsU64}
use juren_cluster.BlockIndex.{BlockIndex, put, get_seq}
use juren_cluster.BlockIndex.Journal.{Rows, entry, latest, is_change, is_fresher}
use juren_cluster.BlockIndex.Represents.{Represents}
use juren_cluster.BlockIndex.Put.{kept, failed, recorded, stored, put-Outcome}
use juren_cluster.BlockIndex.Wins.{no-IsFault}

module _ (S : Storage) (L : StorageLaws S) where
  records :
      (ix : BlockIndex S) (j : Rows) (n : ℕ) (m : Metadata)
      → IsReliable S
      → Represents S L ix j
      → IsOid m.oid
      → IsU64 (length j + 1)
      → is_change (latest j m.oid) m ≡ true
      → (raw : List ℕ) × Represents S L
          (put S ix (entry n m)).0
          (record { meta = stored S L m; raw = raw } ∷ j)
  records ix j n m reliable rep id room change = elim (put-Outcome S L ix j n m rep id room) [
    | kept e row same out ↦ absurd (ground (arith, same, change))
    | failed _ rep' bad fault ↦ absurd (no-IsFault S L ix j m reliable fault)
    | recorded raw _ rep' out ↦ (raw, rep')
  ]

  is_change-stored :
      (n : ℕ) (m : Metadata)
      → (L.stored_time m.update_time).instant ≤ m.update_time.instant
      → L.stored_time m.update_time ≢ m.update_time
      → is_change (some (entry n (stored S L m))) m ≡ true
  unfolding is_change
  is_change-stored n m low dropped =
      elim (Bool-cases (is_metadata_equal (some (stored S L m)) (some m))) [
        | inl equal ↦ absurd (
            dropped
              (ground (arith, (is_metadata_equal_iff (some (stored S L m)) (some m)).0 equal)))
        | inr differ ↦ rw differ (unfold is_fresher in ground (arith, low))
      ]

  -- From a state that stands for a journal with room for two more rows and none of the block,
  -- where the store and the encoder do not fail, putting metadata that names its block by an
  -- identifier twice, with a time that the store does not keep as it is but makes no later,
  -- takes two sequence numbers.
  pub get_seq-put_twice :
      (ix : BlockIndex S) (j : Rows) (n k : ℕ) (m : Metadata)
      → IsReliable S
      → Represents S L ix j
      → IsOid m.oid
      → IsU64 (length j + 2)
      → latest j m.oid ≡ none
      → (L.stored_time m.update_time).instant ≤ m.update_time.instant
      → L.stored_time m.update_time ≢ m.update_time
      → get_seq S (put S (put S ix (entry n m)).0 (entry k m)).0 ≡ get_seq S ix + 2
  unfolding get_seq
  get_seq-put_twice ix j n k m reliable rep id room no_row low dropped =
      let (raw, rep1) =
        records ix j n m reliable rep id (omega arith) (rw no_row (unfold is_change in refl)) in
      let (raw2, rep2) =
        records (put S ix (entry n m)).0 (record { meta = stored S L m; raw = raw } ∷ j) k m
          reliable rep1 id (omega arith)
          (unfold latest in
            rw ((oid_eq_iff m.oid m.oid).1 refl)
              (is_change-stored (suc (length j)) m low dropped)) in
      omega (arith, rep.seq_ok, rep2.seq_ok)
