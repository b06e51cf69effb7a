-- ===== src/BlockIndex/Wins.antt =====
-- What `Put` (datastore/leveldb/blockindex.go) does to the newest row of every block: the time of
-- an update never goes back, and an accepted update is at least as new as what was offered.
use juren_cluster.Prelude.{
  ℕ, suc, ◌+◌, ◌≤◌, ◌≡◌, refl, ap, ◌∙◌, arith, true, false, some, [], ◌∷◌, Bytes, length, inl, inr,
  Bool-cases,
}
use juren_cluster.Outcome.{Result, ok}
use juren_cluster.Oid.{Oid, oid_eq}
use juren_cluster.Oid.RoundTrip.{IsOid, oid_eq_iff}
use juren_cluster.DataModel.{
  Time, Metadata, ExtendedMetadata, is_metadata_equal, is_metadata_equal_iff,
}
use juren_cluster.LevelDb.{Storage, StorageLaws, IsReliable}
use juren_cluster.LevelDb.KeyOrder.{IsU64}
use juren_cluster.BlockIndex.{BlockIndex, put}
use juren_cluster.BlockIndex.Journal.{Rows, entry, latest, is_change}
use juren_cluster.BlockIndex.Represents.{Represents, RowsDecode}
use juren_cluster.BlockIndex.Put.{kept, failed, recorded, stored, IsFault, put-Outcome}

-- The newest row of a block is at least as new as a time.
pub record IsAtLeast (j : Rows) (o : Oid) (instant : ℕ) : Type 0 where
  pub number : ℕ
  pub meta : Metadata
  pub row : latest j o ≡ some (entry number meta)
  pub newer : instant ≤ meta.update_time.instant

module _ (S : Storage) (L : StorageLaws S) where
  -- A recorded change is not older than the row that it follows.
  change_newer :
      (n : ℕ) (old m : Metadata)
      → is_change (some (entry n old)) m ≡ true
      → old.update_time.instant ≤ m.update_time.instant
  unfolding is_change
  change_newer n old m h = ground arith

  not_change_newer :
      (n : ℕ) (old m : Metadata)
      → L.stored_time old.update_time ≡ old.update_time
      → is_change (some (entry n old)) m ≡ false
      → (L.stored_time m.update_time).instant ≤ old.update_time.instant
  unfolding is_change
  not_change_newer n old m stable h = elim (Bool-cases (is_metadata_equal (some old) (some m))) [
    | inl equal ↦ ground (arith, (is_metadata_equal_iff (some old) (some m)).0 equal, stable)
    | inr differ ↦
        ground (arith, h, differ, stable, L.stored_time_mono m.update_time old.update_time)
  ]

  -- The time of a row is as the store keeps it.
  pub latest-stored :
      (j : Rows) (o : Oid) (n : ℕ) (m : Metadata)
      → RowsDecode S L j
      → latest j o ≡ some (entry n m)
      → L.stored_time m.update_time ≡ m.update_time
  unfolding latest
  latest-stored [] o n m dec row = cc
  latest-stored (r ∷ j) o n m (decoded, id, stable, dec) row =
      elim (Bool-cases (oid_eq r.meta.oid o)) [
        | inl same ↦ ground (arith, same, row, stable)
        | inr other ↦ latest-stored j o n m dec (rw other at row)
      ]

  -- A new row on top of a journal keeps every bound, if it is no older than the row it follows.
  push-IsAtLeast :
      (j : Rows) (m : Metadata) (raw : Bytes) (o : Oid) (t : ℕ)
      → RowsDecode S L j
      → IsOid m.oid
      → is_change (latest j m.oid) m ≡ true
      → IsAtLeast j o t
      → IsAtLeast (record { meta = stored S L m; raw = raw } ∷ j) o t
  unfolding latest
  push-IsAtLeast j m raw o t dec id change h = elim (Bool-cases (oid_eq m.oid o)) [
    | inl same ↦ record {
      number = suc (length j);
      meta = stored S L m;
      row = rw same;
      newer =
          let row = ap (latest j) ((oid_eq_iff m.oid o).0 same) ∙ h.row in
          let older = change_newer h.number h.meta m (rw row at change) in
          omega (
            arith,
            h.newer,
            L.stored_time_mono h.meta.update_time m.update_time older,
            ap (λ (u : Time). u.instant) (latest-stored j m.oid h.number h.meta dec row),
          );
    }
    | inr other ↦ record { number = h.number; meta = h.meta; row = rw other h.row; newer = h.newer }
  ]

  -- What the state after a `Put` of `m` stands for.
  pub record Advances (j : Rows) (m : Metadata) (out : BlockIndex S × Result ExtendedMetadata)
      : Type 0 where
    pub rows : Rows
    pub represents : Represents S L out.0 rows
    pub keeps : (o : Oid) (t : ℕ) → IsAtLeast j o t → IsAtLeast rows o t
    pub at_most_one : length rows ≤ length j + 1
    pub succeeds : IsReliable S → (e : ExtendedMetadata) × (out.1 ≡ ok e)
    pub wins :
        (e : ExtendedMetadata)
        → out.1 ≡ ok e
        → IsAtLeast rows m.oid (L.stored_time m.update_time).instant

  recorded-IsAtLeast :
      (j : Rows) (m : Metadata) (raw : Bytes)
      → IsAtLeast
          (record { meta = stored S L m; raw = raw } ∷ j)
          m.oid
          (L.stored_time m.update_time).instant
  unfolding latest
  recorded-IsAtLeast j m raw = record {
    number = suc (length j);
    meta = stored S L m;
    row = rw ((oid_eq_iff m.oid m.oid).1 refl);
    newer = omega arith;
  }

  kept-IsAtLeast :
      (j : Rows) (o : Oid) (m : Metadata) (e : ExtendedMetadata)
      → latest j o ≡ some e
      → (n : ℕ) (old : Metadata) → latest j o ≡ some (entry n old)
      → RowsDecode S L j
      → is_change (latest j o) m ≡ false
      → IsAtLeast j o (L.stored_time m.update_time).instant
  kept-IsAtLeast j o m e row n old row' dec same = record {
    number = n;
    meta = old;
    row = row';
    newer = not_change_newer n old m (latest-stored j o n old dec row') (rw row' at same);
  }

  latest-entry :
      (j : Rows) (o : Oid) (e : ExtendedMetadata)
      → latest j o ≡ some e
      → (n : ℕ) × (m : Metadata) × (latest j o ≡ some (entry n m))
  unfolding latest
  latest-entry [] o e row = absurd (ground (arith, row))
  latest-entry (r ∷ j) o e row = elim (Bool-cases (oid_eq r.meta.oid o)) [
    | inl same ↦ (suc (length j), r.meta, rw same)
    | inr other ↦ rw other (latest-entry j o e (rw other at row))
  ]

  pub no-IsFault :
      (ix : BlockIndex S) (j : Rows) (m : Metadata) → IsReliable S → ¬ IsFault S L ix j m
  no-IsFault ix j m good (inl encoder) =
      let (raw, e) = good.encodes_block (entry (length j + 1) m) in encoder raw e
  no-IsFault ix j m good (inr (raw, store)) = store (good.writes ix.db _)

  -- From a state that stands for a journal with room for one more row, after a `Put` of metadata
  -- that names its block by an identifier the state stands for a journal of at most one row
  -- more, the newest row of no block is older, the `Put` succeeds if the store and the encoder
  -- do not fail, and if it succeeds the newest row of its block is at least as new as the time
  -- that was put, as the store keeps it.
  pub put-Advances :
      (ix : BlockIndex S) (j : Rows) (n : ℕ) (m : Metadata)
      → Represents S L ix j
      → IsOid m.oid
      → IsU64 (length j + 1)
      → Advances j m (put S ix (entry n m))
  put-Advances ix j n m rep id room = elim (put-Outcome S L ix j n m rep id room) [
    | kept e row same out ↦
        let (k, old, row') = latest-entry j m.oid e row in
        rw out (record {
          rows = j;
          represents = rep;
          keeps = λ o t h. h;
          at_most_one = omega arith;
          succeeds = λ good. (e, refl);
          wins = λ e' p. kept-IsAtLeast j m.oid m e row k old row' rep.decodes same;
        })
    | failed change rep' bad fault ↦ record {
      rows = j;
      represents = rep';
      keeps = λ o t h. h;
      at_most_one = omega arith;
      succeeds = λ good. absurd (no-IsFault ix j m good fault);
      wins = λ e p. absurd (bad e p);
    }
    | recorded raw change rep' out ↦ record {
      rows = record { meta = stored S L m; raw = raw } ∷ j;
      represents = rep';
      keeps = λ o t h. push-IsAtLeast j m raw o t rep.decodes id change h;
      at_most_one = omega arith;
      succeeds = λ good. (entry (length j + 1) m, out);
      wins = λ e p. recorded-IsAtLeast j m raw;
    }
  ]

  settled :
      (ix : BlockIndex S) (j : Rows) (n k : ℕ) (m old : Metadata)
      → Represents S L ix j
      → IsOid m.oid
      → IsU64 (length j + 1)
      → latest j m.oid ≡ some (entry k old)
      → is_change (some (entry k old)) m ≡ false
      → put S ix (entry n m) ≡ (ix, ok (entry k old))
  settled ix j n k m old rep id room row same = elim (put-Outcome S L ix j n m rep id room) [
    | kept e row' same' out ↦ ground (arith, row, row', out)
    | failed change rep' bad fault ↦ absurd (ground (arith, row, same, change))
    | recorded raw change rep' out ↦ absurd (ground (arith, row, same, change))
  ]

  same_is_no_change : (n : ℕ) (m : Metadata) → is_change (some (entry n m)) m ≡ false
  unfolding is_change
  same_is_no_change n m = rw ((is_metadata_equal_iff (some m) (some m)).1 refl)

  -- From a state that stands for a journal with room for two more rows, after a `Put` that
  -- succeeded of metadata that names its block by an identifier and has a time that the store
  -- keeps as it is, a second `Put` of the same metadata under any number changes nothing.
  pub put_again :
      (ix : BlockIndex S) (j : Rows) (n k : ℕ) (m : Metadata) (e : ExtendedMetadata)
      → Represents S L ix j
      → IsOid m.oid
      → IsU64 (length j + 2)
      → L.stored_time m.update_time ≡ m.update_time
      → (put S ix (entry n m)).1 ≡ ok e
      → (put S (put S ix (entry n m)).0 (entry k m)).0 ≡ (put S ix (entry n m)).0
  put_again ix j n k m e rep id room stable good =
      elim (put-Outcome S L ix j n m rep id (omega arith)) [
        | kept e' row same out ↦
            let (i, old, row') = latest-entry j m.oid e' row in
            let again = settled ix j k i m old rep id (omega arith) row' (rw row' at same) in
            rw out (ap (λ (w : BlockIndex S × Result ExtendedMetadata). w.0) again)
        | failed change rep' bad fault ↦ absurd (bad e good)
        | recorded raw change rep' out ↦
            let m_stored : stored S L m ≡ m = ground (arith, stable) in
            ap (λ (w : BlockIndex S × Result ExtendedMetadata). w.0)
              (settled (put S ix (entry n m)).0 (record { meta = stored S L m; raw = raw } ∷ j) k
                (suc (length j)) m (stored S L m) rep' id (omega arith)
                (unfold latest in rw ((oid_eq_iff m.oid m.oid).1 refl))
                (rw m_stored (same_is_no_change (suc (length j)) m)))
      ]
