-- ===== src/BlockIndex/Put.antt =====
-- `Put` of the block index (datastore/leveldb/blockindex.go) as a step on the journal.
use juren_cluster.Prelude.{
  ℕ, ◌+◌, ◌%◌, ◌^◌, ◌≡◌, ◌≢◌, refl, sym, ap, ◌∙◌, arith, true, false, some, List, [], ◌∷◌, Bytes,
  length, inl, inr, ◌⊎◌, Bool-cases,
}
use native.Mathlib.Numerals.{add-one}
use juren_cluster.Outcome.{Result, ok, err, panic, stuck}
use juren_cluster.Oid.RoundTrip.{IsOid}
use juren_cluster.DataModel.{Metadata, ExtendedMetadata, is_metadata_equal, after}
use juren_cluster.LevelDb.{Storage, StorageLaws}
use juren_cluster.LevelDb.Keys.{key_from_block_oid, key_from_seq}
use juren_cluster.LevelDb.KeyOrder.{IsU64}
use juren_cluster.BlockIndex.{
  BlockIndex, put, put_over, append, write_batch, finish_put, is_not_found,
}
use juren_cluster.BlockIndex.Journal.{Rows, entry, contents, latest, is_change}
use juren_cluster.BlockIndex.Represents.{Represents, contents-latest}

-- The metadata as the store keeps it.
module _ (S : Storage) (L : StorageLaws S) where
  abbrev pub stored : Metadata → Metadata
  stored m = record m { update_time = L.stored_time m.update_time }

  abbrev pub IsFailure : Result ExtendedMetadata → Type 0
  IsFailure r = (e : ExtendedMetadata) → r ≢ ok e

  abbrev put_batch : Metadata → ℕ → Bytes → List (Bytes × Bytes)
  put_batch m n raw = (key_from_block_oid m.oid, raw) ∷ (key_from_seq n, raw) ∷ []

  -- The encoder fails on the new entry, or the store on the batch.
  abbrev pub IsFault : BlockIndex S → Rows → Metadata → Type 0
  IsFault ix j m =
      ((raw : Bytes) → S.marshal_block (entry (length j + 1) m) ≢ ok raw)
      ⊎ ((raw : Bytes) × ((S.write ix.db (put_batch m (length j + 1) raw)).1 ≢ ok tt))

  -- How a `Put` of `m` ends: the row that is there is kept, or nothing is written because the
  -- encoder or the store failed, or the change becomes the newest row under the next number.
  pub data Outcome (ix : BlockIndex S) (j : Rows) (m : Metadata)
      (out : BlockIndex S × Result ExtendedMetadata) : Type 0 where
    kept :
        (e : ExtendedMetadata)
        → latest j m.oid ≡ some e
        → is_change (latest j m.oid) m ≡ false
        → out ≡ (ix, ok e)
        → Outcome ix j m out
    failed :
        is_change (latest j m.oid) m ≡ true
        → Represents S L out.0 j
        → IsFailure out.1
        → IsFault ix j m
        → Outcome ix j m out
    recorded :
        (raw : Bytes)
        → is_change (latest j m.oid) m ≡ true
        → Represents S L out.0 (record { meta = stored m; raw = raw } ∷ j)
        → out.1 ≡ ok (entry (length j + 1) m)
        → Outcome ix j m out

  written_contents :
      (d : S.Db) (j : Rows) (m : Metadata) (raw k : Bytes)
      → S.get d k ≡ contents j k
      → (S.write d (put_batch m (length j + 1) raw)).1 ≡ ok tt
      → S.get (S.write d (put_batch m (length j + 1) raw)).0 k
        ≡ contents (record { meta = stored m; raw = raw } ∷ j) k
  unfolding contents
  written_contents d j m raw k held good =
      L.get-write d (put_batch m (length j + 1) raw) k good
      ∙ ground (arith, held, ap key_from_seq (add-one (length j)))

  module _ (ix : BlockIndex S) (j : Rows) (m : Metadata) (rep : Represents S L ix j)
      (id : IsOid m.oid) (room : IsU64 (length j + 1)) where
    recorded-Represents :
        (raw : Bytes) (db : S.Db)
        → S.marshal_block (entry (length j + 1) m) ≡ ok raw
        → (db, ok tt) ≡ S.write ix.db (put_batch m (length j + 1) raw)
        → Represents S L
            (record { db = db; seq = length j + 1 })
            (record { meta = stored m; raw = raw } ∷ j)
    recorded-Represents raw db marshalled e = record {
      seq_ok = omega arith;
      bounded = omega arith;
      contents_ok = λ k.
          ap (λ (w : S.Db × Result (Unit {0})). S.get w.0 k) e
          ∙ written_contents ix.db j m raw k (rep.contents_ok k)
              (sym (ap (λ (w : S.Db × Result (Unit {0})). w.1) e));
      decodes = (
        L.unmarshal-marshal_block (length j + 1) m raw id marshalled
            ∙ ap (λ n. ok (entry n (stored m))) (add-one (length j)),
        id,
        L.stored_time_idem m.update_time,
        rep.decodes,
      );
    }

    failed-Represents :
        (raw : Bytes) (db : S.Db) (r : Result (Unit {0}))
        → r ≢ ok tt
        → (db, r) ≡ S.write ix.db (put_batch m (length j + 1) raw)
        → Represents S L (record ix { db = db }) j
    failed-Represents raw db r bad e = record {
      seq_ok = rep.seq_ok;
      bounded = rep.bounded;
      contents_ok = λ k.
          ap (λ (w : S.Db × Result (Unit {0})). S.get w.0 k) e
          ∙ L.get-write_failed ix.db (put_batch m (length j + 1) raw) k
              (λ good. bad (ap (λ (w : S.Db × Result (Unit {0})). w.1) e ∙ good))
          ∙ rep.contents_ok k;
      decodes = rep.decodes;
    }

    module _ (change : is_change (latest j m.oid) m ≡ true) where
      finish-Outcome :
          (raw : Bytes)
          → S.marshal_block (entry (length j + 1) m) ≡ ok raw
          → (w : S.Db × Result (Unit {0})) → w ≡ S.write ix.db (put_batch m (length j + 1) raw)
          → Outcome ix j m (finish_put S ix (entry (length j + 1) m) w)
      unfolding finish_put
      finish-Outcome raw marshalled (db, ok u) e =
          recorded raw change (recorded-Represents raw db marshalled e) refl
      finish-Outcome raw marshalled (db, err x) e =
          failed change (failed-Represents raw db (err x) (λ p. cc) e) (λ x p. cc)
            (inr (raw, λ p. cc (ap (λ (w : S.Db × Result (Unit {0})). w.1) e, p)))
      finish-Outcome raw marshalled (db, panic x) e =
          failed change (failed-Represents raw db (panic x) (λ p. cc) e) (λ x p. cc)
            (inr (raw, λ p. cc (ap (λ (w : S.Db × Result (Unit {0})). w.1) e, p)))
      finish-Outcome raw marshalled (db, stuck) e =
          failed change (failed-Represents raw db stuck (λ p. cc) e) (λ x p. cc)
            (inr (raw, λ p. cc (ap (λ (w : S.Db × Result (Unit {0})). w.1) e, p)))

      write_batch-Outcome :
          (r : Result Bytes)
          → S.marshal_block (entry (length j + 1) m) ≡ r
          → Outcome ix j m (write_batch S ix m (entry (length j + 1) m) r)
      unfolding write_batch
      write_batch-Outcome (ok raw) e = finish-Outcome raw e _ refl
      write_batch-Outcome (err x) e = failed change rep (λ x p. cc) (inl (λ raw p. cc (e, p)))
      write_batch-Outcome (panic x) e = failed change rep (λ x p. cc) (inl (λ raw p. cc (e, p)))
      write_batch-Outcome stuck e = failed change rep (λ x p. cc) (inl (λ raw p. cc (e, p)))

      append-Outcome : Outcome ix j m (append S ix m)
      unfolding append
      append-Outcome =
          let n : (ix.seq + 1) % 2 ^ 64 ≡ length j + 1 = omega (arith, rep.seq_ok, room) in
          rw n (write_batch-Outcome _ refl)

    put_over-Outcome :
        (n : ℕ) (old : Metadata)
        → latest j m.oid ≡ some (entry n old)
        → Outcome ix j m (put_over S ix m (entry n old) (some old))
    unfolding put_over
    put_over-Outcome n old row = elim (Bool-cases (is_metadata_equal (some old) (some m))) [
      | inl equal ↦ rw equal (kept (entry n old) row (unchanged (inl equal)) refl)
      | inr differ ↦ elim (Bool-cases (after old.update_time m.update_time)) [
        | inl fresh ↦ rw (differ, fresh) (kept (entry n old) row (unchanged (inr fresh)) refl)
        | inr stale ↦
            rw (differ, stale)
              (append-Outcome (rw row (unfold is_change in ground (arith, differ, stale))))
      ]
    ]
      where
        unchanged :
            (is_metadata_equal (some old) (some m) ≡ true)
              ⊎ (after old.update_time m.update_time ≡ true)
            → is_change (latest j m.oid) m ≡ false
        unchanged h = rw row (unfold is_change in ground (arith, h))

  -- From a state that stands for a journal with room for one more row, a `Put` of metadata that
  -- names its block by an identifier ends in one of three ways: the newest row of the block is
  -- kept and returned, as it is equal or more fresh; or the encoder or the store fails, the
  -- result is not a success, and the state stands for the same journal; or the metadata, with
  -- the time as the store keeps it, becomes the newest row under the next number. As the code
  -- has it, different metadata with a time equal to that of the newest row is recorded, which
  -- docs/concepts.md rules out, and different metadata with an older time is not, where the
  -- interface promises a new number.
  pub put-Outcome :
      (ix : BlockIndex S) (j : Rows) (n : ℕ) (m : Metadata)
      → Represents S L ix j
      → IsOid m.oid
      → IsU64 (length j + 1)
      → Outcome ix j m (put S ix (entry n m))
  unfolding put
  put-Outcome ix j n m rep id room = elim (contents-latest S L j m.oid id rep.decodes) [
    | inl (missing, no_row) ↦
        rw (rep.contents_ok (key_from_block_oid m.oid), missing)
          (unfold is_not_found in
            append-Outcome ix j m rep id room (rw no_row (unfold is_change in refl)))
    | inr (raw, k, old, held, decoded, row, same, stored_old) ↦
        rw (rep.contents_ok (key_from_block_oid m.oid), held, decoded)
          (put_over-Outcome ix j m rep id room k old row)
  ]
