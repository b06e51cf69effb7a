-- ===== src/BlockIndex/Read.antt =====
-- The reading methods of the block index (datastore/leveldb/blockindex.go) answer from the journal.
use juren_cluster.Prelude.{ℕ, ◌≡◌, arith, Bool, true, false, Option, none, some, inl, inr}
use juren_cluster.Outcome.{Result, ok, err, not_found}
use juren_cluster.Oid.{Oid}
use juren_cluster.Oid.RoundTrip.{IsOid, oid_eq_iff}
use juren_cluster.DataModel.{ExtendedMetadata}
use juren_cluster.LevelDb.{Storage, StorageLaws}
use juren_cluster.LevelDb.Keys.{key_from_block_oid, key_from_seq}
use juren_cluster.LevelDb.KeyOrder.{IsU64}
use juren_cluster.BlockIndex.{BlockIndex, get_by_oid, get_by_seq, has, is_not_found}
use juren_cluster.BlockIndex.Journal.{Rows, latest, numbered}
use juren_cluster.BlockIndex.Represents.{Represents, contents-latest, contents-numbered}

abbrev pub or_not_found : Option ExtendedMetadata → Result ExtendedMetadata
or_not_found none = err not_found
or_not_found (some e) = ok e

abbrev pub is_some {ℓ} : {A : Type ℓ} → Option A → Bool
is_some none = false
is_some (some a) = true

module _ (S : Storage) (L : StorageLaws S) where
  -- In a state that stands for a journal, `GetByOid` of an identifier gives the newest row of
  -- the block with its number, and the store's error for a missing key where there is none.
  pub get_by_oid-latest :
      (ix : BlockIndex S) (j : Rows) (o : Oid)
      → Represents S L ix j
      → IsOid o
      → get_by_oid S ix o ≡ or_not_found (latest j o)
  unfolding get_by_oid
  get_by_oid-latest ix j o rep ho = elim (contents-latest S L j o ho rep.decodes) [
    | inl (missing, no_row) ↦ rw (rep.contents_ok (key_from_block_oid o), missing, no_row)
    | inr (raw, n, m, held, decoded, row, id, stored) ↦
        rw (rep.contents_ok (key_from_block_oid o), held, decoded, row, (oid_eq_iff m.oid o).1 id)
  ]

  -- In a state that stands for a journal, `GetBySeq` of a number that fits a uint64 gives the
  -- row with the number, and the store's error for a missing key where there is none.
  pub get_by_seq-numbered :
      (ix : BlockIndex S) (j : Rows) (n : ℕ)
      → Represents S L ix j
      → IsU64 n
      → get_by_seq S ix n ≡ or_not_found (numbered j n)
  unfolding get_by_seq
  get_by_seq-numbered ix j n rep hn = elim (contents-numbered S L j n hn rep.bounded rep.decodes) [
    | inl (missing, no_row) ↦ rw (rep.contents_ok (key_from_seq n), missing, no_row)
    | inr (raw, m, held, decoded, row) ↦
        rw (rep.contents_ok (key_from_seq n), held, decoded, row) (ground arith)
  ]

  -- In a state that stands for a journal, `Has` of an identifier says without an error whether
  -- the block has a row.
  pub has-latest :
      (ix : BlockIndex S) (j : Rows) (o : Oid)
      → Represents S L ix j
      → IsOid o
      → has S ix o ≡ ok (is_some (latest j o))
  unfolding has is_not_found
  has-latest ix j o rep ho = elim (contents-latest S L j o ho rep.decodes) [
    | inl (missing, no_row) ↦ rw (rep.contents_ok (key_from_block_oid o), missing, no_row)
    | inr (raw, n, m, held, decoded, row, id, stored) ↦
        rw (rep.contents_ok (key_from_block_oid o), held, row)
  ]
