-- ===== src/BlockIndex/Refines.antt =====
-- The block index (datastore/leveldb/blockindex.go) as a client sees it: any sequence of calls is
-- answered as by a list of metadata, which knows nothing of keys, encodings and stores.
use juren_cluster.Prelude.{
  ℕ, suc, ◌+◌, ◌≤◌, ◌≡◌, refl, sym, ap, ◌∙◌, arith, Bool, true, false, List, [], ◌∷◌, length, ltb,
  All, if◌then◌else◌,
}
use juren_cluster.Outcome.{Result, ok, err, invalid_range}
use juren_cluster.Oid.{Oid}
use juren_cluster.Oid.RoundTrip.{IsOid}
use juren_cluster.DataModel.{Metadata, ExtendedMetadata}
use juren_cluster.LevelDb.{Storage, StorageLaws, IsReliable}
use juren_cluster.LevelDb.KeyOrder.{IsU64}
use juren_cluster.BlockIndex.{
  BlockIndex, put, get_by_oid, get_by_seq, has, enumerate_by_seq, get_seq, new_block_index,
}
use juren_cluster.BlockIndex.Journal.{Row, Rows, entry, latest, numbered, slice, is_change}
use juren_cluster.BlockIndex.Represents.{Represents}
use juren_cluster.BlockIndex.Put.{Outcome, kept, failed, recorded, put-Outcome, stored}
use juren_cluster.BlockIndex.Read.{
  or_not_found, is_some, get_by_oid-latest, get_by_seq-numbered, has-latest,
}
use juren_cluster.BlockIndex.Range.{enumerate_by_seq-slice}
use juren_cluster.BlockIndex.Reopen.{new_block_index_reopens}
use juren_cluster.BlockIndex.Wins.{no-IsFault}

-- The calls of a client, and what they answer.
pub data Request : Type 0 where
  putting : ℕ → Metadata → Request
  getting : Oid → Request
  getting_seq : ℕ → Request
  asking : Oid → Request
  listing : ℕ → ℕ → Request
  counting : Request
  -- the program ends, and opens its store again
  reopening : Request

pub data Reply : Type 0 where
  row : Result ExtendedMetadata → Reply
  answer : Result Bool → Reply
  rows : Result (List ExtendedMetadata) → Reply
  number : ℕ → Reply

-- Blocks are named by identifiers, and numbers fit a uint64.
abbrev pub IsRequest : Request → Type 0
IsRequest (putting n m) = IsOid m.oid
IsRequest (getting o) = IsOid o
IsRequest (getting_seq n) = IsU64 n
IsRequest (asking o) = IsOid o
IsRequest (listing start end) = IsU64 start × IsU64 end
IsRequest counting = Unit {0}
IsRequest reopening = Unit {0}

module _ (S : Storage) where
  abbrev reopened : BlockIndex S → Result (BlockIndex S) → BlockIndex S × Reply
  reopened ix (ok ix') = (ix', answer (ok true))
  reopened ix _ = (ix, answer (ok false))

  abbrev serve : BlockIndex S → Request → BlockIndex S × Reply
  serve ix (putting n m) = let (ix', r) = put S ix (entry n m) in (ix', row r)
  serve ix (getting o) = (ix, row (get_by_oid S ix o))
  serve ix (getting_seq n) = (ix, row (get_by_seq S ix n))
  serve ix (asking o) = (ix, answer (has S ix o))
  serve ix (listing start end) = (ix, rows (enumerate_by_seq S ix start end))
  serve ix counting = (ix, number (get_seq S ix))
  serve ix reopening = reopened ix (new_block_index S (ok ix.db))

  abbrev pub replies : BlockIndex S → List Request → List Reply
  replies ix [] = []
  replies ix (q ∷ qs) = let (ix', r) = serve ix q in r ∷ replies ix' qs

-- The specification: the recorded changes, the newest first.
abbrev pub Changes : Type 0
Changes = List Metadata

abbrev bare : Metadata → Row
bare m = record { meta = m; raw = [] }

abbrev pub as_rows : Changes → Rows
as_rows [] = []
as_rows (m ∷ ms) = bare m ∷ as_rows ms

module _ (stored : Metadata → Metadata) where
  abbrev recording : Changes → Metadata → Bool → Changes × Reply
  recording ms m true = (stored m ∷ ms, row (ok (entry (length ms + 1) m)))
  recording ms m false = (ms, row (or_not_found (latest (as_rows ms) m.oid)))

  abbrev pub spec_serve : Changes → Request → Changes × Reply
  spec_serve ms (putting n m) = recording ms m (is_change (latest (as_rows ms) m.oid) m)
  spec_serve ms (getting o) = (ms, row (or_not_found (latest (as_rows ms) o)))
  spec_serve ms (getting_seq n) = (ms, row (or_not_found (numbered (as_rows ms) n)))
  spec_serve ms (asking o) = (ms, answer (ok (is_some (latest (as_rows ms) o))))
  spec_serve ms (listing start end) =
      (ms, rows (if ltb end start then err invalid_range else ok (slice (as_rows ms) start end)))
  spec_serve ms counting = (ms, number (length ms))
  spec_serve ms reopening = (ms, answer (ok true))

  abbrev pub spec_replies : Changes → List Request → List Reply
  spec_replies ms [] = []
  spec_replies ms (q ∷ qs) = let (ms', r) = spec_serve ms q in r ∷ spec_replies ms' qs

abbrev pub metas : Rows → Changes
metas [] = []
metas (r ∷ j) = r.meta ∷ metas j

length-as_rows : (j : Rows) → length (as_rows (metas j)) ≡ length j
length-as_rows [] = refl
length-as_rows (r ∷ j) = ap suc (length-as_rows j)

length-metas : (j : Rows) → length (metas j) ≡ length j
length-metas [] = refl
length-metas (r ∷ j) = ap suc (length-metas j)

latest-metas : (j : Rows) (o : Oid) → latest (as_rows (metas j)) o ≡ latest j o
unfolding latest
latest-metas [] o = refl
latest-metas (r ∷ j) o = rw (length-as_rows j, latest-metas j o)

numbered-metas : (j : Rows) (n : ℕ) → numbered (as_rows (metas j)) n ≡ numbered j n
unfolding numbered
numbered-metas [] n = refl
numbered-metas (r ∷ j) n = rw (length-as_rows j, numbered-metas j n)

slice-metas : (j : Rows) (start end : ℕ) → slice (as_rows (metas j)) start end ≡ slice j start end
unfolding slice
slice-metas [] start end = refl
slice-metas (r ∷ j) start end = rw (length-as_rows j, slice-metas j start end)

module _ (S : Storage) (L : StorageLaws S) (reliable : IsReliable S) where
  -- After the answer to a `Put` the index goes on as the specification does.
  abbrev GoesOn : Rows → List Request → Type 0
  GoesOn j qs =
      (ix : BlockIndex S) (j' : Rows)
      → length j' ≤ length j + 1
      → Represents S L ix j'
      → replies S ix qs ≡ spec_replies (stored S L) (metas j') qs

  put_replies :
      (ix : BlockIndex S) (j : Rows) (m : Metadata) (qs : List Request)
      (out : BlockIndex S × Result ExtendedMetadata)
      → Represents S L ix j
      → Outcome S L ix j m out
      → GoesOn j qs
      → row out.1 ∷ replies S out.0 qs ≡ (
          let (ms', r) =
            recording (stored S L) (metas j) m (is_change (latest (as_rows (metas j)) m.oid) m) in
          r ∷ spec_replies (stored S L) ms' qs)
  put_replies ix j m qs out rep (kept e there same e_out) go =
      rw (e_out, latest-metas j m.oid, same, recording, latest-metas j m.oid, there)
        (ap (λ rs. row (ok e) ∷ rs) (go ix j (omega arith) rep))
  put_replies ix j m qs out rep (failed change rep' failure fault) go =
      absurd (no-IsFault S L ix j m reliable fault)
  put_replies ix j m qs out rep (recorded raw change rep' e_out) go =
      rw (e_out, latest-metas j m.oid, change, length-metas j)
        (ap (λ rs. row (ok (entry (length j + 1) m)) ∷ rs)
          (go out.0 (record { meta = stored S L m; raw = raw } ∷ j) (omega arith) rep'))

  get_seq_lem : (ix : BlockIndex S) → get_seq S ix ≡ ix.seq
  unfolding get_seq
  get_seq_lem ix = refl

  -- If the store and the encoder do not fail, the index stands for a journal with room for a row
  -- more for each request, and requests name blocks by identifiers and numbers that fit a
  -- uint64: any sequence of calls of the index, with restarts between them, is answered as a
  -- list of the recorded changes answers it, in which a `Put` adds the metadata, with the time
  -- as it is stored, exactly if it is a change. As the code has it, and unlike what the
  -- interface and docs/concepts.md say, a listing leaves out its end, different metadata with an
  -- equal time is a change, and metadata that is different but older is none.
  pub replies-spec :
      (ix : BlockIndex S) (j : Rows) (qs : List Request)
      → Represents S L ix j
      → All IsRequest qs
      → IsU64 (length j + length qs)
      → replies S ix qs ≡ spec_replies (stored S L) (metas j) qs
  replies-spec ix j [] rep h room = refl
  replies-spec ix j (putting n m ∷ qs) rep (id, h) room =
      put_replies ix j m qs (put S ix (entry n m)) rep
        (put-Outcome S L ix j n m rep id (omega (arith, room)))
        (λ ix' j' le rep'. replies-spec ix' j' qs rep' h (omega (arith, room, le)))
  replies-spec ix j (getting o ∷ qs) rep (id, h) room = rw (
    get_by_oid-latest S L ix j o rep id,
    latest-metas j o,
    replies-spec ix j qs rep h (omega (arith, room)),
  )
  replies-spec ix j (getting_seq n ∷ qs) rep (u, h) room = rw (
    get_by_seq-numbered S L ix j n rep u,
    numbered-metas j n,
    replies-spec ix j qs rep h (omega (arith, room)),
  )
  replies-spec ix j (asking o ∷ qs) rep (id, h) room = rw (
    has-latest S L ix j o rep id,
    latest-metas j o,
    replies-spec ix j qs rep h (omega (arith, room)),
  )
  replies-spec ix j (listing start end ∷ qs) rep ((us, ue), h) room = rw (
    enumerate_by_seq-slice S L ix j start end rep us ue,
    slice-metas j start end,
    replies-spec ix j qs rep h (omega (arith, room)),
  )
  replies-spec ix j (counting ∷ qs) rep (u, h) room =
      ap (λ k. number k ∷ replies S ix qs) (get_seq_lem ix ∙ rep.seq_ok ∙ sym (length-metas j))
      ∙ ap (λ rs. number (length (metas j)) ∷ rs) (replies-spec ix j qs rep h (omega (arith, room)))
  replies-spec ix j (reopening ∷ qs) rep (u, h) room =
      rw (new_block_index_reopens S L ix j rep (omega (arith, room)))
        (ap (λ rs. answer (ok true) ∷ rs) (replies-spec ix j qs rep h (omega (arith, room))))
