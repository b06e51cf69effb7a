-- ===== src/BlockIndex/Journal.antt =====
-- What the block index of datastore/leveldb/blockindex.go stands for: a journal of metadata. The
-- newest row is first, and the number of a row is its distance from the end of the list.
use juren_cluster.Prelude.{
  ℕ, Bool, true, false, not, ◌&&◌, Option, none, some, List, [], ◌∷◌, ◌++◌, Bytes, bytes_eq, length,
  ltb, leb, ◌==◌, if◌then◌else◌,
}
use juren_cluster.Outcome.{Result, ok, err, not_found}
use juren_cluster.Oid.{Oid, oid_eq}
use juren_cluster.DataModel.{Metadata, ExtendedMetadata, is_metadata_equal, after}
use juren_cluster.LevelDb.Keys.{key_from_block_oid, key_from_seq}

-- The metadata of a row, and its encoding as it lies in the store.
pub record Row : Type 0 where
  pub meta : Metadata
  pub raw : Bytes

abbrev pub Rows : Type 0
Rows = List Row

abbrev pub entry : ℕ → Metadata → ExtendedMetadata
entry n m = record { sequence_number = n; metadata = some m }

-- What the store holds under a key.
unfoldable pub contents : Rows → Bytes → Result Bytes
contents [] k = err not_found
contents (r ∷ j) k =
    if bytes_eq (key_from_block_oid r.meta.oid) k
    then ok r.raw
    else if bytes_eq (key_from_seq (length (r ∷ j))) k
    then ok r.raw
    else contents j k

-- The newest row of a block.
unfoldable pub latest : Rows → Oid → Option ExtendedMetadata
latest [] oid = none
latest (r ∷ j) oid =
    if oid_eq r.meta.oid oid then some (entry (length (r ∷ j)) r.meta) else latest j oid

-- The row with a number.
unfoldable pub numbered : Rows → ℕ → Option ExtendedMetadata
numbered [] n = none
numbered (r ∷ j) n = if length (r ∷ j) == n then some (entry n r.meta) else numbered j n

abbrev pub between : ℕ → ℕ → ℕ → Bool
between start end n = leb start n && ltb n end

-- The rows numbered from `start` up to and without `end`, oldest first.
unfoldable pub slice : Rows → ℕ → ℕ → List ExtendedMetadata
slice [] start end = []
slice (r ∷ j) start end =
    slice j start end
    ++ (if between start end (length (r ∷ j)) then entry (length (r ∷ j)) r.meta ∷ [] else [])

unfoldable pub is_fresher : Option Metadata → Metadata → Bool
is_fresher none m = false
is_fresher (some old) m = after old.update_time m.update_time

-- A change is recorded unless the row that is there is equal to it or more fresh.
unfoldable pub is_change : Option ExtendedMetadata → Metadata → Bool
unfolding is_fresher
is_change none m = true
is_change (some e) m = not (is_metadata_equal e.metadata (some m)) && not (is_fresher e.metadata m)
