-- ===== src/BlockIndex/Tests.antt =====
-- datastore/leveldb/blockindex.go on an index with one row and an index with none.
use juren_cluster.Prelude.{◌∷◌}
use juren_cluster.BlockIndex.Put.{stored}
use juren_cluster.BlockIndex.Refines.{
  replies, spec_replies, metas, putting, getting, reopening, listing, counting, replies-spec,
}
use juren_cluster.Prelude.{◌≡◌, ◌≢◌, ◌≤◌, ◌+◌, refl, sym, ap, ◌∙◌, arith, []}
use juren_cluster.Outcome.{ok}
use juren_cluster.LevelDb.Memory.{memory, memory_laws, memory_reliable, memory_truncates}
use juren_cluster.BlockIndex.{new_block_index, put, enumerate_by_seq, get_seq}
use juren_cluster.BlockIndex.Journal.{entry, latest, slice}
use juren_cluster.BlockIndex.Put.{Outcome, put-Outcome}
use juren_cluster.BlockIndex.Range.{enumerate_by_seq-slice}
use juren_cluster.BlockIndex.Reopen.{new_block_index_reopens}
use juren_cluster.BlockIndex.Wins.{Advances, put-Advances, put_again}
use juren_cluster.BlockIndex.Renumbers.{get_seq-put_twice}
use juren_cluster.DataModel.{Metadata, Time}
use juren_cluster.Examples.{
  metadata_a, block_a, block_a-IsOid, whole, no_rows, no_rows-Represents, rows_a, one_row,
  one_row-Represents,
}

put-Outcome_example :
    Outcome memory memory_laws one_row rows_a metadata_a (put memory one_row (entry 0 metadata_a))
put-Outcome_example =
    put-Outcome memory memory_laws one_row rows_a 0 metadata_a one_row-Represents block_a-IsOid
      (omega arith)

put-Advances_example :
    Advances memory memory_laws [] metadata_a (put memory no_rows (entry 7 metadata_a))
put-Advances_example =
    put-Advances memory memory_laws no_rows [] 7 metadata_a no_rows-Represents block_a-IsOid
      (omega arith)

enumerate_by_seq-slice_example : enumerate_by_seq memory one_row 1 101 ≡ ok (slice rows_a 1 101)
enumerate_by_seq-slice_example =
    enumerate_by_seq-slice memory memory_laws one_row rows_a 1 101 one_row-Represents (omega arith)
      (omega arith)

new_block_index_reopens_example : new_block_index memory (ok one_row.db) ≡ ok one_row
new_block_index_reopens_example =
    new_block_index_reopens memory memory_laws one_row rows_a one_row-Represents (omega arith)

first_put : Advances memory memory_laws [] metadata_a (put memory no_rows (entry 0 metadata_a))
first_put =
    put-Advances memory memory_laws no_rows [] 0 metadata_a no_rows-Represents block_a-IsOid
      (omega arith)

put_again_example :
    (put memory (put memory no_rows (entry 0 metadata_a)).0 (entry 5 metadata_a)).0
    ≡ (put memory no_rows (entry 0 metadata_a)).0
put_again_example =
    put_again memory memory_laws no_rows [] 0 5 metadata_a (first_put.succeeds memory_reliable).0
      no_rows-Represents block_a-IsOid (omega arith) whole (first_put.succeeds memory_reliable).1

-- A time with a fraction of a second.
abbrev precise : Metadata
precise = record metadata_a { update_time = record { instant = 5000000001; form = 0 } }

earlier : (memory_laws.stored_time precise.update_time).instant ≤ precise.update_time.instant
earlier = rw (memory_truncates precise.update_time) (omega arith)

dropped : memory_laws.stored_time precise.update_time ≢ precise.update_time
dropped e =
    let f : 5000000000 ≡ 5000000001 =
      ap (λ (t : Time). t.instant) (sym (memory_truncates precise.update_time) ∙ e) in
    omega (arith, f)

get_seq-put_twice_example :
    get_seq memory (put memory (put memory no_rows (entry 0 precise)).0 (entry 1 precise)).0
    ≡ get_seq memory no_rows + 2
unfolding latest
get_seq-put_twice_example =
    get_seq-put_twice memory memory_laws no_rows [] 0 1 precise memory_reliable no_rows-Represents
      block_a-IsOid (omega arith) refl earlier dropped

replies-spec_example :
    replies memory no_rows
      (putting 0 metadata_a ∷ getting block_a ∷ reopening ∷ listing 1 5 ∷ counting ∷ [])
    ≡ spec_replies
        (stored memory memory_laws)
        (metas [])
        (putting 0 metadata_a ∷ getting block_a ∷ reopening ∷ listing 1 5 ∷ counting ∷ [])
replies-spec_example =
    replies-spec memory memory_laws memory_reliable no_rows []
      (putting 0 metadata_a ∷ getting block_a ∷ reopening ∷ listing 1 5 ∷ counting ∷ [])
      no_rows-Represents
      (block_a-IsOid, (block_a-IsOid, (tt, ((omega arith, omega arith), (tt, tt))))) (omega arith)
