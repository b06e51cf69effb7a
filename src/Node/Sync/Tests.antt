-- ===== src/Node/Sync/Tests.antt =====
-- A node of swarm/node/node.go that syncs with a peer that sends one row until it is past it.
use mathlib.Core.Path.{subst}
use juren_cluster.Prelude.{
  ℕ, ◌≢◌, ap, arith, Option, none, some, List, [], ◌∷◌, All, leb, if◌then◌else◌, Bool-cases, inl,
  inr,
}
use juren_cluster.Outcome.{Result, ok, stuck}
use juren_cluster.DataModel.{ExtendedMetadata}
use juren_cluster.LevelDb.Memory.{memory, memory-Ends}
use juren_cluster.Protocol.{PeerSyncResponse, peer_sync}
use juren_cluster.Node.Sync.{Answers, sync_block_index_and_update_metadata}
use juren_cluster.Node.Sync.Advances.{IsNumbered, IsAdvancing}
use juren_cluster.Node.Sync.Terminates.{sync-ends}
use juren_cluster.Examples.{node_a, metadata_a, newcomer, node_metadata_a}

-- A peer that has three rows, all of one block.
abbrev rows_from : ℕ → List (Option ExtendedMetadata)
rows_from n =
    if leb n 3 then some (record { sequence_number = 3; metadata = some metadata_a }) ∷ [] else []

rows_from-IsNumbered : (n : ℕ) → All (IsNumbered n 3) (rows_from n)
rows_from-IsNumbered n = elim (Bool-cases (leb n 3)) [
  | inl some_row ↦ rw some_row ((ground (arith, some_row), omega arith), tt)
  | inr no_row ↦ rw no_row tt
]

abbrev three_rows : Answers
three_rows k name req = ok (record { node_id = node_a; entries = rows_from req.sequence_number })

abbrev entries_of : Result PeerSyncResponse → List (Option ExtendedMetadata)
entries_of (ok ps) = ps.entries
entries_of _ = []

abbrev answers_of : Result Answers → Answers
answers_of (ok answers) = answers
answers_of _ = three_rows

three_rows-IsAdvancing : IsAdvancing 3 three_rows
unfolding peer_sync
three_rows-IsAdvancing k req = (
  (λ e. cc e),
  λ ps e.
      subst (All (IsNumbered req.sequence_number 3)) (ap entries_of e)
        (rows_from-IsNumbered req.sequence_number),
)

sync-ends_example :
    (sync_block_index_and_update_metadata memory 4 newcomer node_metadata_a none
      (λ addr. ok three_rows)).1
    ≢ stuck
sync-ends_example =
    sync-ends memory memory-Ends 3 4 newcomer node_metadata_a (λ addr. ok three_rows) (omega arith)
      (omega arith) (omega arith) (λ addr e. cc e)
      (λ addr answers e. subst (IsAdvancing 3) (ap answers_of e) three_rows-IsAdvancing)
