-- ===== src/Node/Tests.antt =====
-- A node of swarm/node/node.go that syncs with another one, and asks it for a block.
use juren_cluster.Prelude.{map, ◌++◌, none}
use juren_cluster.Outcome.{publish_failed, shut_down}
use juren_cluster.Timer.{tick, done, returned, run_with_ticker}
use juren_cluster.Node.Heartbeat.{announce, announcements, run_with_ticker-announcements}
use juren_cluster.Prelude.{
  ℕ, ◌≡◌, ◌≢◌, refl, ap, ◌∙◌, arith, true, none, some, [], ◌∷◌, Bytes, length, All, lookup, List,
  Option, ◌≤◌,
}
use mathlib.Core.Path.{subst}
use juren_cluster.DataModel.{ExtendedMetadata}
use juren_cluster.Node.Sync.Absorbs.{IsValid}
use juren_cluster.Outcome.{Result, ok, not_found}
use juren_cluster.LevelDb.Memory.{memory, memory_laws, memory_reliable}
use juren_cluster.BlockIndex.Journal.{latest, entry}
use juren_cluster.Tracker.{new_tracker}
use juren_cluster.Tracker.Laws.{new_tracker-IsTracker}
use juren_cluster.NodeIndex
use juren_cluster.NodeIndex.Laws.{get_missing}
use juren_cluster.Oid.RoundTrip.{oid_eq_iff}
use juren_cluster.Protocol.{BlockAnnouncementMessage, PeerSyncResponse, peer_sync}
use juren_cluster.Node.{Node}
use juren_cluster.Node.Sync.{known_sequence, Answers, sync_block_index_and_update_metadata}
use juren_cluster.Node.Sync.Keeps.{Kept, IsBounded, sync-Kept}
use juren_cluster.Node.Sync.CatchesUp.{Caught, sync_catches_up}
use juren_cluster.Node.Sync.Rounds.{served_by}
use juren_cluster.Node.Handlers.{
  advertized, filtered_addresses, announced_metadata, announcement, new_node,
  process_block_discovery_message,
}
use juren_cluster.Node.Handlers.Laws.{
  Filtered, filtered_addresses-Filtered, announced-nonempty, Informed, discovery_informs,
}
use juren_cluster.Examples.{
  node_a, node_a-IsOid, node_a-ne_node_b, block_a, block_a-IsOid, metadata_a, rows_a,
  one_row-Represents, no_rows, no_nodes, no_rows-Represents, node_metadata_a, peer, newcomer,
}

abbrev dial_peer : Bytes → Result Answers
dial_peer addr = ok (served_by memory peer)

known_nothing : known_sequence memory (NodeIndex.get memory no_nodes node_a) ≡ ok 0
unfolding known_sequence memory lookup
known_nothing = rw (get_missing memory memory_laws no_nodes node_a not_found refl)

sync_catches_up_example :
    Caught memory memory_laws memory_reliable peer rows_a one_row-Represents
      (omega arith)
      []
      newcomer
      node_metadata_a
      0
      (sync_block_index_and_update_metadata memory 1 newcomer node_metadata_a none dial_peer)
sync_catches_up_example =
    sync_catches_up memory memory_laws memory_reliable peer rows_a one_row-Represents (omega arith)
      1 [] newcomer node_metadata_a (49 ∷ []) [] dial_peer 0 no_rows-Represents node_a-IsOid
      node_a-ne_node_b refl refl known_nothing (omega arith) (omega arith) (omega arith)
      (omega arith)

-- A peer that always answers with one entry.
abbrev one_entry : PeerSyncResponse
one_entry = record { node_id = node_a; entries = some (entry 1 metadata_a) ∷ [] }

abbrev repeated : Answers
repeated k method req = ok one_entry

abbrev entries_of : Result PeerSyncResponse → List (Option ExtendedMetadata)
entries_of (ok ps) = ps.entries
entries_of _ = []

abbrev dial_repeated : Bytes → Result Answers
dial_repeated addr = ok repeated

bounded :
    (addr : Bytes) (answers : Answers)
    → dial_repeated addr ≡ ok answers
    → (i : ℕ) → IsBounded 100 (answers i)
unfolding peer_sync
bounded addr answers e i req ps answered =
    let same : repeated ≡ answers = cc e in
    let back : ok one_entry ≡ ok ps = ap (λ (a : Answers). peer_sync (a i) req) same ∙ answered in
    subst (λ es. All IsValid es × (length es ≤ 100)) (ap entries_of back)
      ((block_a-IsOid, tt), omega arith)

sync-Kept_example :
    Kept memory memory_laws [] 100 newcomer
      (sync_block_index_and_update_metadata memory 1 newcomer node_metadata_a none dial_repeated)
sync-Kept_example =
    sync-Kept memory memory_laws 1 [] 100 newcomer node_metadata_a none dial_repeated
      no_rows-Represents (omega arith) bounded

filtered_addresses-Filtered_example :
    Filtered
      (λ addr. ok addr)
      (49 ∷ [])
      ((49 ∷ []) ∷ (50 ∷ []) ∷ [])
      (filtered_addresses (λ addr. ok addr) (49 ∷ []) ((49 ∷ []) ∷ (50 ∷ []) ∷ []))
filtered_addresses-Filtered_example =
    filtered_addresses-Filtered (λ addr. ok addr) (49 ∷ []) ((49 ∷ []) ∷ (50 ∷ []) ∷ [])

abbrev fresh_node : Node memory
fresh_node = record {
  node_id = node_a;
  addresses = (49 ∷ []) ∷ [];
  block_index = no_rows;
  node_index = no_nodes;
  who_has_block = new_tracker;
}

made : new_node memory node_a (49 ∷ []) [] no_rows no_nodes ≡ ok fresh_node
unfolding new_node advertized
made = refl

announced-nonempty_example :
    length
      (announced_metadata
        (λ addr. ok addr)
        []
        node_metadata_a.last_seen
        (announcement memory fresh_node)).addresses
    ≢ 0
announced-nonempty_example =
    announced-nonempty memory node_a (49 ∷ []) [] no_rows no_nodes fresh_node (λ addr. ok addr) []
      node_metadata_a.last_seen made

row_a : latest rows_a block_a ≡ some (entry 1 metadata_a)
unfolding latest
row_a = rw ((oid_eq_iff block_a block_a).1 refl)

discovery_informs_example :
    Informed memory memory_laws peer newcomer [] block_a metadata_a true
      (process_block_discovery_message memory peer (λ o. ok true) (record { oid = block_a }))
discovery_informs_example =
    discovery_informs memory memory_laws peer newcomer rows_a [] block_a 1 metadata_a true
      (λ o. ok true) memory_reliable one_row-Represents no_rows-Represents (omega arith)
      new_tracker-IsTracker block_a-IsOid node_a-ne_node_b row_a refl

abbrev told : BlockAnnouncementMessage
told = record { node_id = node_a; block = metadata_a; has = true }

run_with_ticker-announcements_example :
    run_with_ticker
      (announce memory)
      []
      (map tick ((peer, none) ∷ (newcomer, some publish_failed) ∷ []) ++ done shut_down ∷ [])
    ≡ (
      announcements memory ((peer, none) ∷ (newcomer, some publish_failed) ∷ []),
      returned shut_down,
    )
run_with_ticker-announcements_example =
    run_with_ticker-announcements memory shut_down
      ((peer, none) ∷ (newcomer, some publish_failed) ∷ [])
