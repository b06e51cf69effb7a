-- ===== src/Node/Sync.antt =====
-- `syncBlockIndexAndUpdateMetadata` of swarm/node/node.go. The peer is what its calls answer: the
-- k-th call of a connection answers `answers k request`.
pub mod Slices
pub mod Absorbs
pub mod Keeps
pub mod Pointers
pub mod Steps
pub mod Batches
pub mod CatchesUp
pub mod Rounds
pub mod Advances
pub mod Terminates
mod Tests
use juren_cluster.Prelude.{
  ℕ, zero, suc, ◌+◌, ◌%◌, ◌^◌, max, Bool, true, false, Option, none, some, List, [], ◌∷◌, Bytes,
  length, ltb, ◌==◌, if◌then◌else◌,
}
use juren_cluster.Outcome.{
  Result, ok, err, panic, stuck, ◌>>=◌, nil_dereference, index_out_of_range, sequence_regressed,
  connect_failed, sync_failed, put_block_failed, put_node_failed, Error,
}
use juren_cluster.Oid.{Oid, oid_eq}
use juren_cluster.DataModel.{Metadata, ExtendedMetadata, NodeMetadata}
use juren_cluster.LevelDb.{Storage}
use juren_cluster.BlockIndex
use juren_cluster.BlockIndex.{BlockIndex}
use juren_cluster.NodeIndex
use juren_cluster.NodeIndex.{NodeIndex}
use juren_cluster.Protocol
use juren_cluster.Protocol.{PeerSyncRequest, PeerSyncResponse, Call}
use juren_cluster.Node.{Node, block_index_sync_batch_size}

-- The answers of one connection, by the number of the call.
abbrev pub Answers : Type 0
Answers = ℕ → Call PeerSyncRequest PeerSyncResponse

-- An error is wrapped in another one.
abbrev wrapped {ℓ} : {A : Type ℓ} → Error → Result A → Result A
wrapped e (err _) = err e
wrapped e r = r

-- Whether a round was the last one; else the greatest sequence number so far.
pub data Round : Type 0 where
  last : Round
  more : ℕ → Round

abbrev pub next_request : NodeMetadata → ℕ → PeerSyncRequest
next_request md seen = record {
  node_id = md.node_id;
  sequence_number = (seen + 1) % 2 ^ 64;
  batch_size = block_index_sync_batch_size;
}

module _ (S : Storage) where
  abbrev with_block_index : Node S → BlockIndex S → Node S
  with_block_index n ix = record n { block_index = ix }

  -- The loop over the entries of one answer.
  pub sync_entries : Node S → ℕ → List (Option ExtendedMetadata) → Node S × Result ℕ
  sync_entries n seen [] = (n, ok seen)
  sync_entries n seen (none ∷ rest) = (n, panic nil_dereference)
  sync_entries n seen (some block ∷ rest) =
      let (ix, r) = BlockIndex.put S n.block_index block in
      let n' = with_block_index n ix in
      let go = sync_entries n' (max seen block.sequence_number) rest in
      elim block.metadata [
        | none ↦ (n, panic nil_dereference)
        | some m ↦ elim r [
          | ok e ↦ go
          | err e ↦ (n', err put_block_failed)
          | panic p ↦ (n', panic p)
          | stuck ↦ (n', stuck)
        ]
      ]

  -- "Override the sequence number", store the metadata, and see whether the batch was full.
  pub store_progress :
      Node S → NodeMetadata → ℕ → List (Option ExtendedMetadata) → Node S × Result Round
  store_progress n md seen entries =
      let (ix, r) = NodeIndex.put S n.node_index (record md { sequence_number = seen }) in
      (
        record n { node_index = ix },
        wrapped put_node_failed r >>= λ _.
            ok (if ltb (length entries) block_index_sync_batch_size then last else more seen),
      )

  pub after_entries :
      NodeMetadata → List (Option ExtendedMetadata) → Node S × Result ℕ → Node S × Result Round
  unfolding store_progress
  after_entries md entries (n, ok seen) = store_progress n md seen entries
  after_entries md entries (n, err e) = (n, err e)
  after_entries md entries (n, panic p) = (n, panic p)
  after_entries md entries (n, stuck) = (n, stuck)

  after_call : Node S → NodeMetadata → ℕ → Result PeerSyncResponse → Node S × Result Round
  unfolding after_entries sync_entries
  after_call n md seen (ok ps) =
      if length ps.entries == 0
      then (n, ok last)
      else after_entries md ps.entries (sync_entries n seen ps.entries)
  after_call n md seen (err e) = (n, err sync_failed)
  after_call n md seen (panic p) = (n, panic p)
  after_call n md seen stuck = (n, stuck)

  -- One round of the loop.
  pub sync_round :
      Node S → NodeMetadata → ℕ → Call PeerSyncRequest PeerSyncResponse → Node S × Result Round
  unfolding after_call Protocol.peer_sync
  sync_round n md seen call = after_call n md seen (Protocol.peer_sync call (next_request md seen))

  -- The loop, on fuel; `k` counts the calls.
  pub sync_loop : ℕ → ℕ → Node S → NodeMetadata → ℕ → Answers → Node S × Result (Unit {0})
  unfolding sync_round
  sync_loop zero k n md seen answers = (n, stuck)
  sync_loop (suc fuel) k n md seen answers =
      let (n', r) = sync_round n md seen (answers k) in
      elim r [
        | ok round ↦ elim round [
          | last ↦ (n', ok tt)
          | more seen' ↦ sync_loop fuel (suc k) n' md seen' answers
        ]
        | err e ↦ (n', err e)
        | panic p ↦ (n', panic p)
        | stuck ↦ (n', stuck)
      ]

  -- What the node knows of the peer's journal; a peer that it never saw counts from 0.
  unfoldable pub known_sequence : Result NodeMetadata → Result ℕ
  known_sequence (ok existing) = ok existing.sequence_number
  known_sequence (err e) = ok 0
  known_sequence (panic p) = panic p
  known_sequence stuck = stuck

  connected : ℕ → Node S → NodeMetadata → ℕ → Result Answers → Node S × Result (Unit {0})
  unfolding sync_loop
  connected fuel n md known (ok answers) = sync_loop fuel 0 n md known answers
  connected fuel n md known (err e) = (n, err connect_failed)
  connected fuel n md known (panic p) = (n, panic p)
  connected fuel n md known stuck = (n, stuck)

  store_metadata : Node S → NodeMetadata → Node S × Result (Unit {0})
  store_metadata n md =
      let (ix, r) = NodeIndex.put S n.node_index md in
      (record n { node_index = ix }, wrapped put_node_failed r >>= λ _. ok tt)

  pub sync_known :
      ℕ → Node S → NodeMetadata → Result Answers → Result ℕ → Node S × Result (Unit {0})
  unfolding connected store_metadata
  sync_known fuel n md conn (ok known) =
      if ltb md.sequence_number known
      then (n, err sequence_regressed)
      else if known == md.sequence_number
      then store_metadata n md
      else connected fuel n md known conn
  sync_known fuel n md conn (err e) = (n, err e)
  sync_known fuel n md conn (panic p) = (n, panic p)
  sync_known fuel n md conn stuck = (n, stuck)

  pub sync_with :
      ℕ → Node S → NodeMetadata → (Bytes → Result Answers) → List Bytes → Node S × Result (Unit {0})
  unfolding sync_known known_sequence
  sync_with fuel n md dial [] = (n, panic index_out_of_range)
  sync_with fuel n md dial (addr ∷ addrs) =
      sync_known fuel n md (dial addr) (known_sequence (NodeIndex.get S n.node_index md.node_id))

  -- The result is what the function logs. `flight` is what `singleflight` gives the call: nothing
  -- if the call runs the function, or the result of the run that it joins.
  pub sync_block_index_and_update_metadata :
      ℕ
      → Node S
      → NodeMetadata
      → Option (Result (Unit {0}))
      → (Bytes → Result Answers)
      → Node S × Result (Unit {0})
  unfolding sync_with
  sync_block_index_and_update_metadata fuel n md flight dial =
      if oid_eq md.node_id n.node_id
      then (n, ok tt)
      else elim flight [ some r ↦ (n, r) | none ↦ sync_with fuel n md dial md.addresses ]
