-- ===== src/Node/Sync/Batches.antt =====
-- What a peer that runs the same program (swarm/node/server.go) answers to one call of a sync.
use Prim.Native.Nat.{min}
use juren_cluster.Prelude.{
  ℕ, ◌+◌, ◌-◌, ◌%◌, ◌^◌, ◌≤◌, ◌<◌, ◌≡◌, refl, ◌∙◌, arith, true, false, Option, some, List, length,
  ltb, leb, All, if◌then◌else◌, inl, inr, Bool-cases,
}
use juren_cluster.Outcome.{Result, ok, err, panic, stuck}
use juren_cluster.DataModel.{Metadata, ExtendedMetadata, NodeMetadata}
use juren_cluster.LevelDb.{Storage, StorageLaws, IsReliable}
use juren_cluster.LevelDb.KeyOrder.{IsU64}
use juren_cluster.BlockIndex.Journal.{Rows, entry, numbered, between, slice}
use juren_cluster.BlockIndex.Represents.{Represents}
use juren_cluster.BlockIndex.Range.{enumerate_by_seq-slice}
use juren_cluster.BlockIndex.Wins.{IsAtLeast}
use juren_cluster.NodeIndex
use juren_cluster.NodeIndex.Laws.{put-ok}
use juren_cluster.Node.{Node, block_index_sync_batch_size}
use juren_cluster.Node.Server.{serve_peer_sync}
use juren_cluster.Node.Sync.{last, more, next_request, store_progress, after_entries}
use juren_cluster.Node.Sync.Slices.{length-slice, max_seq_of-slice, All-slice}
use juren_cluster.Node.Sync.Absorbs.{IsValid, HasMetadata, Landed, LandedMetadata, max_seen}
use juren_cluster.Node.Sync.Pointers.{
  pointers, length-pointers, max_seen-pointers, All-pointers, slice-pointers, numbered-stored,
}

module _ (theirs : Rows) where
  -- How far one round gets.
  abbrev pub reached : ℕ → ℕ
  reached seen = min (seen + 100) (length theirs)

  -- The rows of the peer with numbers in the range are matched by rows that are at least as new.
  abbrev pub Covers : Rows → ℕ → ℕ → Type 0
  Covers rows low high =
      (k : ℕ) (m : Metadata)
      → numbered theirs k ≡ some (entry k m)
      → low < k
      → k ≤ high
      → IsAtLeast rows m.oid m.update_time.instant

  pub joined-Covers :
      (rows : Rows) (low mid high : ℕ)
      → Covers rows low mid
      → Covers rows mid high
      → Covers rows low high
  joined-Covers rows low mid high a b k m row hl hh = elim (Bool-cases (leb k mid)) [
    | inl early ↦ a k m row hl (ground (arith, early))
    | inr late ↦ b k m row (ground (arith, late)) hh
  ]

  pub length-batch :
      (seen : ℕ) → length (pointers (slice theirs (seen + 1) (seen + 101))) ≡ reached seen - seen
  length-batch seen =
      length-pointers (slice theirs (seen + 1) (seen + 101))
      ∙ length-slice theirs (seen + 1) (seen + 101) (omega arith)
      ∙ omega arith

  pub max_seen-batch :
      (seen : ℕ)
      → seen ≤ length theirs
      → max_seen seen (pointers (slice theirs (seen + 1) (seen + 101))) ≡ reached seen
  max_seen-batch seen h =
      max_seen-pointers seen (slice theirs (seen + 1) (seen + 101))
      ∙ max_seq_of-slice theirs seen (seen + 101) (omega arith)
      ∙ omega (arith, h)

module _ (S : Storage) (L : StorageLaws S) where
  module _ (peer : Node S) (theirs : Rows) (peer_ok : Represents S L peer.block_index theirs) where
    pub answer :
        (md : NodeMetadata) (seen : ℕ)
        → IsU64 (length theirs + 101)
        → seen ≤ length theirs
        → serve_peer_sync S peer (next_request md seen)
          ≡ ok (record {
            node_id = peer.node_id;
            entries = pointers (slice theirs (seen + 1) (seen + 101));
          })
    unfolding serve_peer_sync
    answer md seen peer_room h =
        let start : (seen + 1) % 2 ^ 64 ≡ seen + 1 = omega (arith, peer_room) in
        let end : (seen + 1 + 100) % 2 ^ 64 ≡ seen + 101 = omega (arith, peer_room) in
        let ordered : ltb (seen + 101) (seen + 1) ≡ false = ground arith in
        rw (
          start,
          end,
          enumerate_by_seq-slice S L peer.block_index theirs (seen + 1) (seen + 101) peer_ok
              (omega (arith, peer_room)) (omega (arith, peer_room)),
          ordered,
        )

    pub Landed-Covers :
        (rows : Rows) (seen : ℕ)
        → All (Landed S L rows) (pointers (slice theirs (seen + 1) (seen + 101)))
        → Covers theirs rows seen (reached theirs seen)
    Landed-Covers rows seen all k m row low high =
        let here : between (seen + 1) (seen + 101) k ≡ true = ground arith in
        let landed =
          All-slice (λ e. LandedMetadata S L rows e.metadata) theirs (seen + 1) (seen + 101) k
            (entry k m) (All-pointers (Landed S L rows) _ all) row here in
        rw (numbered-stored S L theirs k m peer_ok.decodes row) at landed

    pub HasMetadata-slice :
        (start end : ℕ) → All (HasMetadata S L) (pointers (slice theirs start end))
    HasMetadata-slice start end =
        slice-pointers S L (HasMetadata S L) theirs start end (λ n m id. (m, refl)) peer_ok.decodes

    pub IsValid-slice : (start end : ℕ) → All IsValid (pointers (slice theirs start end))
    IsValid-slice start end =
        slice-pointers S L IsValid theirs start end (λ n m id. id) peer_ok.decodes

  module _ (reliable : IsReliable S) where
    pub after_entries-ok :
        (md : NodeMetadata) (es : List (Option ExtendedMetadata)) (out : Node S × Result ℕ) (s : ℕ)
        → out.1 ≡ ok s
        → after_entries S md es out ≡ (
          record out.0 {
            node_index = (NodeIndex.put S out.0.node_index (record md { sequence_number = s })).0;
          },
          ok (if ltb (length es) block_index_sync_batch_size then last else more s),
        )
    unfolding after_entries store_progress
    after_entries-ok md es (n, ok t) s h =
        let same : t ≡ s = cc h in
        rw (same, put-ok S L n.node_index (record md { sequence_number = s }) reliable)
    after_entries-ok md es (n, err x) s h = absurd (cc h)
    after_entries-ok md es (n, panic x) s h = absurd (cc h)
    after_entries-ok md es (n, stuck) s h = absurd (cc h)
