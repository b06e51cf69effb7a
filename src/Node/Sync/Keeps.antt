-- ===== src/Node/Sync/Keeps.antt =====
-- A sync (swarm/node/node.go) with a peer that answers whatever it likes.
use juren_cluster.Prelude.{
  ℕ, zero, suc, ◌+◌, ◌*◌, ◌^◌, ◌≤◌, ◌<◌, ◌≡◌, refl, ◌∙◌, arith, Option, none, some, List, [], ◌∷◌,
  Bytes, length, ltb, All, ◌==◌, inl, inr, Bool-cases,
}
use juren_cluster.Outcome.{Result, ok, err, panic, stuck}
use juren_cluster.Oid.{Oid, oid_eq}
use juren_cluster.DataModel.{ExtendedMetadata, NodeMetadata}
use juren_cluster.LevelDb.{Storage, StorageLaws}
use juren_cluster.LevelDb.KeyOrder.{IsU64}
use juren_cluster.BlockIndex.Journal.{Rows}
use juren_cluster.BlockIndex.Represents.{Represents}
use juren_cluster.BlockIndex.Wins.{IsAtLeast}
use juren_cluster.Protocol.{PeerSyncRequest, PeerSyncResponse, Call, peer_sync}
use juren_cluster.Node.{Node}
use juren_cluster.Node.Sync.{
  Answers, last, more, next_request, store_progress, after_entries, after_call, sync_round,
  sync_loop, connected, store_metadata, sync_known, sync_with, sync_block_index_and_update_metadata,
}
use juren_cluster.Node.Sync.Absorbs.{IsValid, Absorbed, sync_entries-Absorbed, Result-cases}

-- A peer answers a call with at most `batch` entries, and each names its block by an identifier.
abbrev pub IsBounded : ℕ → Call PeerSyncRequest PeerSyncResponse → Type 0
IsBounded batch call =
    (req : PeerSyncRequest) (ps : PeerSyncResponse)
    → peer_sync call req ≡ ok ps
    → All IsValid ps.entries × (length ps.entries ≤ batch)

module _ (S : Storage) (L : StorageLaws S) where
  -- The index stands for a journal with at most `budget` rows more, in which no block's newest row
  -- is older, and the node is the same.
  pub record Kept {ℓ} {A : Type ℓ} (j : Rows) (budget : ℕ) (n : Node S) (out : Node S × Result A)
      : Type 0 where
    pub rows : Rows
    pub represents : Represents S L out.0.block_index rows
    pub keeps : (o : Oid) (t : ℕ) → IsAtLeast j o t → IsAtLeast rows o t
    pub grows : length rows ≤ length j + budget
    pub node_id_kept : out.0.node_id ≡ n.node_id

  unchanged {ℓ} :
      {A : Type ℓ} (j : Rows) (budget : ℕ) (n n' : Node S) (r : Result A)
      → Represents S L n.block_index j
      → n'.block_index ≡ n.block_index
      → n'.node_id ≡ n.node_id
      → Kept j budget n (n', r)
  unchanged j budget n n' r rep same id = record {
    rows = j;
    represents = rw same rep;
    keeps = λ o t h. h;
    grows = omega arith;
    node_id_kept = id;
  }

  after_entries-Kept :
      (j : Rows) (budget : ℕ) (n : Node S) (md : NodeMetadata) (seen : ℕ)
      (es : List (Option ExtendedMetadata)) (out : Node S × Result ℕ)
      → length es ≤ budget
      → Absorbed S L j n seen es out
      → Kept j budget n (after_entries S md es out)
  unfolding after_entries store_progress
  after_entries-Kept j budget n md seen es (n', ok s) fits a = record {
    rows = a.rows;
    represents = a.represents;
    keeps = a.keeps;
    grows = omega (arith, a.grows);
    node_id_kept = a.node_id_kept;
  }
  after_entries-Kept j budget n md seen es (n', r) fits a = record {
    rows = a.rows;
    represents = a.represents;
    keeps = a.keeps;
    grows = omega (arith, a.grows);
    node_id_kept = a.node_id_kept;
  }

  after_call-Kept :
      (j : Rows) (budget : ℕ) (n : Node S) (md : NodeMetadata) (seen : ℕ)
      (r : Result PeerSyncResponse)
      → Represents S L n.block_index j
      → IsU64 (length j + budget)
      → ((ps : PeerSyncResponse)
          → r ≡ ok ps
          → All IsValid ps.entries × (length ps.entries ≤ budget))
      → Kept j budget n (after_call S n md seen r)
  unfolding after_call
  after_call-Kept j budget n md seen (ok ps) rep room fits =
      elim (Bool-cases (length ps.entries == 0)) [
        | inl empty ↦ rw empty (unchanged j budget n n (ok last) rep refl refl)
        | inr some_entries ↦
            let (valid, few) = fits ps refl in
            rw some_entries (
              after_entries-Kept j budget n md seen ps.entries _ few
                (sync_entries-Absorbed S L n j seen ps.entries rep valid (omega arith)))
      ]
  after_call-Kept j budget n md seen (err x) rep room fits = unchanged j budget n n _ rep refl refl
  after_call-Kept j budget n md seen (panic x) rep room fits =
      unchanged j budget n n _ rep refl refl
  after_call-Kept j budget n md seen stuck rep room fits = unchanged j budget n n _ rep refl refl

  sync_round-Kept :
      (j : Rows) (budget : ℕ) (n : Node S) (md : NodeMetadata) (seen : ℕ)
      (call : Call PeerSyncRequest PeerSyncResponse)
      → Represents S L n.block_index j
      → IsU64 (length j + budget)
      → IsBounded budget call
      → Kept j budget n (sync_round S n md seen call)
  unfolding sync_round
  sync_round-Kept j budget n md seen call rep room bounded =
      after_call-Kept j budget n md seen (peer_sync call (next_request md seen)) rep room
        (λ ps e. bounded (next_request md seen) ps e)

  widen {ℓ κ} :
      {A : Type ℓ} {B : Type κ} (j : Rows) (budget : ℕ) (n : Node S) (m : Node S × Result A)
      (r : Result B)
      → Kept j budget n m
      → (more_budget : ℕ) → Kept j (budget + more_budget) n (m.0, r)
  widen j budget n m r k more_budget = record {
    rows = k.rows;
    represents = k.represents;
    keeps = k.keeps;
    grows = omega (arith, k.grows);
    node_id_kept = k.node_id_kept;
  }

  sync_loop-Kept :
      (fuel k : ℕ) (j : Rows) (budget : ℕ) (n : Node S) (md : NodeMetadata) (seen : ℕ)
      (answers : Answers)
      → Represents S L n.block_index j
      → IsU64 (length j + budget * fuel)
      → ((i : ℕ) → IsBounded budget (answers i))
      → Kept j (budget * fuel) n (sync_loop S fuel k n md seen answers)
  unfolding sync_loop
  sync_loop-Kept zero k j budget n md seen answers rep room bounded =
      unchanged j _ n n _ rep refl refl
  sync_loop-Kept (suc fuel) k j budget n md seen answers rep room bounded =
      let room' : length j + (budget + budget * fuel) < 2 ^ 64 = omega arith in
      let one =
        sync_round-Kept j budget n md seen (answers k) rep (omega (arith, room')) (bounded k) in
      let out = sync_round S n md seen (answers k) in
      let total : budget * suc fuel ≡ budget + budget * fuel = omega arith in
      rw total (elim (Result-cases out.1) [
        | inl (last, e) ↦ rw (e, sync_loop) (widen j budget n out (ok tt) one (budget * fuel))
        | inl (more seen', e) ↦
            let rest =
              sync_loop-Kept fuel (suc k) one.rows budget out.0 md seen' answers one.represents
                (omega (arith, one.grows, room')) bounded in
            rw (e, sync_loop)
              (record {
                rows = rest.rows;
                represents = rest.represents;
                keeps = λ o t h. rest.keeps o t (one.keeps o t h);
                grows = omega (arith, rest.grows, one.grows);
                node_id_kept = rest.node_id_kept ∙ one.node_id_kept;
              })
        | inr (inl (x, e)) ↦ rw (e, sync_loop) (widen j budget n out (err x) one (budget * fuel))
        | inr (inr (inl (x, e))) ↦
            rw (e, sync_loop) (widen j budget n out (panic x) one (budget * fuel))
        | inr (inr (inr e)) ↦ rw (e, sync_loop) (widen j budget n out stuck one (budget * fuel))
      ])

  connected-Kept :
      (fuel : ℕ) (j : Rows) (budget : ℕ) (n : Node S) (md : NodeMetadata) (known : ℕ)
      (conn : Result Answers)
      → Represents S L n.block_index j
      → IsU64 (length j + budget * fuel)
      → ((answers : Answers) → conn ≡ ok answers → (i : ℕ) → IsBounded budget (answers i))
      → Kept j (budget * fuel) n (connected S fuel n md known conn)
  unfolding connected
  connected-Kept fuel j budget n md known (ok answers) rep room bounded =
      sync_loop-Kept fuel 0 j budget n md known answers rep room (bounded answers refl)
  connected-Kept fuel j budget n md known (err x) rep room bounded =
      unchanged j _ n n _ rep refl refl
  connected-Kept fuel j budget n md known (panic x) rep room bounded =
      unchanged j _ n n _ rep refl refl
  connected-Kept fuel j budget n md known stuck rep room bounded = unchanged j _ n n _ rep refl refl

  sync_known-Kept :
      (fuel : ℕ) (j : Rows) (budget : ℕ) (n : Node S) (md : NodeMetadata) (conn : Result Answers)
      (known : Result ℕ)
      → Represents S L n.block_index j
      → IsU64 (length j + budget * fuel)
      → ((answers : Answers) → conn ≡ ok answers → (i : ℕ) → IsBounded budget (answers i))
      → Kept j (budget * fuel) n (sync_known S fuel n md conn known)
  unfolding sync_known store_metadata
  sync_known-Kept fuel j budget n md conn (ok known) rep room bounded =
      elim (Bool-cases (ltb md.sequence_number known)) [
        | inl regressed ↦ rw regressed (unchanged j _ n n _ rep refl refl)
        | inr current ↦ elim (Bool-cases (known == md.sequence_number)) [
          | inl same ↦ rw (current, same) (unchanged j _ n _ _ rep refl refl)
          | inr behind ↦
              rw (current, behind) (connected-Kept fuel j budget n md known conn rep room bounded)
        ]
      ]
  sync_known-Kept fuel j budget n md conn (err x) rep room bounded =
      unchanged j _ n n _ rep refl refl
  sync_known-Kept fuel j budget n md conn (panic x) rep room bounded =
      unchanged j _ n n _ rep refl refl
  sync_known-Kept fuel j budget n md conn stuck rep room bounded = unchanged j _ n n _ rep refl refl

  sync_with-Kept :
      (fuel : ℕ) (j : Rows) (budget : ℕ) (n : Node S) (md : NodeMetadata)
      (dial : Bytes → Result Answers) (addrs : List Bytes)
      → Represents S L n.block_index j
      → IsU64 (length j + budget * fuel)
      → ((addr : Bytes) (answers : Answers)
          → dial addr ≡ ok answers
          → (i : ℕ) → IsBounded budget (answers i))
      → Kept j (budget * fuel) n (sync_with S fuel n md dial addrs)
  unfolding sync_with
  sync_with-Kept fuel j budget n md dial [] rep room bounded = unchanged j _ n n _ rep refl refl
  sync_with-Kept fuel j budget n md dial (addr ∷ addrs) rep room bounded =
      sync_known-Kept fuel j budget n md (dial addr) _ rep room (bounded addr)

  -- For a node whose index stands for a journal with room for `budget` rows per unit of fuel,
  -- and a peer that answers each call with at most `budget` entries that name their blocks by
  -- identifiers: whatever it answers, and whether the sync succeeds or not, the new index stands
  -- for a journal of at most that many rows more, in which no block's newest row is older, and
  -- the node keeps its identifier.
  pub sync-Kept :
      (fuel : ℕ) (j : Rows) (budget : ℕ) (n : Node S) (md : NodeMetadata)
      (flight : Option (Result (Unit {0}))) (dial : Bytes → Result Answers)
      → Represents S L n.block_index j
      → IsU64 (length j + budget * fuel)
      → ((addr : Bytes) (answers : Answers)
          → dial addr ≡ ok answers
          → (i : ℕ) → IsBounded budget (answers i))
      → Kept j (budget * fuel) n (sync_block_index_and_update_metadata S fuel n md flight dial)
  unfolding sync_block_index_and_update_metadata
  sync-Kept fuel j budget n md (some r) dial rep room bounded =
      elim (Bool-cases (oid_eq md.node_id n.node_id)) [
        | inl own ↦ rw own (unchanged j _ n n _ rep refl refl)
        | inr other ↦ rw other (unchanged j _ n n _ rep refl refl)
      ]
  sync-Kept fuel j budget n md none dial rep room bounded =
      elim (Bool-cases (oid_eq md.node_id n.node_id)) [
        | inl own ↦ rw own (unchanged j _ n n _ rep refl refl)
        | inr other ↦
            rw other (sync_with-Kept fuel j budget n md dial md.addresses rep room bounded)
      ]
