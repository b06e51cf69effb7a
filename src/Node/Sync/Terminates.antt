-- ===== src/Node/Sync/Terminates.antt =====
-- When the sync in swarm/node/node.go comes to an end.
use juren_cluster.Prelude.{
  ℕ, zero, suc, ◌+◌, ◌^◌, ◌≤◌, ◌<◌, ◌≡◌, ◌≢◌, refl, arith, none, List, [], ◌∷◌, Bytes, ltb, ◌==◌,
  inl, inr, Bool-cases,
}
use juren_cluster.Outcome.{Result, ok, err, panic, stuck}
use juren_cluster.Oid.{oid_eq}
use juren_cluster.DataModel.{NodeMetadata}
use juren_cluster.LevelDb.{Storage, Ends}
use juren_cluster.NodeIndex
use juren_cluster.NodeIndex.Ends as NodeEnds
use juren_cluster.Node.{Node}
use juren_cluster.Node.Sync.{
  Answers, Round, last, more, sync_round, sync_loop, connected, store_metadata, sync_known,
  sync_with, sync_block_index_and_update_metadata, known_sequence,
}
use juren_cluster.Node.Sync.Steps.{sync_loop-last, sync_loop-more}
use juren_cluster.Node.Sync.Absorbs.{Result-cases}
use juren_cluster.Node.Sync.Advances.{IsAdvancing, Goes, sync_round-Goes}

module _ (S : Storage) (ends : Ends S) where
  round_ends :
      (top fuel k : ℕ) (n : Node S) (md : NodeMetadata) (seen : ℕ) (answers : Answers)
      (round : Round)
      → (sync_round S n md seen (answers k)).1 ≡ ok round
      → Goes (seen + 1) top (ok round)
      → ((n' : Node S) (seen' : ℕ)
          → seen < seen'
          → seen' ≤ top
          → (sync_loop S fuel (suc k) n' md seen' answers).1 ≢ stuck)
      → (sync_loop S (suc fuel) k n md seen answers).1 ≢ stuck
  round_ends top fuel k n md seen answers last e h go =
      rw (sync_loop-last S fuel k n md seen answers e) (λ x. cc x)
  round_ends top fuel k n md seen answers (more seen') e (lo, hi) go =
      rw (sync_loop-more S fuel k n md seen seen' answers e)
        (go (sync_round S n md seen (answers k)).0 seen' (omega (arith, lo)) hi)

  sync_loop-ends :
      (top fuel k : ℕ) (n : Node S) (md : NodeMetadata) (seen : ℕ) (answers : Answers)
      → 0 < fuel
      → top < fuel + seen
      → top + 1 < 2 ^ 64
      → seen + 1 < 2 ^ 64
      → IsAdvancing top answers
      → (sync_loop S fuel k n md seen answers).1 ≢ stuck
  unfolding sync_loop
  sync_loop-ends top zero k n md seen answers some_fuel enough room seen_room h =
      absurd (omega (arith, some_fuel))
  sync_loop-ends top (suc fuel) k n md seen answers some_fuel enough room seen_room h =
      let goes = sync_round-Goes S ends top k n md seen answers seen_room h in
      elim (Result-cases (sync_round S n md seen (answers k)).1) [
        | inl (round, e) ↦
            round_ends top fuel k n md seen answers round e (rw e at goes) (λ n' seen' lo hi.
              sync_loop-ends top fuel (suc k) n' md seen' answers (omega (arith, enough, lo, hi))
                (omega (arith, enough, lo)) room (omega (arith, room, hi)) h)
        | inr (inl (x, failed)) ↦ rw (failed, sync_loop) (λ y. cc y)
        | inr (inr (inl (p, panicked))) ↦ rw (panicked, sync_loop) (λ y. cc y)
        | inr (inr (inr hung)) ↦ absurd (rw hung at goes)
      ]

  connected-ends :
      (top fuel : ℕ) (n : Node S) (md : NodeMetadata) (known : ℕ) (conn : Result Answers)
      → top < fuel
      → top + 1 < 2 ^ 64
      → known + 1 < 2 ^ 64
      → conn ≢ stuck
      → ((answers : Answers) → conn ≡ ok answers → IsAdvancing top answers)
      → (connected S fuel n md known conn).1 ≢ stuck
  unfolding connected
  connected-ends top fuel n md known (ok answers) enough room known_room ne h =
      sync_loop-ends top fuel 0 n md known answers (omega (arith, enough)) (omega (arith, enough))
        room known_room (h answers refl)
  connected-ends top fuel n md known (err x) enough room known_room ne h = λ e. cc e
  connected-ends top fuel n md known (panic p) enough room known_room ne h = λ e. cc e
  connected-ends top fuel n md known stuck enough room known_room ne h = λ e. ne refl

  store_metadata-ends : (n : Node S) (md : NodeMetadata) → (store_metadata S n md).1 ≢ stuck
  unfolding store_metadata
  store_metadata-ends n md = elim (Result-cases (NodeIndex.put S n.node_index md).1) [
    | inl (m, stored) ↦ rw stored (λ e. cc e)
    | inr (inl (x, failed)) ↦ rw failed (λ e. cc e)
    | inr (inr (inl (p, panicked))) ↦ rw panicked (λ e. cc e)
    | inr (inr (inr hung)) ↦ absurd (NodeEnds.put-ends S ends n.node_index md hung)
  ]

  sync_known-ends :
      (top fuel : ℕ) (n : Node S) (md : NodeMetadata) (conn : Result Answers) (known : Result ℕ)
      → top < fuel
      → top + 1 < 2 ^ 64
      → md.sequence_number + 1 < 2 ^ 64
      → conn ≢ stuck
      → ((answers : Answers) → conn ≡ ok answers → IsAdvancing top answers)
      → known ≢ stuck
      → (sync_known S fuel n md conn known).1 ≢ stuck
  unfolding sync_known
  sync_known-ends top fuel n md conn (ok known) enough room md_room ne h k =
      elim (Bool-cases (ltb md.sequence_number known)) [
        | inl behind ↦ rw behind (λ e. cc e)
        | inr not_behind ↦ elim (Bool-cases (known == md.sequence_number)) [
          | inl same ↦ rw (not_behind, same) (store_metadata-ends n md)
          | inr ahead ↦
              rw (not_behind, ahead)
                (connected-ends top fuel n md known conn enough room
                  (ground (arith, not_behind, md_room)) ne h)
        ]
      ]
  sync_known-ends top fuel n md conn (err x) enough room md_room ne h k = λ e. cc e
  sync_known-ends top fuel n md conn (panic p) enough room md_room ne h k = λ e. cc e
  sync_known-ends top fuel n md conn stuck enough room md_room ne h k = λ e. k refl

  known_sequence-ends : (r : Result NodeMetadata) → r ≢ stuck → known_sequence S r ≢ stuck
  unfolding known_sequence
  known_sequence-ends (ok md) ne e = cc e
  known_sequence-ends (err x) ne e = cc e
  known_sequence-ends (panic p) ne e = cc e
  known_sequence-ends stuck ne e = ne refl

  sync_with-ends :
      (top fuel : ℕ) (n : Node S) (md : NodeMetadata) (dial : Bytes → Result Answers)
      (addresses : List Bytes)
      → top < fuel
      → top + 1 < 2 ^ 64
      → md.sequence_number + 1 < 2 ^ 64
      → ((addr : Bytes) → dial addr ≢ stuck)
      → ((addr : Bytes) (answers : Answers) → dial addr ≡ ok answers → IsAdvancing top answers)
      → (sync_with S fuel n md dial addresses).1 ≢ stuck
  unfolding sync_with
  sync_with-ends top fuel n md dial [] enough room md_room ne h = λ e. cc e
  sync_with-ends top fuel n md dial (addr ∷ addrs) enough room md_room ne h =
      sync_known-ends top fuel n md (dial addr)
        (known_sequence S (NodeIndex.get S n.node_index md.node_id)) enough room md_room (ne addr)
        (h addr)
        (known_sequence-ends (NodeIndex.get S n.node_index md.node_id)
          (NodeEnds.get-ends S ends n.node_index md.node_id))

  -- If the store and the encoder end, dialling ends, and every answer of the peer has only
  -- entries with a number from the one that was asked for up to a greatest one, which like the
  -- announced one is below 2^64 - 1: a sync with the peer, which joins no other run, comes to an
  -- end within as many calls as the greatest number and one more, since every full answer takes
  -- it further.
  pub sync-ends :
      (top fuel : ℕ) (n : Node S) (md : NodeMetadata) (dial : Bytes → Result Answers)
      → top < fuel
      → top + 1 < 2 ^ 64
      → md.sequence_number + 1 < 2 ^ 64
      → ((addr : Bytes) → dial addr ≢ stuck)
      → ((addr : Bytes) (answers : Answers) → dial addr ≡ ok answers → IsAdvancing top answers)
      → (sync_block_index_and_update_metadata S fuel n md none dial).1 ≢ stuck
  unfolding sync_block_index_and_update_metadata
  sync-ends top fuel n md dial enough room md_room ne h =
      elim (Bool-cases (oid_eq md.node_id n.node_id)) [
        | inl own ↦ rw own (λ e. cc e)
        | inr other ↦
            rw other (sync_with-ends top fuel n md dial md.addresses enough room md_room ne h)
      ]
