-- ===== src/Node/Sync/Steps.antt =====
-- How the loop of the sync in swarm/node/node.go goes on, and how it is reached.
use juren_cluster.Prelude.{
  ℕ, suc, ◌<◌, ◌≡◌, ◌≢◌, arith, false, List, ◌∷◌, Bytes, ltb, ◌==◌, inl, inr, Bool-cases,
}
use juren_cluster.Outcome.{Result, ok}
use juren_cluster.Oid.{Oid, oid_eq}
use juren_cluster.Oid.RoundTrip.{oid_eq_iff}
use juren_cluster.DataModel.{NodeMetadata}
use juren_cluster.LevelDb.{Storage}
use juren_cluster.NodeIndex
use juren_cluster.Node.{Node}
use juren_cluster.Node.Sync.{
  Answers, last, more, sync_round, sync_loop, known_sequence, connected, sync_known, sync_with,
}

pub oid_eq_ne : (o p : Oid) → o ≢ p → oid_eq o p ≡ false
oid_eq_ne o p ne = elim (Bool-cases (oid_eq o p)) [
  | inl same ↦ absurd (ne ((oid_eq_iff o p).0 same))
  | inr other ↦ other
]

module _ (S : Storage) (fuel k : ℕ) (n : Node S) (md : NodeMetadata) (seen : ℕ) where
  pub sync_loop-last :
      (answers : Answers)
      → (sync_round S n md seen (answers k)).1 ≡ ok last
      → sync_loop S (suc fuel) k n md seen answers ≡ ((sync_round S n md seen (answers k)).0, ok tt)
  unfolding sync_loop
  sync_loop-last answers e = rw (e, sync_loop)

  pub sync_loop-more :
      (seen' : ℕ) (answers : Answers)
      → (sync_round S n md seen (answers k)).1 ≡ ok (more seen')
      → sync_loop S (suc fuel) k n md seen answers
        ≡ sync_loop S fuel (suc k) (sync_round S n md seen (answers k)).0 md seen' answers
  unfolding sync_loop
  sync_loop-more seen' answers e = rw (e, sync_loop)

module _ (S : Storage) (fuel : ℕ) (n : Node S) (md : NodeMetadata) where
  pub sync_known-behind :
      (conn : Result Answers) (answers : Answers) (r : Result ℕ) (known : ℕ)
      → conn ≡ ok answers
      → r ≡ ok known
      → known < md.sequence_number
      → sync_known S fuel n md conn r ≡ sync_loop S fuel 0 n md known answers
  unfolding sync_known connected
  sync_known-behind conn answers r known dialled knew behind =
      let ahead : ltb md.sequence_number known ≡ false = ground (arith, behind) in
      let differs : (known == md.sequence_number) ≡ false = ground (arith, behind) in
      rw (dialled, knew, ahead, differs)

  pub sync_with-dialled :
      (dial : Bytes → Result Answers) (addresses : List Bytes) (addr : Bytes) (addrs : List Bytes)
      (answers : Answers) (known : ℕ)
      → addresses ≡ addr ∷ addrs
      → dial addr ≡ ok answers
      → known_sequence S (NodeIndex.get S n.node_index md.node_id) ≡ ok known
      → known < md.sequence_number
      → sync_with S fuel n md dial addresses ≡ sync_loop S fuel 0 n md known answers
  unfolding sync_with
  sync_with-dialled dial addresses addr addrs answers known address conn knew behind =
      rw address (sync_known-behind (dial addr) answers _ known conn knew behind)
