-- ===== src/Node/Sync/CatchesUp.antt =====
-- A sync (swarm/node/node.go) with a peer that runs the same program (swarm/node/server.go).
use juren_cluster.Prelude.{
  ℕ, zero, suc, ◌+◌, ◌-◌, ◌*◌, ◌≤◌, ◌<◌, ◌≡◌, ◌≢◌, refl, ap, ◌∙◌, arith, false, none, List, ◌∷◌,
  Bytes, length, ltb, inl, inr, ◌⊎◌, Bool-cases,
}
use juren_cluster.Outcome.{Result, ok}
use juren_cluster.Oid.{Oid, oid_eq}
use juren_cluster.Oid.RoundTrip.{IsOid}
use juren_cluster.DataModel.{NodeMetadata}
use juren_cluster.LevelDb.{Storage, StorageLaws, IsReliable}
use juren_cluster.LevelDb.KeyOrder.{IsU64}
use juren_cluster.BlockIndex.Journal.{Rows}
use juren_cluster.BlockIndex.Represents.{Represents}
use juren_cluster.BlockIndex.Wins.{IsAtLeast}
use juren_cluster.NodeIndex
use juren_cluster.Node.{Node}
use juren_cluster.Node.Sync.{
  Answers, Round, sync_loop, known_sequence, sync_block_index_and_update_metadata,
}
use juren_cluster.Node.Sync.Batches.{reached, Covers, joined-Covers}
use juren_cluster.Node.Sync.Rounds.{served_by, Knows, Stepped, steps, last_round}
use juren_cluster.Node.Sync.Steps.{oid_eq_ne, sync_loop-last, sync_loop-more, sync_with-dialled}

module _ (S : Storage) (L : StorageLaws S) where
  module _ (reliable : IsReliable S) (peer : Node S) (theirs : Rows)
      (peer_ok : Represents S L peer.block_index theirs)
      (peer_room : IsU64 (length theirs + 101)) where
    -- The whole loop of a node whose index stands for `j`.
    pub record Caught (j : Rows) (n : Node S) (md : NodeMetadata) (seen : ℕ)
        (out : Node S × Result (Unit {0})) : Type 0 where
      pub rows : Rows
      pub done : out.1 ≡ ok tt
      pub represents : Represents S L out.0.block_index rows
      pub keeps : (o : Oid) (t : ℕ) → IsAtLeast j o t → IsAtLeast rows o t
      pub covers : Covers theirs rows seen (length theirs)
      pub knows :
          Knows S L out.0 md (length theirs)
          ⊎ ((seen ≡ length theirs) × (out.0.node_index ≡ n.node_index))

    nothing_new :
        (j : Rows) (n : Node S) (md : NodeMetadata) (seen : ℕ)
        → Represents S L n.block_index j
        → seen ≡ length theirs
        → Caught j n md seen (n, ok tt)
    nothing_new j n md seen rep same = record {
      rows = j;
      done = refl;
      represents = rep;
      keeps = λ o t h. h;
      covers = λ i m row low high. absurd (omega (arith, low, high, same));
      knows = inr (same, refl);
    }

    all_seen :
        (j : Rows) (n : Node S) (md : NodeMetadata) (seen : ℕ) (out : Node S × Result Round)
        → Stepped S L theirs j n md seen out
        → reached theirs seen ≡ length theirs
        → Caught j n md seen (out.0, ok tt)
    all_seen j n md seen out one end = record {
      rows = one.rows;
      done = refl;
      represents = one.represents;
      keeps = one.keeps;
      covers = rw end at one.covers;
      knows = inl (rw end at one.knows);
    }

    more_seen :
        (j : Rows) (n : Node S) (md : NodeMetadata) (seen : ℕ) (out : Node S × Result Round)
        (one : Stepped S L theirs j n md seen out) (last_out : Node S × Result (Unit {0}))
        → Caught one.rows out.0 md (reached theirs seen) last_out
        → Caught j n md seen last_out
    more_seen j n md seen out one last_out rest = record {
      rows = rest.rows;
      done = rest.done;
      represents = rest.represents;
      keeps = λ o t h. rest.keeps o t (one.keeps o t h);
      covers =
          joined-Covers theirs rest.rows seen (reached theirs seen) (length theirs)
            (λ i m row low high. rest.keeps m.oid _ (one.covers i m row low high)) rest.covers;
      knows = inl (elim rest.knows [
        | inl known ↦ known
        | inr (same, index) ↦
            ap (λ (ix : NodeIndex.NodeIndex S). NodeIndex.get S ix md.node_id) index
            ∙ (rw same at one.knows)
      ]);
    }

    catches :
        (fuel k : ℕ) (j : Rows) (n : Node S) (md : NodeMetadata) (seen : ℕ)
        → Represents S L n.block_index j
        → IsOid md.node_id
        → IsU64 (length j + (length theirs - seen))
        → seen ≤ length theirs
        → length theirs < seen + 100 * fuel
        → Caught j n md seen (sync_loop S fuel k n md seen (served_by S peer))
    catches zero k j n md seen rep id room h enough = absurd (omega (arith, h, enough))
    catches (suc fuel) k j n md seen rep id room h enough =
        elim (Bool-cases (ltb seen (length theirs))) [
          | inr finished ↦
              let same : seen ≡ length theirs = ground (arith, finished, h) in
              let round = last_round S L reliable peer theirs peer_ok peer_room k n md seen same in
              rw
                (
                  sync_loop-last S fuel k n md seen (served_by S peer)
                      (ap (λ (o : Node S × Result Round). o.1) round),
                  round,
                )
                (nothing_new j n md seen rep same)
          | inl going ↦
              let one =
                steps S L reliable peer theirs peer_ok peer_room k j n md seen rep id room
                  (ground (arith, going)) in
              elim (Bool-cases (ltb (reached theirs seen - seen) 100)) [
                | inl short ↦
                    rw
                      (sync_loop-last S fuel k n md seen (served_by S peer)
                        (rw short at one.result))
                      (all_seen j n md seen _ one (ground (arith, short, h)))
                | inr full ↦
                    rw
                      (sync_loop-more S fuel k n md seen (reached theirs seen) (served_by S peer)
                        (rw full at one.result))
                      (more_seen j n md seen _ one _ (
                        catches fuel (suc k) one.rows _ md (reached theirs seen) one.represents id
                          (omega (arith, one.grows, room, h)) (omega arith)
                          (ground (arith, full, enough))))
              ]
        ]

    -- A sync of a node with a peer that runs the same program, where the store and the encoder
    -- do not fail, the peer's index stands for a journal that does not change meanwhile and ends
    -- at least 101 below the greatest uint64, the node's own index stands for a journal that has
    -- room for what it does not know of the peer's, no other sync is running, the announcement
    -- has an identifier other than the node's own and a first address at which the peer answers,
    -- and the node knows of fewer rows of the peer than are announced and of no more than there
    -- are: with fuel for one call per hundred rows it does not know and one more, the sync
    -- returns without an error, the new index stands for a journal, no block's newest row gets
    -- older, every row of the peer from what was known on is matched by a newest row of its
    -- block that is at least as new, and the node index knows of the whole journal of the peer,
    -- or is as it was if that was known before.
    pub sync_catches_up :
        (fuel : ℕ) (j : Rows) (n : Node S) (md : NodeMetadata) (addr : Bytes) (addrs : List Bytes)
        (dial : Bytes → Result Answers) (known : ℕ)
        → Represents S L n.block_index j
        → IsOid md.node_id
        → md.node_id ≢ n.node_id
        → md.addresses ≡ addr ∷ addrs
        → dial addr ≡ ok (served_by S peer)
        → known_sequence S (NodeIndex.get S n.node_index md.node_id) ≡ ok known
        → known < md.sequence_number
        → known ≤ length theirs
        → IsU64 (length j + (length theirs - known))
        → length theirs < known + 100 * fuel
        → Caught j n md known (sync_block_index_and_update_metadata S fuel n md none dial)
    unfolding sync_block_index_and_update_metadata
    sync_catches_up fuel j n md addr addrs dial known rep id other address conn knew behind fits
          room enough =
        let not_own : oid_eq md.node_id n.node_id ≡ false = oid_eq_ne md.node_id n.node_id other in
        rw
          (
            not_own,
            sync_with-dialled S fuel n md dial md.addresses addr addrs (served_by S peer) known
                address conn knew behind,
          )
          (catches fuel 0 j n md known rep id room fits enough)
