-- ===== src/Node/Sync/Rounds.antt =====
-- One round of a sync with a peer that runs the same program (swarm/node/node.go and server.go).
use juren_cluster.Prelude.{
  ℕ, ◌+◌, ◌-◌, ◌≤◌, ◌<◌, ◌≡◌, ap, ◌∙◌, arith, true, false, length, ltb, ◌==◌, if◌then◌else◌,
}
use juren_cluster.Outcome.{Result, ok}
use juren_cluster.Oid.{Oid}
use juren_cluster.Oid.RoundTrip.{IsOid}
use juren_cluster.DataModel.{NodeMetadata}
use juren_cluster.LevelDb.{Storage, StorageLaws, IsReliable}
use juren_cluster.LevelDb.KeyOrder.{IsU64}
use juren_cluster.BlockIndex.Journal.{Rows, slice}
use juren_cluster.BlockIndex.Represents.{Represents}
use juren_cluster.BlockIndex.Wins.{IsAtLeast}
use juren_cluster.NodeIndex
use juren_cluster.NodeIndex.Laws.{get-put, put-ok, stored_node_metadata}
use juren_cluster.Protocol.{peer_sync}
use juren_cluster.Node.{Node}
use juren_cluster.Node.Server.{serve_peer_sync}
use juren_cluster.Node.Sync.{Answers, Round, last, more, sync_entries, after_call, sync_round}
use juren_cluster.Node.Sync.Batches.{
  reached, Covers, length-batch, max_seen-batch, answer, Landed-Covers, HasMetadata-slice,
  IsValid-slice, after_entries-ok,
}
use juren_cluster.Node.Sync.Absorbs.{sync_entries-Absorbed}
use juren_cluster.Node.Sync.Pointers.{pointers}

-- Every call is answered by the method of the peer, whose state does not change meanwhile.
abbrev pub served_by : (S : Storage) → Node S → Answers
served_by S peer k method req = serve_peer_sync S peer req

module _ (S : Storage) (L : StorageLaws S) where
  -- The node index knows of the journal up to a number.
  abbrev pub Knows : Node S → NodeMetadata → ℕ → Type 0
  Knows n md known =
      NodeIndex.get S n.node_index md.node_id
      ≡ ok (stored_node_metadata S L (record md { sequence_number = known }))

  module _ (theirs : Rows) where
    -- One round of a node whose index stands for `j`.
    pub record Stepped (j : Rows) (n : Node S) (md : NodeMetadata) (seen : ℕ)
        (out : Node S × Result Round) : Type 0 where
      pub rows : Rows
      pub represents : Represents S L out.0.block_index rows
      pub keeps : (o : Oid) (t : ℕ) → IsAtLeast j o t → IsAtLeast rows o t
      pub grows : length rows ≤ length j + (reached theirs seen - seen)
      pub covers : Covers theirs rows seen (reached theirs seen)
      pub knows : Knows out.0 md (reached theirs seen)
      pub result :
          out.1
          ≡ ok (if ltb (reached theirs seen - seen) 100 then last else more (reached theirs seen))

  module _ (reliable : IsReliable S) (peer : Node S) (theirs : Rows)
      (peer_ok : Represents S L peer.block_index theirs)
      (peer_room : IsU64 (length theirs + 101)) where
    pub steps :
        (k : ℕ) (j : Rows) (n : Node S) (md : NodeMetadata) (seen : ℕ)
        → Represents S L n.block_index j
        → IsOid md.node_id
        → IsU64 (length j + (length theirs - seen))
        → seen < length theirs
        → Stepped theirs j n md seen (sync_round S n md seen (served_by S peer k))
    unfolding sync_round after_call peer_sync
    steps k j n md seen rep id room h =
        let es = pointers (slice theirs (seen + 1) (seen + 101)) in
        let few : length es ≡ reached theirs seen - seen = length-batch theirs seen in
        let a =
          sync_entries-Absorbed S L n j seen es rep
            (IsValid-slice S L peer theirs peer_ok (seen + 1) (seen + 101))
            (omega (arith, room, few)) in
        let (s, good) =
          a.succeeds reliable (HasMetadata-slice S L peer theirs peer_ok (seen + 1) (seen + 101)) in
        let at_reached : s ≡ reached theirs seen =
          a.greatest s good ∙ max_seen-batch theirs seen (omega (arith, h)) in
        let full : (length es == 0) ≡ false = ground (arith, few, h) in
        let stored =
          put-ok S L (sync_entries S n seen es).0.node_index (record md { sequence_number = s })
            reliable in
        rw
          (
            answer S L peer theirs peer_ok md seen peer_room (omega (arith, h)),
            full,
            after_entries-ok S L reliable md es (sync_entries S n seen es) s good,
          )
          (record {
            rows = a.rows;
            represents = a.represents;
            keeps = a.keeps;
            grows = omega (arith, a.grows, few);
            covers = Landed-Covers S L peer theirs peer_ok a.rows seen (a.landed s good);
            knows =
                get-put S L _ (record md { sequence_number = s }) _ id stored
                ∙ ap (λ (t : ℕ). ok (stored_node_metadata S L (record md { sequence_number = t })))
                    at_reached;
            result =
                ap (λ (l : ℕ). ok (if ltb l 100 then last else more s)) few
                ∙ ap (λ (t : ℕ). ok (if ltb (reached theirs seen - seen) 100 then last else more t))
                    at_reached;
          })

    pub last_round :
        (k : ℕ) (n : Node S) (md : NodeMetadata) (seen : ℕ)
        → seen ≡ length theirs
        → sync_round S n md seen (served_by S peer k) ≡ (n, ok last)
    unfolding sync_round after_call peer_sync
    last_round k n md seen same =
        let none_left : (length (pointers (slice theirs (seen + 1) (seen + 101))) == 0) ≡ true =
          ground (arith, length-batch theirs seen, same) in
        rw (answer S L peer theirs peer_ok md seen peer_room (omega (arith, same)), none_left)
