-- ===== src/Node/Handlers/Laws.antt =====
-- What the handlers of swarm/node/node.go and pubsub.go achieve together.
use juren_cluster.Prelude.{
  ℕ, ◌+◌, ◌≡◌, ◌≢◌, refl, ap, ◌∙◌, arith, Bool, true, false, Option, some, List, [], ◌∷◌, Bytes,
  bytes_eq, bytes_eq_iff, length, ◌==◌, inl, inr, Bool-cases,
}
use juren_cluster.Outcome.{Result, ok}
use juren_cluster.Oid.{Oid, oid_eq}
use juren_cluster.Oid.RoundTrip.{IsOid, oid_eq_iff}
use juren_cluster.DataModel.{Time, Metadata}
use juren_cluster.LevelDb.{Storage, StorageLaws, IsReliable}
use juren_cluster.LevelDb.KeyOrder.{IsU64}
use juren_cluster.BlockIndex
use juren_cluster.BlockIndex.{BlockIndex}
use juren_cluster.BlockIndex.Journal.{Rows, entry, latest}
use juren_cluster.BlockIndex.Represents.{Represents}
use juren_cluster.BlockIndex.Read.{get_by_oid-latest}
use juren_cluster.BlockIndex.Wins.{IsAtLeast, put-Advances, latest-stored}
use juren_cluster.NodeIndex.{NodeIndex}
use juren_cluster.Tracker.{update, who_has}
use juren_cluster.Tracker.Laws.{
  IsTracker, update-IsTracker, contains, is_true, knows-update, contains-who_has,
}
use juren_cluster.Protocol.{BlockAnnouncementMessage}
use juren_cluster.Node.{Node}
use juren_cluster.Node.Sync.Absorbs.{Result-cases}
use juren_cluster.Node.Sync.Steps.{oid_eq_ne}
use juren_cluster.Node.Handlers.{
  TcpAddress, advertized, matching, filtered_addresses, announced_metadata, announcement, new_node,
  update_block_availability, process_block_discovery_message,
}

module _ (resolve_ip : Bytes → Result Bytes) (sender_ip : Bytes) where
  abbrev pub IsOfSender : Bytes → Type 0
  IsOfSender addr = resolve_ip addr ≡ ok sender_ip

  -- The second list has the addresses of the sender in the first one, each where it stands.
  pub data Selected : List Bytes → List Bytes → Type 0 where
    none_left : Selected [] []
    taken :
        (addr : Bytes) (addrs found : List Bytes)
        → IsOfSender addr
        → Selected addrs found
        → Selected (addr ∷ addrs) (addr ∷ found)
    passed :
        (addr : Bytes) (addrs found : List Bytes)
        → ¬ IsOfSender addr
        → Selected addrs found
        → Selected (addr ∷ addrs) found

  -- Which addresses of a message are used.
  pub data Filtered (addrs used : List Bytes) : Type 0 where
    of_sender : length used ≢ 0 → Selected addrs used → Filtered addrs used
    all_of_them : used ≡ addrs → Selected addrs [] → Filtered addrs used

  matching-Selected : (addrs : List Bytes) → Selected addrs (matching resolve_ip sender_ip addrs)
  unfolding matching
  matching-Selected [] = none_left
  matching-Selected (addr ∷ addrs) = elim (Result-cases (resolve_ip addr)) [
    | inl (ip, e) ↦ elim (Bool-cases (bytes_eq ip sender_ip)) [
      | inl same ↦
          rw (e, matching, same)
            (taken addr addrs _ (e ∙ ap ok ((bytes_eq_iff ip sender_ip).0 same))
              (matching-Selected addrs))
      | inr other ↦
          rw (e, matching, other)
            (passed addr addrs _ (λ h. ground (arith, h, e, other, bytes_eq_iff ip sender_ip))
              (matching-Selected addrs))
    ]
    | inr (inl (x, e)) ↦
        rw (e, matching) (passed addr addrs _ (λ h. cc (h, e)) (matching-Selected addrs))
    | inr (inr (inl (x, e))) ↦
        rw (e, matching) (passed addr addrs _ (λ h. cc (h, e)) (matching-Selected addrs))
    | inr (inr (inr e)) ↦
        rw (e, matching) (passed addr addrs _ (λ h. cc (h, e)) (matching-Selected addrs))
  ]

  empty-Selected :
      (addrs found : List Bytes) → length found ≡ 0 → Selected addrs found → Selected addrs []
  empty-Selected addrs [] e h = h
  empty-Selected addrs (addr ∷ found) e h = absurd (omega (arith, e))

  -- Of the addresses of an announcement, either some resolve to the sender, and exactly those
  -- are used, each as often and in the order as they stand there, or none of them does, and all
  -- are used.
  pub filtered_addresses-Filtered :
      (addrs : List Bytes) → Filtered addrs (filtered_addresses resolve_ip sender_ip addrs)
  unfolding filtered_addresses
  filtered_addresses-Filtered addrs =
      let found = matching resolve_ip sender_ip addrs in
      elim (Bool-cases (length (matching resolve_ip sender_ip addrs) == 0)) [
        | inl nothing ↦ rw nothing (
            all_of_them refl
              (empty-Selected addrs found (ground (arith, nothing)) (matching-Selected addrs)))
        | inr some_found ↦
            rw some_found (of_sender (λ e. ground (arith, e, some_found)) (matching-Selected addrs))
      ]

latest-oid : (j : Rows) (o : Oid) (n : ℕ) (m : Metadata) → latest j o ≡ some (entry n m) → m.oid ≡ o
unfolding latest
latest-oid [] o n m row = absurd (cc row)
latest-oid (r ∷ j) o n m row = elim (Bool-cases (oid_eq r.meta.oid o)) [
  | inl same ↦ ground (arith, same, row, oid_eq_iff r.meta.oid o)
  | inr other ↦ latest-oid j o n m (rw other at row)
]

is_true-some : (b : Bool) → is_true (some b) ≡ b
unfolding is_true
is_true-some true = refl
is_true-some false = refl

module _ (S : Storage) (n : Node S) (msg : BlockAnnouncementMessage) where
  block_index-update :
      msg.node_id ≢ n.node_id
      → (update_block_availability S n msg).0.block_index
        ≡ (BlockIndex.put S n.block_index (entry 0 msg.block)).0
  unfolding update_block_availability
  block_index-update other = rw (oid_eq_ne msg.node_id n.node_id other)

  pub who_has-update :
      (update_block_availability S n msg).0.who_has_block
      ≡ (update n.who_has_block msg.block.oid msg.node_id msg.has).0
  unfolding update_block_availability
  who_has-update = elim (Bool-cases (oid_eq msg.node_id n.node_id)) [
    | inl own ↦ rw own
    | inr other ↦ rw other
  ]

  learns-update :
      (o : Oid)
      → msg.block.oid ≡ o
      → IsTracker n.who_has_block
      → contains msg.node_id (who_has (update_block_availability S n msg).0.who_has_block o)
        ≡ msg.has
  learns-update o is_o tracked =
      let tracker = (update n.who_has_block msg.block.oid msg.node_id msg.has).0 in
      rw who_has-update (
        contains-who_has tracker o msg.node_id
          (update-IsTracker n.who_has_block msg.block.oid msg.node_id msg.has tracked)
        ∙ rw
            (
              knows-update n.who_has_block msg.block.oid msg.node_id o msg.node_id msg.has,
              (oid_eq_iff msg.block.oid o).1 is_o,
              (oid_eq_iff msg.node_id msg.node_id).1 refl,
            )
            (is_true-some msg.has))

module _ (S : Storage) where
  -- Whoever receives the announcement of a node that `New` made, the metadata that it builds
  -- from it has an address.
  pub announced-nonempty :
      (node_id : Oid) (rpc : Bytes) (addrs : List (Option TcpAddress)) (block_index : BlockIndex S)
      (node_index : NodeIndex S) (n : Node S) (resolve_ip : Bytes → Result Bytes)
      (sender_ip : Bytes) (now : Time)
      → new_node S node_id rpc addrs block_index node_index ≡ ok n
      → length (announced_metadata resolve_ip sender_ip now (announcement S n)).addresses ≢ 0
  unfolding new_node announced_metadata announcement filtered_addresses
  announced-nonempty node_id rpc addrs block_index node_index n resolve_ip sender_ip now made =
      elim (Bool-cases (length (advertized rpc addrs) == 0)) [
        | inl empty ↦ absurd (let made' = rw empty at made in cc made')
        | inr some_address ↦
            let made' = rw some_address at made in
            let same : advertized rpc addrs ≡ n.addresses = ap made_addresses made' in
            elim (Bool-cases (length (matching resolve_ip sender_ip n.addresses) == 0)) [
              | inl none_found ↦ rw none_found (λ e. ground (arith, e, same, some_address))
              | inr found ↦ rw found (λ e. ground (arith, e, found))
            ]
      ]
    where
      made_addresses : Result (Node S) → List Bytes
      made_addresses (ok k) = k.addresses
      made_addresses _ = []

module _ (S : Storage) (L : StorageLaws S) where
  -- What an answer tells: a node has a row for the block, and another asks for it.
  pub record Informed (n asker : Node S) (asker_rows : Rows) (o : Oid) (m : Metadata) (has : Bool)
      (answer : Result BlockAnnouncementMessage) : Type 0 where
    pub resp : BlockAnnouncementMessage
    pub answered : answer ≡ ok resp
    pub rows : Rows
    pub represents : Represents S L (update_block_availability S asker resp).0.block_index rows
    pub learns :
        contains n.node_id (who_has (update_block_availability S asker resp).0.who_has_block o)
        ≡ has
    pub newer : IsAtLeast rows o m.update_time.instant
    pub keeps : (p : Oid) (t : ℕ) → IsAtLeast asker_rows p t → IsAtLeast rows p t

  -- A node whose index stands for a journal with a row for a block, and that finds out whether
  -- its store has the block, answers a discovery of it. Another node, whose index stands for a
  -- journal with room for one more row and whose tracker is well formed, handles the answer: its
  -- tracker lists the first node for the block exactly if the block is in the first node's
  -- store, its index stands for a journal with a newest row for the block that is at least as
  -- new as the first node's, and no block's newest row is older. The store and the encoder do
  -- not fail.
  pub discovery_informs :
      (n asker : Node S) (j asker_rows : Rows) (o : Oid) (k : ℕ) (m : Metadata) (has : Bool)
      (store_has : Oid → Result Bool)
      → IsReliable S
      → Represents S L n.block_index j
      → Represents S L asker.block_index asker_rows
      → IsU64 (length asker_rows + 1)
      → IsTracker asker.who_has_block
      → IsOid o
      → n.node_id ≢ asker.node_id
      → latest j o ≡ some (entry k m)
      → store_has o ≡ ok has
      → Informed n asker asker_rows o m has
          (process_block_discovery_message S n store_has (record { oid = o }))
  unfolding process_block_discovery_message
  discovery_informs n asker j asker_rows o k m has store_has reliable rep asker_rep room tracked id
        other row stored =
      let is_o : m.oid ≡ o = latest-oid j o k m row in
      let resp : BlockAnnouncementMessage = record { node_id = n.node_id; block = m; has = has } in
      let adv = put-Advances S L asker.block_index asker_rows 0 m asker_rep (rw is_o id) room in
      rw (get_by_oid-latest S L n.block_index j o rep id, row, stored)
        (record {
          resp = resp;
          answered = refl;
          rows = adv.rows;
          represents = rw (block_index-update S asker resp other) adv.represents;
          learns = learns-update S asker resp o is_o tracked;
          newer =
              let (e, good) = adv.succeeds reliable in
              rw (is_o, latest-stored S L j o k m rep.decodes row) at (adv.wins e good);
          keeps = adv.keeps;
        })
