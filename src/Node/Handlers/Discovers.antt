-- ===== src/Node/Handlers/Discovers.antt =====
-- `DiscoverBlock` (swarm/node/node.go) of a node that handles the announcements of others meanwhile
-- (swarm/node/pubsub.go).
use juren_cluster.Prelude.{
  ◌≡◌, ◌≢◌, Bool, false, Option, none, some, List, [], ◌∷◌, length, if◌then◌else◌,
}
use juren_cluster.Outcome.{Error, lookup_timeout}
use juren_cluster.Oid.{Oid, oid_eq}
use juren_cluster.LevelDb.{Storage}
use juren_cluster.Tracker.{Tracker}
use juren_cluster.Tracker.Laws.{knows, contains, is_true}
use juren_cluster.Protocol.{BlockAnnouncementMessage}
use juren_cluster.Node.{Node}
use juren_cluster.Node.Handlers.{Discovered, update_block_availability}

abbrev pub Messages : Type 0
Messages = List BlockAnnouncementMessage

module _ (S : Storage) where
  -- The node after it has handled announcements.
  abbrev pub informed : Node S → Messages → Node S
  informed n [] = n
  informed n (msg ∷ msgs) = informed (update_block_availability S n msg).0 msgs

  -- The tracker at each tick, where every batch of announcements is handled before a tick.
  abbrev pub at_ticks : Node S → List Messages → List Tracker
  at_ticks n [] = []
  at_ticks n (batch ∷ batches) =
      (informed n batch).who_has_block ∷ at_ticks (informed n batch) batches

  abbrev pub at_end : Node S → List Messages → Messages → Tracker
  at_end n [] last = (informed n last).who_has_block
  at_end n (batch ∷ batches) last = at_end (informed n batch) batches last

module _ (o : Oid) where
  -- What was last said of each node and the block.
  abbrev pub said : (Oid → Option Bool) → Messages → Oid → Option Bool
  said known [] x = known x
  said known (msg ∷ msgs) x =
      said
        (λ y.
          if oid_eq msg.block.oid o
          then (if oid_eq msg.node_id y then some msg.has else known y)
          else known y)
        msgs x

  -- The nodes of which the last that was said is that they have the block, and some are.
  pub record Those (last_said : Oid → Option Bool) (nodes : List Oid) : Type 0 where
    pub nonempty : length nodes ≢ 0
    pub members : (x : Oid) → contains x nodes ≡ is_true (last_said x)

  abbrev pub IsUnknown : (Oid → Option Bool) → Type 0
  IsUnknown last_said = (x : Oid) → is_true (last_said x) ≡ false

  -- What a discovery comes to: the nodes of the first tick at which there are some, or those at the
  -- end of the context, with its error, or a timeout.
  pub data Discovery (expired : Error)
      : (Oid → Option Bool) → List Messages → Messages → Discovered → Type 0 where
    at_tick :
        (known : Oid → Option Bool) (batch : Messages) (batches : List Messages) (last : Messages)
        (nodes : List Oid)
        → Those (said known batch) nodes
        → Discovery expired known (batch ∷ batches) last (record { nodes = nodes; failure = none })
    later :
        (known : Oid → Option Bool) (batch : Messages) (batches : List Messages) (last : Messages)
        (out : Discovered)
        → IsUnknown (said known batch)
        → Discovery expired (said known batch) batches last out
        → Discovery expired known (batch ∷ batches) last out
    when_done :
        (known : Oid → Option Bool) (last : Messages) (nodes : List Oid)
        → Those (said known last) nodes
        → Discovery expired known [] last (record { nodes = nodes; failure = some expired })
    timed_out :
        (known : Oid → Option Bool) (last : Messages)
        → IsUnknown (said known last)
        → Discovery expired known [] last (record { nodes = []; failure = some lookup_timeout })

module _ (S : Storage) (o : Oid) where
  abbrev IsKnown : Tracker → (Oid → Option Bool) → Type 0
  IsKnown b known = (x : Oid) → knows b o x ≡ known x
