-- ===== src/Tracker.antt =====
-- swarm/node/blockavailability.go: which nodes are known to have which blocks.
pub mod Laws
mod Tests
use juren_cluster.Prelude.{
  ℕ, Bool, true, false, Option, none, some, List, [], ◌∷◌, ◌++◌, if◌then◌else◌,
}
use juren_cluster.Oid.{Oid, oid_eq}

-- A Go map keyed by identifiers, each key once.
abbrev pub OidMap : Type 0 → Type 0
OidMap V = List (Oid × V)

module _ {V : Type 0} where
  unfoldable pub map_get : Oid → OidMap V → Option V
  map_get k [] = none
  map_get k ((j, v) ∷ m) = if oid_eq j k then some v else map_get k m

  unfoldable pub map_set : Oid → V → OidMap V → OidMap V
  map_set k v [] = (k, v) ∷ []
  map_set k v ((j, w) ∷ m) =
      let rest = map_set k v m in if oid_eq j k then (k, v) ∷ m else (j, w) ∷ rest

-- `blockInfo`. No subscriber is ever added (the method that would is commented out), so a
-- subscriber is only its number here.
pub record BlockInfo : Type 0 where
  pub nodes : OidMap Bool
  pub subscribers : List ℕ

pub record Tracker : Type 0 where
  pub seq : ℕ
  pub blocks : OidMap BlockInfo

abbrev pub new_tracker : Tracker
new_tracker = record { seq = 0; blocks = [] }

abbrev new_block_info : BlockInfo
new_block_info = record { nodes = []; subscribers = [] }

info_or_new : Option BlockInfo → BlockInfo
info_or_new none = new_block_info
info_or_new (some bi) = bi

-- The new entry is stored by `update`, the only caller, which stores it anew in any case.
get_block_info : Tracker → Oid → BlockInfo
unfolding info_or_new
get_block_info b block_oid = info_or_new (map_get block_oid b.blocks)

notify : List ℕ → Oid → List (ℕ × Oid)
notify [] node_oid = []
notify (ch ∷ chs) node_oid = (ch, node_oid) ∷ notify chs node_oid

-- The tracker after the call, and what is sent to the subscribers: one message to each.
pub update : Tracker → Oid → Oid → Bool → Tracker × List (ℕ × Oid)
unfolding get_block_info notify
update b block_oid node_oid available =
    let bi = get_block_info b block_oid in
    let bi' : BlockInfo = record bi { nodes = map_set node_oid available bi.nodes } in
    (
      record b { blocks = map_set block_oid bi' b.blocks },
      if available then notify bi.subscribers node_oid else [],
    )

available_nodes : OidMap Bool → List Oid
available_nodes [] = []
available_nodes ((node_oid, available) ∷ nodes) =
    let rest = available_nodes nodes in if available then node_oid ∷ rest else rest

nodes_with : Option BlockInfo → List Oid
unfolding available_nodes
nodes_with none = []
nodes_with (some bi) = available_nodes bi.nodes

-- The order of a Go map's iteration is not specified: here it is that of the first updates.
pub who_has : Tracker → Oid → List Oid
unfolding nodes_with
who_has b block_oid = nodes_with (map_get block_oid b.blocks)
