-- ===== src/Tracker/Laws.antt =====
-- What the tracker (swarm/node/blockavailability.go) knows after an update.
use juren_cluster.Prelude.{
  length, ◌⊎◌, ◌≡◌, ◌≢◌, refl, sym, ◌∙◌, arith, Bool, true, false, Option, none, some, List, [],
  ◌∷◌, Bool-cases, Option-cases, inl, inr, if◌then◌else◌,
}
use juren_cluster.Oid.{Oid, oid_eq}
use juren_cluster.Oid.RoundTrip.{oid_eq_iff}
use juren_cluster.Tracker.{
  OidMap, map_get, map_set, BlockInfo, Tracker, new_tracker, info_or_new, update, who_has,
  available_nodes,
}

module _ {V : Type 0} where
  pub get-set :
      (k j : Oid) (v : V) (m : OidMap V)
      → map_get j (map_set k v m) ≡ (if oid_eq k j then some v else map_get j m)
  unfolding map_get map_set
  get-set k j v [] = refl
  get-set k j v ((i, w) ∷ m) =
      ground (arith, oid_eq_iff k j, oid_eq_iff i k, oid_eq_iff i j, get-set k j v m)

known_in : Oid → Option BlockInfo → Option Bool
known_in node_oid none = none
known_in node_oid (some bi) = map_get node_oid bi.nodes

-- The last thing that is known of a node and a block.
pub knows : Tracker → Oid → Oid → Option Bool
unfolding known_in
knows b block_oid node_oid = known_in node_oid (map_get block_oid b.blocks)

known_in_new :
    (o : Option BlockInfo) (node node' : Oid) (available : Bool)
    → map_get node' (map_set node available (info_or_new o).nodes)
      ≡ (if oid_eq node node' then some available else known_in node' o)
unfolding known_in info_or_new
known_in_new none node node' available = get-set node node' available [] ∙ unfold map_get in refl
known_in_new (some bi) node node' available = get-set node node' available bi.nodes

-- After an update what is recorded of its node and its block is what the update says, and of all
-- other nodes and blocks what was recorded before.
pub knows-update :
    (b : Tracker) (block node block' node' : Oid) (available : Bool)
    → knows (update b block node available).0 block' node' ≡ (
        if oid_eq block block'
        then (if oid_eq node node' then some available else knows b block' node')
        else knows b block' node')
unfolding knows update
knows-update b block node block' node' available =
    rw (get-set block block' _ b.blocks) (elim (Bool-cases (oid_eq block block')) [
      | inl same ↦
          rw (same, ← (oid_eq_iff block block').0 same)
            (known_in_new (map_get block b.blocks) node node' available)
      | inr other ↦ rw other
    ])

-- An identifier stands in the list.
pub contains : Oid → List Oid → Bool
contains o [] = false
contains o (p ∷ ps) = if oid_eq p o then true else contains o ps

-- No key of a map stands in it twice.
abbrev NoKey {ℓ} : {V : Type ℓ} → Oid → List (Oid × V) → Type 0
NoKey k [] = Unit {0}
NoKey k ((j, v) ∷ m) = (k ≢ j) × NoKey k m

abbrev Distinct {ℓ} : {V : Type ℓ} → List (Oid × V) → Type 0
Distinct [] = Unit {0}
Distinct ((k, v) ∷ m) = NoKey k m × Distinct m

NoKey-set :
    {V : Type 0} (i k : Oid) (v : V) (m : OidMap V) → i ≢ k → NoKey i m → NoKey i (map_set k v m)
unfolding map_set
NoKey-set i k v [] ne h = (ne, tt)
NoKey-set i k v ((j, w) ∷ m) ne h = elim (Bool-cases (oid_eq j k)) [
  | inl same ↦ rw same (ne, h.1)
  | inr other ↦ rw other (h.0, NoKey-set i k v m ne h.1)
]

Distinct-set : {V : Type 0} (k : Oid) (v : V) (m : OidMap V) → Distinct m → Distinct (map_set k v m)
unfolding map_set
Distinct-set k v [] h = (tt, tt)
Distinct-set k v ((j, w) ∷ m) h = elim (Bool-cases (oid_eq j k)) [
  | inl same ↦ rw (same, ← (oid_eq_iff j k).0 same) h
  | inr other ↦ rw other (
    NoKey-set j k v m (λ e. ground (arith, other, (oid_eq_iff j k).1 e)) h.0,
    Distinct-set k v m h.1,
  )
]

unfoldable pub is_true : Option Bool → Bool
is_true (some true) = true
is_true _ = false

contains-NoKey : (o : Oid) (m : OidMap Bool) → NoKey o m → contains o (available_nodes m) ≡ false
unfolding contains available_nodes
contains-NoKey o [] h = refl
contains-NoKey o ((j, true) ∷ m) h =
    ground (arith, h.0, oid_eq_iff j o, λ (e : j ≡ o). sym e, contains-NoKey o m h.1)
contains-NoKey o ((j, false) ∷ m) h = contains-NoKey o m h.1

contains-available_nodes :
    (o : Oid) (m : OidMap Bool)
    → Distinct m
    → contains o (available_nodes m) ≡ is_true (map_get o m)
unfolding contains available_nodes map_get is_true
contains-available_nodes o [] h = refl
contains-available_nodes o ((j, true) ∷ m) h = elim (Bool-cases (oid_eq j o)) [
  | inl same ↦ rw same
  | inr other ↦ rw other (contains-available_nodes o m h.1)
]
contains-available_nodes o ((j, false) ∷ m) h = elim (Bool-cases (oid_eq j o)) [
  | inl same ↦ rw same (contains-NoKey o m (rw (← (oid_eq_iff j o).0 same) h.0))
  | inr other ↦ rw other (contains-available_nodes o m h.1)
]

-- The nodes of every block are the keys of a map.
pub record IsTracker (b : Tracker) : Type 0 where
  pub nodes_distinct :
      (block : Oid) (bi : BlockInfo) → map_get block b.blocks ≡ some bi → Distinct bi.nodes

pub new_tracker-IsTracker : IsTracker new_tracker
unfolding map_get
new_tracker-IsTracker = record { nodes_distinct = λ block bi e. absurd (ground (arith, e)) }

-- An update of a tracker whose maps have each key once gives such a tracker.
pub update-IsTracker :
    (b : Tracker) (block node : Oid) (available : Bool)
    → IsTracker b
    → IsTracker (update b block node available).0
unfolding update
update-IsTracker b block node available h = record {
  nodes_distinct = λ block' bi e. changed block' bi e (Bool-cases (oid_eq block block'));
}
  where
    old_distinct :
        (o : Option BlockInfo) → map_get block b.blocks ≡ o → Distinct (info_or_new o).nodes
    old_distinct none e = unfold info_or_new in tt
    old_distinct (some bi) e = unfold info_or_new in h.nodes_distinct block bi e

    new_info : BlockInfo
    new_info = record (info_or_new (map_get block b.blocks)) {
      nodes = map_set node available (info_or_new (map_get block b.blocks)).nodes;
    }

    changed :
        (block' : Oid) (bi : BlockInfo)
        → map_get block' (map_set block new_info b.blocks) ≡ some bi
        → (oid_eq block block' ≡ true) ⊎ (oid_eq block block' ≡ false)
        → Distinct bi.nodes
    changed block' bi e (inl same) =
        let new : new_info ≡ bi = ground (arith, e, same, get-set block block' new_info b.blocks) in
        rw (← new) (Distinct-set node available _ (old_distinct (map_get block b.blocks) refl))
    changed block' bi e (inr other) =
        h.nodes_distinct block' bi
          (ground (arith, e, other, get-set block block' new_info b.blocks))

-- In a tracker whose maps have each key once, `WhoHas` of a block lists a node exactly if the
-- last that was recorded of the node and the block is that it has it.
pub contains-who_has :
    (b : Tracker) (block node : Oid)
    → IsTracker b
    → contains node (who_has b block) ≡ is_true (knows b block node)
unfolding who_has knows
contains-who_has b block node h = elim (Option-cases (map_get block b.blocks)) [
  | inl missing ↦ rw missing (unfold contains is_true in refl)
  | inr (bi, found) ↦
      rw found (contains-available_nodes node bi.nodes (h.nodes_distinct block bi found))
]

pub contains-length : (o : Oid) (ps : List Oid) → contains o ps ≡ true → length ps ≢ 0
unfolding contains
contains-length o [] h = λ e. cc h
contains-length o (p ∷ ps) h = λ e. ground (arith, e)
