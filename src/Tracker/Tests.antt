-- ===== src/Tracker/Tests.antt =====
-- swarm/node/blockavailability.go on one update.
use juren_cluster.Prelude.{◌≡◌, true, some, if◌then◌else◌}
use juren_cluster.Oid.{oid_eq}
use juren_cluster.Tracker.{Tracker, new_tracker, update, who_has}
use juren_cluster.Tracker.Laws.{
  knows, is_true, contains, knows-update, new_tracker-IsTracker, update-IsTracker, contains-who_has,
}
use juren_cluster.Examples.{block_a, node_a, node_b}

knows-update_example : knows (update new_tracker block_a node_a true).0 block_a node_b ≡ (
    if oid_eq block_a block_a
    then (if oid_eq node_a node_b then some true else knows new_tracker block_a node_b)
    else knows new_tracker block_a node_b)
knows-update_example = knows-update new_tracker block_a node_a block_a node_b true

abbrev one_update : Tracker
one_update = (update new_tracker block_a node_a true).0

contains-who_has_example :
    contains node_a (who_has one_update block_a) ≡ is_true (knows one_update block_a node_a)
contains-who_has_example =
    contains-who_has one_update block_a node_a
      (update-IsTracker new_tracker block_a node_a true new_tracker-IsTracker)
