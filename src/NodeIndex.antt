-- ===== src/NodeIndex.antt =====
-- datastore/leveldb/nodeindex.go: the metadata of the nodes of the swarm. Every method holds the
-- mutex, so each is one step on the store.
pub mod Ends
pub mod Laws
mod Tests
use juren_cluster.Prelude.{
  ℕ, Bool, true, false, Option, none, some, List, [], ◌∷◌, Bytes, if◌then◌else◌,
}
use juren_cluster.Outcome.{Result, ok, err, panic, stuck, ◌>>=◌, corrupted}
use juren_cluster.Oid.{Oid, oid_eq}
use juren_cluster.DataModel.{NodeMetadata}
use juren_cluster.LevelDb.{Storage}
use juren_cluster.LevelDb.Keys.{key_prefix_node, key_from_node_oid}

pub record NodeIndex (S : Storage) : Type 0 where
  pub db : S.Db

module _ (S : Storage) where
  -- The argument is what `initLevelDb` gave.
  pub new_node_index : Result S.Db → Result (NodeIndex S)
  new_node_index opened = do db ← opened; ok (record { db = db })

  pub get : NodeIndex S → Oid → Result NodeMetadata
  get ix oid = do
    raw ← S.get ix.db (key_from_node_oid oid)
    md ← S.unmarshal_node raw
    if oid_eq md.node_id oid then ok md else err corrupted

  stored_node :
      NodeIndex S → NodeMetadata → S.Db × Result (Unit {0}) → NodeIndex S × Result NodeMetadata
  stored_node ix metadata (db, ok u) = (record { db = db }, ok metadata)
  stored_node ix metadata (db, err e) = (record { db = db }, err e)
  stored_node ix metadata (db, panic p) = (record { db = db }, panic p)
  stored_node ix metadata (db, stuck) = (record { db = db }, stuck)

  store_node : NodeIndex S → NodeMetadata → Result Bytes → NodeIndex S × Result NodeMetadata
  unfolding stored_node
  store_node ix metadata (ok raw) =
      stored_node ix metadata (S.write ix.db ((key_from_node_oid metadata.node_id, raw) ∷ []))
  store_node ix metadata (err e) = (ix, err e)
  store_node ix metadata (panic p) = (ix, panic p)
  store_node ix metadata stuck = (ix, stuck)

  pub put : NodeIndex S → NodeMetadata → NodeIndex S × Result NodeMetadata
  unfolding store_node
  put ix metadata = store_node ix metadata (S.marshal_node metadata)

  node_ids : List (Bytes × Bytes) → Result (List Oid)
  node_ids [] = ok []
  node_ids ((k, raw) ∷ rest) = do
    let results = node_ids rest
    md ← S.unmarshal_node raw
    ids ← results
    ok (md.node_id ∷ ids)

  pub enumerate : NodeIndex S → Result (List Oid)
  unfolding node_ids
  enumerate ix = node_ids (S.scan_prefix ix.db key_prefix_node)
