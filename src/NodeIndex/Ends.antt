-- ===== src/NodeIndex/Ends.antt =====
-- datastore/leveldb/nodeindex.go: `Get` and `Put` end if the store and the encoder do.
use juren_cluster.Prelude.{◌≢◌, refl, [], ◌∷◌, Bytes, if◌then◌else◌, Bool-cases, inl, inr}
use juren_cluster.Outcome.{Result, ok, err, panic, stuck}
use juren_cluster.Oid.{Oid, oid_eq}
use juren_cluster.DataModel.{NodeMetadata}
use juren_cluster.LevelDb.{Storage, Ends}
use juren_cluster.LevelDb.Keys.{key_from_node_oid}
use juren_cluster.BlockIndex.Ends.{bind-ends}
use juren_cluster.NodeIndex.{NodeIndex, get, put, store_node, stored_node}

module _ (S : Storage) (ends : Ends S) where
  matched-ends :
      (md : NodeMetadata) (oid : Oid) (e : Result NodeMetadata)
      → e ≢ stuck
      → (if oid_eq md.node_id oid then ok md else e) ≢ stuck
  matched-ends md oid r ne = elim (Bool-cases (oid_eq md.node_id oid)) [
    | inl same ↦ rw same (λ e. cc e)
    | inr differ ↦ rw differ ne
  ]

  pub get-ends : (ix : NodeIndex S) (oid : Oid) → get S ix oid ≢ stuck
  unfolding get
  get-ends ix oid =
      bind-ends (S.get ix.db (key_from_node_oid oid)) _ (ends.get ix.db (key_from_node_oid oid))
        (λ raw.
          bind-ends (S.unmarshal_node raw) _ (ends.unmarshal_node raw)
            (λ md. matched-ends md oid _ (λ e. cc e)))

  stored_node-ends :
      (ix : NodeIndex S) (metadata : NodeMetadata) (db : S.Db) (r : Result (Unit {0}))
      → r ≢ stuck
      → (stored_node S ix metadata (db, r)).1 ≢ stuck
  unfolding stored_node
  stored_node-ends ix metadata db (ok u) ne e = cc e
  stored_node-ends ix metadata db (err x) ne e = cc e
  stored_node-ends ix metadata db (panic p) ne e = cc e
  stored_node-ends ix metadata db stuck ne e = ne refl

  store_node-ends :
      (ix : NodeIndex S) (metadata : NodeMetadata) (r : Result Bytes)
      → r ≢ stuck
      → (store_node S ix metadata r).1 ≢ stuck
  unfolding store_node
  store_node-ends ix metadata (ok raw) ne =
      let batch = (key_from_node_oid metadata.node_id, raw) ∷ [] in
      stored_node-ends ix metadata (S.write ix.db batch).0 (S.write ix.db batch).1
        (ends.write ix.db batch)
  store_node-ends ix metadata (err x) ne = λ e. cc e
  store_node-ends ix metadata (panic p) ne = λ e. cc e
  store_node-ends ix metadata stuck ne = λ e. ne refl

  pub put-ends : (ix : NodeIndex S) (metadata : NodeMetadata) → (put S ix metadata).1 ≢ stuck
  unfolding put
  put-ends ix metadata =
      store_node-ends ix metadata (S.marshal_node metadata) (ends.marshal_node metadata)
