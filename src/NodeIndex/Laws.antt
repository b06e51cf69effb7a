-- ===== src/NodeIndex/Laws.antt =====
-- The node index (datastore/leveldb/nodeindex.go) as a map from node identifiers.
use juren_cluster.Prelude.{
  ◌≡◌, ◌≢◌, refl, sym, ap, ◌∙◌, arith, false, [], ◌∷◌, Bytes, bytes_eq, bytes_eq_iff, bytes_eq_refl,
  Bool-cases, inl, inr, if◌then◌else◌,
}
use juren_cluster.Outcome.{Result, Error, ok, err, panic, stuck}
use juren_cluster.Oid.{Oid}
use juren_cluster.Oid.RoundTrip.{IsOid, oid_eq_iff, to_string_injective}
use juren_cluster.DataModel.{NodeMetadata}
use juren_cluster.LevelDb.{Storage, StorageLaws, IsReliable}
use juren_cluster.LevelDb.Keys.{key_from_node_oid}
use juren_cluster.NodeIndex.{NodeIndex, get, put, store_node, stored_node}

strip_prefix : (o p : Oid) → key_from_node_oid o ≡ key_from_node_oid p → o.s ≡ p.s
unfolding key_from_node_oid
strip_prefix o p e = cc

key_from_node_oid_eq :
    (o p : Oid)
    → IsOid o
    → IsOid p
    → o ≢ p
    → bytes_eq (key_from_node_oid o) (key_from_node_oid p) ≡ false
key_from_node_oid_eq o p ho hp ne =
    elim (Bool-cases (bytes_eq (key_from_node_oid o) (key_from_node_oid p))) [
      | inl same ↦
          absurd (ne (to_string_injective o p ho hp (strip_prefix o p ((bytes_eq_iff _ _).0 same))))
      | inr other ↦ other
    ]

module _ (S : Storage) (L : StorageLaws S) where
  abbrev pub stored_node_metadata : NodeMetadata → NodeMetadata
  stored_node_metadata m = record m { last_seen = L.stored_time m.last_seen }

  -- How a `Put` ends: it fails and changes nothing that can be read, or the metadata is stored.
  pub data Outcome (ix : NodeIndex S) (m : NodeMetadata) (out : NodeIndex S × Result NodeMetadata)
      : Type 0 where
    failed :
        ((r : NodeMetadata) → out.1 ≢ ok r)
        → ((k : Bytes) → S.get out.0.db k ≡ S.get ix.db k)
        → ¬ IsReliable S
        → Outcome ix m out
    stored :
        (raw : Bytes)
        → S.marshal_node m ≡ ok raw
        → out.1 ≡ ok m
        → ((k : Bytes)
            → S.get out.0.db k
              ≡ (if bytes_eq (key_from_node_oid m.node_id) k then ok raw else S.get ix.db k))
        → Outcome ix m out

  unchanged :
      (ix : NodeIndex S) (m : NodeMetadata) (raw : Bytes) (d : S.Db) (r : Result (Unit {0}))
      (k : Bytes)
      → (d, r) ≡ S.write ix.db ((key_from_node_oid m.node_id, raw) ∷ [])
      → r ≢ ok tt
      → S.get d k ≡ S.get ix.db k
  unchanged ix m raw d r k e bad =
      ap (λ (w : S.Db × Result (Unit {0})). S.get w.0 k) e
      ∙ L.get-write_failed ix.db ((key_from_node_oid m.node_id, raw) ∷ []) k
          (λ good. bad (ap (λ (w : S.Db × Result (Unit {0})). w.1) e ∙ good))

  stored_node-Outcome :
      (ix : NodeIndex S) (m : NodeMetadata) (raw : Bytes)
      → S.marshal_node m ≡ ok raw
      → (w : S.Db × Result (Unit {0})) → w ≡ S.write ix.db ((key_from_node_oid m.node_id, raw) ∷ [])
      → Outcome ix m (stored_node S ix m w)
  unfolding stored_node
  stored_node-Outcome ix m raw marshalled (db, ok u) e = stored raw marshalled refl (λ k.
      ap (λ (w : S.Db × Result (Unit {0})). S.get w.0 k) e
      ∙ L.get-write ix.db ((key_from_node_oid m.node_id, raw) ∷ []) k
          (sym (ap (λ (w : S.Db × Result (Unit {0})). w.1) e))
      ∙ ground arith)
  stored_node-Outcome ix m raw marshalled (db, err x) e =
      failed (λ r p. cc) (λ k. unchanged ix m raw db (err x) k e (λ p. cc))
        (λ good.
          let w = good.writes ix.db ((key_from_node_oid m.node_id, raw) ∷ []) in
          cc (ap (λ (w : S.Db × Result (Unit {0})). w.1) e, w))
  stored_node-Outcome ix m raw marshalled (db, panic x) e =
      failed (λ r p. cc) (λ k. unchanged ix m raw db (panic x) k e (λ p. cc))
        (λ good.
          let w = good.writes ix.db ((key_from_node_oid m.node_id, raw) ∷ []) in
          cc (ap (λ (w : S.Db × Result (Unit {0})). w.1) e, w))
  stored_node-Outcome ix m raw marshalled (db, stuck) e =
      failed (λ r p. cc) (λ k. unchanged ix m raw db stuck k e (λ p. cc))
        (λ good.
          let w = good.writes ix.db ((key_from_node_oid m.node_id, raw) ∷ []) in
          cc (ap (λ (w : S.Db × Result (Unit {0})). w.1) e, w))

  store_node-Outcome :
      (ix : NodeIndex S) (m : NodeMetadata) (r : Result Bytes)
      → S.marshal_node m ≡ r
      → Outcome ix m (store_node S ix m r)
  unfolding store_node
  store_node-Outcome ix m (ok raw) e = stored_node-Outcome ix m raw e _ refl
  store_node-Outcome ix m (err x) e =
      failed (λ r p. cc) (λ k. refl) (λ good. let (raw, p) = good.encodes_node m in cc (e, p))
  store_node-Outcome ix m (panic x) e =
      failed (λ r p. cc) (λ k. refl) (λ good. let (raw, p) = good.encodes_node m in cc (e, p))
  store_node-Outcome ix m stuck e =
      failed (λ r p. cc) (λ k. refl) (λ good. let (raw, p) = good.encodes_node m in cc (e, p))

  pub put-Outcome : (ix : NodeIndex S) (m : NodeMetadata) → Outcome ix m (put S ix m)
  unfolding put
  put-Outcome ix m = store_node-Outcome ix m _ refl

  same_reads :
      (o : Oid) (a b : NodeIndex S)
      → S.get a.db (key_from_node_oid o) ≡ S.get b.db (key_from_node_oid o)
      → get S a o ≡ get S b o
  unfolding get
  same_reads o a b e = rw e

  -- After a `Put` that succeeds of the metadata of a node with an identifier, `Get` gives it
  -- back, with the time as the store keeps it.
  pub get-put :
      (ix : NodeIndex S) (m r : NodeMetadata)
      → IsOid m.node_id
      → (put S ix m).1 ≡ ok r
      → get S (put S ix m).0 m.node_id ≡ ok (stored_node_metadata m)
  unfolding get
  get-put ix m r id good = elim (put-Outcome ix m) [
    | failed bad same fault ↦ absurd (bad r good)
    | stored raw marshalled out reads ↦ rw (
      reads (key_from_node_oid m.node_id),
      bytes_eq_refl (key_from_node_oid m.node_id),
      L.unmarshal-marshal_node m raw id marshalled,
      (oid_eq_iff m.node_id m.node_id).1 refl,
    )
  ]

  -- A `Put` for a node, failing or not, does not change what `Get` gives for another node; both
  -- have identifiers.
  pub get-put_ne :
      (ix : NodeIndex S) (m : NodeMetadata) (o : Oid)
      → IsOid m.node_id
      → IsOid o
      → m.node_id ≢ o
      → get S (put S ix m).0 o ≡ get S ix o
  get-put_ne ix m o id ho ne = elim (put-Outcome ix m) [
    | failed bad same fault ↦ same_reads o (put S ix m).0 ix (same (key_from_node_oid o))
    | stored raw marshalled out reads ↦
        same_reads o (put S ix m).0 ix
          (reads (key_from_node_oid o) ∙ rw (key_from_node_oid_eq m.node_id o id ho ne))
  ]

  -- A `Put` that fails does not change what `Get` gives for any node.
  pub get-put_failed :
      (ix : NodeIndex S) (m : NodeMetadata) (o : Oid)
      → ((r : NodeMetadata) → (put S ix m).1 ≢ ok r)
      → get S (put S ix m).0 o ≡ get S ix o
  get-put_failed ix m o bad = elim (put-Outcome ix m) [
    | failed _ same fault ↦ same_reads o (put S ix m).0 ix (same (key_from_node_oid o))
    | stored raw marshalled out reads ↦ absurd (bad m out)
  ]

  -- Where the store and the encoder do not fail, a `Put` succeeds.
  pub put-ok : (ix : NodeIndex S) (m : NodeMetadata) → IsReliable S → (put S ix m).1 ≡ ok m
  put-ok ix m good = elim (put-Outcome ix m) [
    | failed bad same fault ↦ absurd (fault good)
    | stored raw marshalled out reads ↦ out
  ]

  pub get_missing :
      (ix : NodeIndex S) (o : Oid) (e : Error)
      → S.get ix.db (key_from_node_oid o) ≡ err e
      → get S ix o ≡ err e
  unfolding get
  get_missing ix o e h = rw h
