-- ===== src/BlockIndex/Represents.antt =====
-- When the state of a block index (datastore/leveldb/blockindex.go) stands for a journal.
use juren_cluster.Prelude.{
  ℕ, ◌≡◌, refl, sym, ap, ◌∙◌, arith, false, none, some, [], ◌∷◌, Bytes, bytes_eq, bytes_eq_iff,
  length, ◌==◌, Bool-cases, inl, inr, ◌⊎◌,
}
use juren_cluster.Outcome.{ok, err, not_found}
use juren_cluster.Oid.{Oid, oid_eq}
use juren_cluster.Oid.RoundTrip.{IsOid, oid_eq_iff, to_string_injective}
use juren_cluster.DataModel.{Metadata}
use juren_cluster.LevelDb.{Storage, StorageLaws}
use juren_cluster.LevelDb.Keys.{key_from_block_oid, key_from_seq}
use juren_cluster.LevelDb.KeyOrder.{IsU64, seq_from_key-key_from_seq}
use juren_cluster.BlockIndex.{BlockIndex}
use juren_cluster.BlockIndex.Journal.{Rows, entry, contents, latest, numbered}

pub key_from_block_oid-ne_seq :
    (o : Oid) (n : ℕ) → bytes_eq (key_from_block_oid o) (key_from_seq n) ≡ false
unfolding key_from_block_oid key_from_seq bytes_eq
key_from_block_oid-ne_seq o n = refl

pub key_from_seq-ne_oid :
    (n : ℕ) (o : Oid) → bytes_eq (key_from_seq n) (key_from_block_oid o) ≡ false
unfolding key_from_block_oid key_from_seq bytes_eq
key_from_seq-ne_oid n o = refl

pub key_from_seq_injective : (a b : ℕ) → IsU64 a → IsU64 b → key_from_seq a ≡ key_from_seq b → a ≡ b
key_from_seq_injective a b ha hb e =
    cc (seq_from_key-key_from_seq a ha, seq_from_key-key_from_seq b hb, e)

strip_prefix : (o p : Oid) → key_from_block_oid o ≡ key_from_block_oid p → o.s ≡ p.s
unfolding key_from_block_oid
strip_prefix o p e = cc

key_from_block_oid_eq :
    (o p : Oid)
    → IsOid o
    → IsOid p
    → bytes_eq (key_from_block_oid o) (key_from_block_oid p) ≡ oid_eq o p
key_from_block_oid_eq o p ho hp = elim (Bool-cases (oid_eq o p)) [
  | inl same ↦
      let e : o ≡ p = (oid_eq_iff o p).0 same in
      rw same ((bytes_eq_iff _ _).1 (ap key_from_block_oid e))
  | inr differ ↦ elim (Bool-cases (bytes_eq (key_from_block_oid o) (key_from_block_oid p))) [
    | inl same ↦
        let e = to_string_injective o p ho hp (strip_prefix o p ((bytes_eq_iff _ _).0 same)) in
        rw same (sym ((oid_eq_iff o p).1 e))
    | inr ne ↦ rw (ne, differ)
  ]
]

pub key_from_seq_eq :
    (a b : ℕ) → IsU64 a → IsU64 b → bytes_eq (key_from_seq a) (key_from_seq b) ≡ (a == b)
key_from_seq_eq a b ha hb = ground (
  arith,
  bytes_eq_iff (key_from_seq a) (key_from_seq b),
  key_from_seq_injective a b ha hb,
  λ (e : a ≡ b). ap key_from_seq e,
)

module _ (S : Storage) (L : StorageLaws S) where
  -- Every row can be decoded, names a block by an identifier, and holds a time as it is stored.
  abbrev pub RowsDecode : Rows → Type 0
  RowsDecode [] = Unit {0}
  RowsDecode (r ∷ j) =
      (S.unmarshal_block r.raw ≡ ok (entry (length (r ∷ j)) r.meta))
      × IsOid r.meta.oid
      × (L.stored_time r.meta.update_time ≡ r.meta.update_time)
      × RowsDecode j

  pub record Represents (ix : BlockIndex S) (j : Rows) : Type 0 where
    pub seq_ok : ix.seq ≡ length j
    pub bounded : IsU64 (length j)
    pub contents_ok : (k : Bytes) → S.get ix.db k ≡ contents j k
    pub decodes : RowsDecode j

  -- The bytes under the key of a block decode to its newest row.
  abbrev pub HoldsLatest : Rows → Oid → Type 0
  HoldsLatest j o =
      ((contents j (key_from_block_oid o) ≡ err not_found) × (latest j o ≡ none))
      ⊎ ((raw : Bytes) × (n : ℕ) × (m : Metadata) × (contents j (key_from_block_oid o) ≡ ok raw)
          × (S.unmarshal_block raw ≡ ok (entry n m))
          × (latest j o ≡ some (entry n m))
          × (m.oid ≡ o)
          × (L.stored_time m.update_time ≡ m.update_time))

  pub contents-latest : (j : Rows) (o : Oid) → IsOid o → RowsDecode j → HoldsLatest j o
  unfolding contents latest
  contents-latest [] o ho h = inl (refl, refl)
  contents-latest (r ∷ j) o ho (decoded, id, stored, h) = elim (Bool-cases (oid_eq r.meta.oid o)) [
    | inl same ↦ inr (
      r.raw,
      length (r ∷ j),
      r.meta,
      rw (key_from_block_oid_eq r.meta.oid o id ho, same),
      decoded,
      rw same,
      (oid_eq_iff r.meta.oid o).0 same,
      stored,
    )
    | inr differ ↦
        rw
          (key_from_block_oid_eq r.meta.oid o id ho, differ, key_from_seq-ne_oid (length (r ∷ j)) o)
          (contents-latest j o ho h)
  ]

  -- The bytes under the key of a number decode to the row with the number.
  abbrev pub HoldsNumbered : Rows → ℕ → Type 0
  HoldsNumbered j n =
      ((contents j (key_from_seq n) ≡ err not_found) × (numbered j n ≡ none))
      ⊎ ((raw : Bytes) × (m : Metadata) × (contents j (key_from_seq n) ≡ ok raw)
          × (S.unmarshal_block raw ≡ ok (entry n m))
          × (numbered j n ≡ some (entry n m)))

  pub contents-numbered :
      (j : Rows) (n : ℕ) → IsU64 n → IsU64 (length j) → RowsDecode j → HoldsNumbered j n
  unfolding contents numbered
  contents-numbered [] n hn hj h = inl (refl, refl)
  contents-numbered (r ∷ j) n hn hj (decoded, id, stored, h) =
      elim (Bool-cases (length (r ∷ j) == n)) [
        | inl same ↦
            let e : length (r ∷ j) ≡ n = ground arith in
            inr (
              r.raw,
              r.meta,
              rw (
                key_from_block_oid-ne_seq r.meta.oid n,
                key_from_seq_eq (length (r ∷ j)) n hj hn,
                same,
              ),
              decoded ∙ ap (λ k. ok (entry k r.meta)) e,
              rw same,
            )
        | inr differ ↦
            rw
              (
                key_from_block_oid-ne_seq r.meta.oid n,
                key_from_seq_eq (length (r ∷ j)) n hj hn,
                differ,
              )
              (contents-numbered j n hn (omega arith) h)
      ]
