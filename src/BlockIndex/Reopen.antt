-- ===== src/BlockIndex/Reopen.antt =====
-- `NewBlockIndex` (datastore/leveldb/blockindex.go) finds the last sequence number in the store.
use juren_cluster.Prelude.{
  ℕ, ◌+◌, ◌≤◌, ◌≡◌, refl, sym, ap, ◌∙◌, arith, true, false, none, some, List, [], ◌∷◌, ◌++◌, Bytes,
  bytes_eq, bytes_eq_iff, bytes_lt, has_prefix, length, if◌then◌else◌, inl, inr, ◌⊎◌, Bool-cases,
  lookup, IsSorted-ext,
}
use juren_cluster.Outcome.{ok, err, not_found}
use juren_cluster.Oid.{Oid}
use juren_cluster.LevelDb.{Storage, StorageLaws, in_range, found}
use juren_cluster.LevelDb.Keys.{key_prefix_seq, key_from_block_oid, key_from_seq}
use juren_cluster.LevelDb.KeyOrder.{IsU64, seq_from_key-key_from_seq}
use juren_cluster.BlockIndex.{BlockIndex, new_block_index, max_seq, last_key}
use juren_cluster.BlockIndex.Journal.{Rows, contents, between}
use juren_cluster.BlockIndex.Represents.{Represents}
use juren_cluster.BlockIndex.Range.{
  pairs, lookup-pairs, pairs-IsSorted, in_range-key_from_seq, oid_before_seq,
}

last_key-append : (xs : List (Bytes × Bytes)) (k v : Bytes) → last_key (xs ++ (k, v) ∷ []) ≡ some k
unfolding last_key
last_key-append [] k v = refl
last_key-append ((i, w) ∷ []) k v = refl
last_key-append (p ∷ (i, w) ∷ xs) k v = last_key-append ((i, w) ∷ xs) k v

-- Only the keys of blocks and of the numbers up to the length are bound.
contents_cases :
    (j : Rows) (k : Bytes)
    → (contents j k ≡ err not_found)
      ⊎ ((o : Oid) × (key_from_block_oid o ≡ k))
      ⊎ ((n : ℕ) × (key_from_seq n ≡ k) × (n ≤ length j))
unfolding contents
contents_cases [] k = inl refl
contents_cases (r ∷ j) k = elim (Bool-cases (bytes_eq (key_from_block_oid r.meta.oid) k)) [
  | inl is_oid ↦ inr (inl (r.meta.oid, (bytes_eq_iff (key_from_block_oid r.meta.oid) k).0 is_oid))
  | inr not_oid ↦ elim (Bool-cases (bytes_eq (key_from_seq (length (r ∷ j))) k)) [
    | inl is_seq ↦ inr (
        inr
          (length (r ∷ j), (bytes_eq_iff (key_from_seq (length (r ∷ j))) k).0 is_seq, omega arith))
    | inr not_seq ↦
        rw (not_oid, not_seq)
          (elim (contents_cases j k) [
            | inl missing ↦ inl missing
            | inr (inl o) ↦ inr (inl o)
            | inr (inr (n, e, h)) ↦ inr (inr (n, e, omega arith))
          ])
  ]
]

oid_has_no_seq_prefix : (o : Oid) → has_prefix key_prefix_seq (key_from_block_oid o) ≡ false
unfolding key_from_block_oid has_prefix
oid_has_no_seq_prefix o = refl

seq_has_seq_prefix : (n : ℕ) → has_prefix key_prefix_seq (key_from_seq n) ≡ true
unfolding key_from_seq has_prefix
seq_has_seq_prefix n = refl

module _ (j : Rows) (room : IsU64 (length j + 1)) where
  abbrev all_pairs : List (Bytes × Bytes)
  all_pairs = pairs j 0 (length j + 1)

  lookup-all_pairs :
      (k : Bytes)
      → lookup k all_pairs ≡ (if has_prefix key_prefix_seq k then found (contents j k) else none)
  lookup-all_pairs k =
      lookup-pairs 0 (length j + 1) (omega arith) room j k (omega arith)
      ∙ elim (contents_cases j k) [
        | inl missing ↦ rw missing (ground arith)
        | inr (inl (o, e)) ↦ ground (
          arith,
          ap (has_prefix key_prefix_seq) e,
          oid_has_no_seq_prefix o,
          ap (λ (b : Bytes). bytes_lt b (key_from_seq 0)) e,
          oid_before_seq o 0,
        )
        | inr (inr (n, e, h)) ↦ ground (
          arith,
          ap (has_prefix key_prefix_seq) e,
          seq_has_seq_prefix n,
          ap (in_range (key_from_seq 0) (key_from_seq (length j + 1))) e,
          in_range-key_from_seq 0 (length j + 1) (omega arith) room n (omega arith),
        )
      ]

module _ (S : Storage) where
  max_seq-pairs :
      (j : Rows)
      → IsU64 (length j + 1)
      → max_seq S (last_key (pairs j 0 (length j + 1))) ≡ ok (length j)
  unfolding max_seq pairs
  max_seq-pairs [] h = unfold last_key in refl
  max_seq-pairs (r ∷ j) h =
      let inside : between 0 (length (r ∷ j) + 1) (length (r ∷ j)) ≡ true = ground arith in
      rw (
        inside,
        last_key-append (pairs j 0 (length (r ∷ j) + 1)) (key_from_seq (length (r ∷ j))) r.raw,
        seq_from_key-key_from_seq (length (r ∷ j)) (omega arith),
      )

  -- Opening the store of an index that stands for a journal, with room for one more row, gives
  -- the index back with its sequence number.
  pub new_block_index_reopens :
      (L : StorageLaws S) (ix : BlockIndex S) (j : Rows)
      → Represents S L ix j
      → IsU64 (length j + 1)
      → new_block_index S (ok ix.db) ≡ ok ix
  unfolding new_block_index
  new_block_index_reopens L ix j rep room =
      let same =
        IsSorted-ext (S.scan_prefix ix.db key_prefix_seq) (pairs j 0 (length j + 1))
          (L.scan_prefix-IsSorted ix.db _)
          (pairs-IsSorted 0 (length j + 1) (omega arith) room j rep.bounded)
          (λ k.
            L.lookup-scan_prefix ix.db key_prefix_seq k
            ∙ ground (arith, rep.contents_ok k)
            ∙ sym (lookup-all_pairs j room k)) in
      rw (same, max_seq-pairs j room) (ground (arith, rep.seq_ok))

  -- A store that holds nothing stands for the empty journal.
  pub empty-Represents :
      (L : StorageLaws S) (d : S.Db)
      → ((k : Bytes) → S.get d k ≡ err not_found)
      → Represents S L (record { db = d; seq = 0 }) []
  unfolding contents
  empty-Represents L d h = record {
    seq_ok = refl;
    bounded = omega arith;
    contents_ok = h;
    decodes = tt;
  }
