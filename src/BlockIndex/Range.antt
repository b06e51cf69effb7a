-- ===== src/BlockIndex/Range.antt =====
-- `EnumerateBySeq` (datastore/leveldb/blockindex.go) gives the slice of the journal.
use juren_cluster.Prelude.{
  lt→ltb, ℕ, ◌<◌, ◌≡◌, refl, sym, ap, ◌∙◌, arith, true, none, some, List, [], ◌∷◌, ◌++◌, Bytes,
  bytes_eq, bytes_eq_iff, bytes_lt, length, ltb, if◌then◌else◌, inl, inr, Bool-cases, All,
  All-append, lookup, lookup-append, IsBelow, IsSorted, IsSorted-append, IsSorted-ext,
}
use juren_cluster.Outcome.{Result, ok, err, not_found, invalid_range, ◌>>=◌}
use juren_cluster.Oid.{Oid}
use juren_cluster.DataModel.{ExtendedMetadata}
use juren_cluster.LevelDb.{Storage, StorageLaws, in_range, found}
use juren_cluster.LevelDb.Keys.{key_from_block_oid, key_from_seq}
use juren_cluster.LevelDb.KeyOrder.{IsU64, lt-key_from_seq}
use juren_cluster.BlockIndex.{BlockIndex, enumerate_by_seq, decode_all}
use juren_cluster.BlockIndex.Journal.{Rows, contents, between, slice}
use juren_cluster.BlockIndex.Represents.{
  Represents, RowsDecode, key_from_block_oid-ne_seq, key_from_seq-ne_oid, key_from_seq_eq,
}

abbrev pair_of : ℕ → ℕ → ℕ → Bytes → List (Bytes × Bytes)
pair_of start end n raw = if between start end n then (key_from_seq n, raw) ∷ [] else []

-- The pairs of the store that a slice is read from.
unfoldable pub pairs : Rows → ℕ → ℕ → List (Bytes × Bytes)
pairs [] start end = []
pairs (r ∷ j) start end = pairs j start end ++ pair_of start end (length (r ∷ j)) r.raw

-- A number beyond the journal has no row.
pub contents_beyond :
    (j : Rows) (n : ℕ) → length j < n → IsU64 n → contents j (key_from_seq n) ≡ err not_found
unfolding contents
contents_beyond [] n h hn = refl
contents_beyond (r ∷ j) n h hn = rw (key_from_block_oid-ne_seq r.meta.oid n) (
    ground (
      arith,
      key_from_seq_eq (length (r ∷ j)) n (omega arith) hn,
      contents_beyond j n (omega arith) hn,
    ))

pub oid_before_seq : (o : Oid) (n : ℕ) → bytes_lt (key_from_block_oid o) (key_from_seq n) ≡ true
unfolding key_from_block_oid key_from_seq bytes_lt
oid_before_seq o n = refl

module _ (start end : ℕ) (hs : IsU64 start) (he : IsU64 end) where
  pub in_range-key_from_seq :
      (n : ℕ)
      → IsU64 n
      → in_range (key_from_seq start) (key_from_seq end) (key_from_seq n) ≡ between start end n
  in_range-key_from_seq n hn =
      rw (lt-key_from_seq n start hn hs, lt-key_from_seq n end hn he) (ground arith)

  lookup-pair_of :
      (n : ℕ) (raw k : Bytes)
      → lookup k (pair_of start end n raw) ≡ (
          if between start end n
          then (if bytes_eq (key_from_seq n) k then some raw else none)
          else none)
  unfolding lookup
  lookup-pair_of n raw k = ground arith

  pub lookup-pairs :
      (j : Rows) (k : Bytes)
      → IsU64 (length j)
      → lookup k (pairs j start end) ≡ (
          if in_range (key_from_seq start) (key_from_seq end) k then found (contents j k) else none)
  unfolding pairs contents
  lookup-pairs [] k hj = unfold lookup in ground arith
  lookup-pairs (r ∷ j) k hj =
      rw
        (
          lookup-append k (pairs j start end) _,
          lookup-pairs j k (omega arith),
          lookup-pair_of (length (r ∷ j)) r.raw k,
        )
        (elim (Bool-cases (bytes_eq (key_from_block_oid r.meta.oid) k)) [
          | inl is_oid ↦
              let e = (bytes_eq_iff (key_from_block_oid r.meta.oid) k).0 is_oid in
              ground (
                arith,
                ap (λ (b : Bytes). bytes_lt b (key_from_seq start)) e,
                oid_before_seq r.meta.oid start,
                ap (bytes_eq (key_from_seq (length (r ∷ j)))) e,
                key_from_seq-ne_oid (length (r ∷ j)) r.meta.oid,
              )
          | inr not_oid ↦ elim (Bool-cases (bytes_eq (key_from_seq (length (r ∷ j))) k)) [
            | inl is_seq ↦
                let e = (bytes_eq_iff (key_from_seq (length (r ∷ j))) k).0 is_seq in
                ground (
                  arith,
                  not_oid,
                  is_seq,
                  ap (in_range (key_from_seq start) (key_from_seq end)) e,
                  in_range-key_from_seq (length (r ∷ j)) hj,
                  ap (contents j) e,
                  contents_beyond j (length (r ∷ j)) (omega arith) hj,
                )
            | inr not_seq ↦ ground (arith, not_oid, not_seq)
          ]
        ])

  pairs-below :
      (j : Rows) (n : ℕ)
      → length j < n
      → IsU64 n
      → All (λ (p : Bytes × Bytes). bytes_lt p.0 (key_from_seq n) ≡ true) (pairs j start end)
  unfolding pairs
  pairs-below [] n h hn = tt
  pairs-below (r ∷ j) n h hn =
      All-append _ (pairs j start end) _ (pairs-below j n (omega arith) hn) (
        below (length (r ∷ j)) r.raw
          (lt-key_from_seq (length (r ∷ j)) n (omega arith) hn ∙ lt→ltb _ _ h))
    where
      below :
          (i : ℕ) (raw : Bytes)
          → bytes_lt (key_from_seq i) (key_from_seq n) ≡ true
          → All
              (λ (p : Bytes × Bytes). bytes_lt p.0 (key_from_seq n) ≡ true)
              (pair_of start end i raw)
      below i raw lt = elim (Bool-cases (between start end i)) [
        | inl inside ↦ rw inside (lt, tt)
        | inr outside ↦ rw outside tt
      ]

  pub pairs-IsSorted : (j : Rows) → IsU64 (length j) → IsSorted (pairs j start end)
  unfolding pairs
  pairs-IsSorted [] h = tt
  pairs-IsSorted (r ∷ j) h =
      IsSorted-append (pairs j start end) _ (pairs-IsSorted j (omega arith))
        (single (length (r ∷ j)) r.raw)
        (all_below (pairs j start end) (length (r ∷ j)) r.raw
          (pairs-below j (length (r ∷ j)) (omega arith) h))
    where
      single : (i : ℕ) (raw : Bytes) → IsSorted (pair_of start end i raw)
      single i raw = elim (Bool-cases (between start end i)) [
        | inl inside ↦ rw inside (tt, tt)
        | inr outside ↦ rw outside tt
      ]

      all_below :
          (ps : List (Bytes × Bytes)) (i : ℕ) (raw : Bytes)
          → All (λ (p : Bytes × Bytes). bytes_lt p.0 (key_from_seq i) ≡ true) ps
          → All (λ (p : Bytes × Bytes). IsBelow p.0 (pair_of start end i raw)) ps
      all_below [] i raw b = tt
      all_below (p ∷ ps) i raw b = (
        elim (Bool-cases (between start end i)) [
          | inl inside ↦ rw inside (b.0, tt)
          | inr outside ↦ rw outside tt
        ],
        all_below ps i raw b.1,
      )

module _ (S : Storage) (L : StorageLaws S) where
  cons_joined :
      (m : Result ExtendedMetadata) (r t : Result (List ExtendedMetadata))
      → (m >>= λ md. (r >>= λ es. t >>= λ fs. ok (es ++ fs)) >>= λ mds. ok (md ∷ mds))
        ≡ ((m >>= λ md. r >>= λ mds. ok (md ∷ mds)) >>= λ es. t >>= λ fs. ok (es ++ fs))
  cons_joined (ok md) (ok es) (ok fs) = refl
  cons_joined m r t = ground arith

  decode_all-append :
      (xs ys : List (Bytes × Bytes))
      → decode_all S (xs ++ ys)
        ≡ (decode_all S xs >>= λ es. decode_all S ys >>= λ fs. ok (es ++ fs))
  unfolding decode_all
  decode_all-append [] ys = ground arith
  decode_all-append ((k, raw) ∷ xs) ys =
      rw (decode_all-append xs ys)
        (cons_joined (S.unmarshal_block raw) (decode_all S xs) (decode_all S ys))

  decode_all-pairs :
      (j : Rows) (start end : ℕ)
      → RowsDecode S L j
      → decode_all S (pairs j start end) ≡ ok (slice j start end)
  unfolding pairs slice decode_all
  decode_all-pairs [] start end h = refl
  decode_all-pairs (r ∷ j) start end (decoded, id, time, h) =
      rw (decode_all-append (pairs j start end) _, decode_all-pairs j start end h)
        (elim (Bool-cases (between start end (length (r ∷ j)))) [
          | inl inside ↦ rw (inside, decoded)
          | inr outside ↦ rw outside
        ])

  -- In a state that stands for a journal, for bounds that fit a uint64, `EnumerateBySeq` refuses
  -- a range that ends before it starts, and for any other gives the rows of the journal from its
  -- start up to and without its end, oldest first. So the end is exclusive, where the interface
  -- says that it is inclusive.
  pub enumerate_by_seq-slice :
      (ix : BlockIndex S) (j : Rows) (start end : ℕ)
      → Represents S L ix j
      → IsU64 start
      → IsU64 end
      → enumerate_by_seq S ix start end
        ≡ (if ltb end start then err invalid_range else ok (slice j start end))
  unfolding enumerate_by_seq
  enumerate_by_seq-slice ix j start end rep hs he =
      let same =
        IsSorted-ext (S.scan ix.db (key_from_seq start) (key_from_seq end)) (pairs j start end)
          (L.scan-IsSorted ix.db _ _) (pairs-IsSorted start end hs he j rep.bounded)
          (λ k.
            L.lookup-scan ix.db (key_from_seq start) (key_from_seq end) k
            ∙ ground (arith, rep.contents_ok k)
            ∙ sym (lookup-pairs start end hs he j k rep.bounded)) in
      rw (same, decode_all-pairs j start end rep.decodes)
