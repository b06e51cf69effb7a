-- ===== src/Node/Sync/Slices.antt =====
-- The answers of `PeerSync` (swarm/node/server.go): the batch that a slice of the journal makes.
use juren_cluster.Prelude.{
  ℕ, ◌+◌, ◌-◌, ◌≤◌, ◌<◌, ◌≡◌, refl, ◌∙◌, arith, max, true, some, List, [], ◌∷◌, ◌++◌, length,
  length-append, ◌==◌, All, All-split, inl, inr, Bool-cases,
}
use Prim.Native.Nat.{min}
use juren_cluster.DataModel.{ExtendedMetadata}
use juren_cluster.BlockIndex.Journal.{Rows, entry, numbered, between, slice}

-- The greatest number of a batch and of a number.
unfoldable pub max_seq_of : ℕ → List ExtendedMetadata → ℕ
max_seq_of seen [] = seen
max_seq_of seen (e ∷ es) = max_seq_of (max seen e.sequence_number) es

max_seq_of-append :
    (seen : ℕ) (xs ys : List ExtendedMetadata)
    → max_seq_of seen (xs ++ ys) ≡ max_seq_of (max_seq_of seen xs) ys
unfolding max_seq_of
max_seq_of-append seen [] ys = refl
max_seq_of-append seen (e ∷ xs) ys = max_seq_of-append (max seen e.sequence_number) xs ys

-- A slice has a row for every number of its range that the journal has.
pub length-slice :
    (j : Rows) (start end : ℕ)
    → 1 ≤ start
    → length (slice j start end) ≡ min end (length j + 1) - start
unfolding slice
length-slice [] start end h = omega arith
length-slice (r ∷ j) start end h =
    length-append (slice j start end) _ ∙ elim (Bool-cases (between start end (length (r ∷ j)))) [
      | inl inside ↦ rw (inside, length-slice j start end h) (ground (arith, inside))
      | inr outside ↦ rw (outside, length-slice j start end h) (ground (arith, outside))
    ]

pub max_seq_of-slice :
    (j : Rows) (seen end : ℕ)
    → seen < end
    → max_seq_of seen (slice j (seen + 1) end) ≡ max seen (min (end - 1) (length j))
unfolding slice
max_seq_of-slice [] seen end h = unfold max_seq_of in omega arith
max_seq_of-slice (r ∷ j) seen end h =
    max_seq_of-append seen (slice j (seen + 1) end) _
    ∙ elim (Bool-cases (between (seen + 1) end (length (r ∷ j)))) [
      | inl inside ↦
          rw (inside, max_seq_of-slice j seen end h) (unfold max_seq_of in ground (arith, inside))
      | inr outside ↦
          rw (outside, max_seq_of-slice j seen end h) (unfold max_seq_of in ground (arith, outside))
    ]

-- What holds of every entry of a slice holds of each row with a number in the range.
pub All-slice :
    (P : ExtendedMetadata → Type 0) (j : Rows) (start end n : ℕ) (e : ExtendedMetadata)
    → All P (slice j start end)
    → numbered j n ≡ some e
    → between start end n ≡ true
    → P e
unfolding slice numbered
All-slice P [] start end n e all row inside = absurd (ground (arith, row))
All-slice P (r ∷ j) start end n e all row inside = elim (Bool-cases (length (r ∷ j) == n)) [
  | inl here ↦
      let same : length (r ∷ j) ≡ n = ground arith in
      let this : entry (length (r ∷ j)) r.meta ≡ e = ground (arith, here, row) in
      rw (← this)
        (rw
          (let yes_inside : between start end (length (r ∷ j)) ≡ true = rw same inside in
            yes_inside)
          at (All-split P (slice j start end) _ all).1).0
  | inr later ↦
      All-slice P j start end n e (All-split P (slice j start end) _ all).0 (rw later at row) inside
]
