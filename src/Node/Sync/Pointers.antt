-- ===== src/Node/Sync/Pointers.antt =====
-- The answers of `PeerSync` (swarm/node/server.go) as the messages carry them, as pointers.
use mathlib.Core.List.{map-append}
use juren_cluster.Prelude.{
  ℕ, suc, ◌≡◌, refl, ap, arith, max, Option, some, List, [], ◌∷◌, map, length, All, All-append,
  ◌==◌, inl, inr, Bool-cases,
}
use juren_cluster.Oid.RoundTrip.{IsOid}
use juren_cluster.DataModel.{Metadata, ExtendedMetadata}
use juren_cluster.LevelDb.{Storage, StorageLaws}
use juren_cluster.BlockIndex.Journal.{Rows, entry, numbered, between, slice}
use juren_cluster.BlockIndex.Represents.{RowsDecode}
use juren_cluster.Node.Sync.Slices.{max_seq_of}
use juren_cluster.Node.Sync.Absorbs.{max_seen}

abbrev pub pointers : List ExtendedMetadata → List (Option ExtendedMetadata)
pointers es = map some es

pub length-pointers : (es : List ExtendedMetadata) → length (pointers es) ≡ length es
length-pointers [] = refl
length-pointers (e ∷ es) = ap suc (length-pointers es)

pub max_seen-pointers :
    (seen : ℕ) (es : List ExtendedMetadata) → max_seen seen (pointers es) ≡ max_seq_of seen es
unfolding max_seen max_seq_of
max_seen-pointers seen [] = refl
max_seen-pointers seen (e ∷ es) = max_seen-pointers (max seen e.sequence_number) es

pub All-pointers :
    (P : Option ExtendedMetadata → Type 0) (es : List ExtendedMetadata)
    → All P (pointers es)
    → All (λ e. P (some e)) es
All-pointers P [] h = tt
All-pointers P (e ∷ es) h = (h.0, All-pointers P es h.1)

module _ (S : Storage) (L : StorageLaws S) where
  pub slice-pointers :
      (P : Option ExtendedMetadata → Type 0) (j : Rows) (start end : ℕ)
      → ((n : ℕ) (m : Metadata) → IsOid m.oid → P (some (entry n m)))
      → RowsDecode S L j
      → All P (pointers (slice j start end))
  unfolding slice
  slice-pointers P [] start end h dec = tt
  slice-pointers P (r ∷ j) start end h (decoded, id, stable, dec) = rw map-append (
      All-append P (pointers (slice j start end)) _ (slice-pointers P j start end h dec)
        (elim (Bool-cases (between start end (length (r ∷ j)))) [
          | inl inside ↦ rw inside (h (length (r ∷ j)) r.meta id, tt)
          | inr outside ↦ rw outside tt
        ]))

  pub numbered-stored :
      (j : Rows) (n : ℕ) (m : Metadata)
      → RowsDecode S L j
      → numbered j n ≡ some (entry n m)
      → L.stored_time m.update_time ≡ m.update_time
  unfolding numbered
  numbered-stored [] n m dec row = absurd (ground (arith, row))
  numbered-stored (r ∷ j) n m (decoded, id, stable, dec) row =
      elim (Bool-cases (length (r ∷ j) == n)) [
        | inl here ↦ ground (arith, here, row, stable)
        | inr later ↦ numbered-stored j n m dec (rw later at row)
      ]
