-- ===== src/Node/Sync/Absorbs.antt =====
-- What the entries of a peer do to the block index, in swarm/node/node.go's sync.
use juren_cluster.Prelude.{
  ℕ, suc, ◌+◌, ◌≤◌, ◌≡◌, refl, sym, arith, max, Option, none, some, List, [], ◌∷◌, length, All, inl,
  inr, ◌⊎◌, Option-cases,
}
use mathlib.Core.Path.{subst}
use juren_cluster.Outcome.{Result, Error, Panic, ok, err, panic, stuck, nil_dereference}
use juren_cluster.Oid.{Oid}
use juren_cluster.Oid.RoundTrip.{IsOid}
use juren_cluster.DataModel.{Metadata, ExtendedMetadata}
use juren_cluster.LevelDb.{Storage, StorageLaws, IsReliable}
use juren_cluster.LevelDb.KeyOrder.{IsU64}
use juren_cluster.BlockIndex
use juren_cluster.BlockIndex.{BlockIndex}
use juren_cluster.BlockIndex.Journal.{Rows, entry}
use juren_cluster.BlockIndex.Represents.{Represents}
use juren_cluster.BlockIndex.Wins.{IsAtLeast, Advances, put-Advances}
use juren_cluster.Node.{Node}
use juren_cluster.Node.Sync.{sync_entries}

-- An entry names a block by an identifier, as far as it has metadata.
abbrev pub IsValidMetadata : Option Metadata → Type 0
IsValidMetadata none = Unit {0}
IsValidMetadata (some m) = IsOid m.oid

abbrev pub IsValid : Option ExtendedMetadata → Type 0
IsValid none = Unit {0}
IsValid (some e) = IsValidMetadata e.metadata

-- The greatest number of a batch and of a number.
unfoldable pub max_seen : ℕ → List (Option ExtendedMetadata) → ℕ
max_seen seen [] = seen
max_seen seen (none ∷ es) = max_seen seen es
max_seen seen (some e ∷ es) = max_seen (max seen e.sequence_number) es

pub Result-cases {ℓ} :
    {A : Type ℓ} (r : Result A)
    → ((a : A) × (r ≡ ok a))
      ⊎ ((e : Error) × (r ≡ err e))
      ⊎ ((p : Panic) × (r ≡ panic p))
      ⊎ (r ≡ stuck)
Result-cases (ok a) = inl (a, refl)
Result-cases (err e) = inr (inl (e, refl))
Result-cases (panic p) = inr (inr (inl (p, refl)))
Result-cases stuck = inr (inr (inr refl))

module _ (S : Storage) (L : StorageLaws S) where
  -- The metadata of an entry has landed: the newest row of its block is at least as new.
  abbrev pub LandedMetadata : Rows → Option Metadata → Type 0
  LandedMetadata rows none = Unit {0}
  LandedMetadata rows (some m) = IsAtLeast rows m.oid (L.stored_time m.update_time).instant

  abbrev pub Landed : Rows → Option ExtendedMetadata → Type 0
  Landed rows none = Unit {0}
  Landed rows (some e) = LandedMetadata rows e.metadata

  abbrev pub HasMetadata : Option ExtendedMetadata → Type 0
  HasMetadata none = ⊥
  HasMetadata (some e) = (m : Metadata) × (e.metadata ≡ some m)

  -- What the loop over the entries of an answer leaves.
  pub record Absorbed (j : Rows) (n : Node S) (seen : ℕ) (es : List (Option ExtendedMetadata))
      (out : Node S × Result ℕ) : Type 0 where
    pub rows : Rows
    pub represents : Represents S L out.0.block_index rows
    pub keeps : (o : Oid) (t : ℕ) → IsAtLeast j o t → IsAtLeast rows o t
    pub grows : length rows ≤ length j + length es
    pub node_index_kept : out.0.node_index ≡ n.node_index
    pub node_id_kept : out.0.node_id ≡ n.node_id
    pub succeeds : IsReliable S → All HasMetadata es → (s : ℕ) × (out.1 ≡ ok s)
    pub landed : (s : ℕ) → out.1 ≡ ok s → All (Landed rows) es
    pub greatest : (s : ℕ) → out.1 ≡ ok s → s ≡ max_seen seen es

  stopped :
      (j : Rows) (n n' : Node S) (seen : ℕ) (es : List (Option ExtendedMetadata)) (r : Result ℕ)
      (rows : Rows)
      → Represents S L n'.block_index rows
      → ((o : Oid) (t : ℕ) → IsAtLeast j o t → IsAtLeast rows o t)
      → length rows ≤ length j + length es
      → n'.node_index ≡ n.node_index
      → n'.node_id ≡ n.node_id
      → ((s : ℕ) → ¬ (r ≡ ok s))
      → (IsReliable S → ¬ All HasMetadata es)
      → Absorbed j n seen es (n', r)
  stopped j n n' seen es r rows rep keeps grows ni id bad fault = record {
    rows = rows;
    represents = rep;
    keeps = keeps;
    grows = grows;
    node_index_kept = ni;
    node_id_kept = id;
    succeeds = λ good full. absurd (fault good full);
    landed = λ s p. absurd (bad s p);
    greatest = λ s p. absurd (bad s p);
  }

  absorb :
      (n : Node S) (j : Rows) (seen : ℕ) (es : List (Option ExtendedMetadata)) (k : ℕ)
      (m : Metadata)
      → Advances S L j m (BlockIndex.put S n.block_index (entry k m))
      → IsU64 (length j + suc (length es))
      → ((n' : Node S) (j' : Rows)
          → Represents S L n'.block_index j'
          → IsU64 (length j' + length es)
          → Absorbed j' n' (max seen k) es (sync_entries S n' (max seen k) es))
      → Absorbed j n seen (some (entry k m) ∷ es) (sync_entries S n seen (some (entry k m) ∷ es))
  unfolding sync_entries
  absorb n j seen es k m adv room rest =
      let n' : Node S = record n { block_index = (BlockIndex.put S n.block_index (entry k m)).0 } in
      elim (Result-cases (BlockIndex.put S n.block_index (entry k m)).1) [
        | inl (e, good) ↦
            let ih = rest n' adv.rows adv.represents (omega (arith, adv.at_most_one)) in
            rw (good, sync_entries)
              (record {
                rows = ih.rows;
                represents = ih.represents;
                keeps = λ o t h. ih.keeps o t (adv.keeps o t h);
                grows = omega (arith, ih.grows, adv.at_most_one);
                node_index_kept = ih.node_index_kept;
                node_id_kept = ih.node_id_kept;
                succeeds = λ reliable full. ih.succeeds reliable full.1;
                landed = λ s p. (ih.keeps m.oid _ (adv.wins e good), ih.landed s p);
                greatest = λ s p. unfold max_seen in ih.greatest s p;
              })
        | inr (inl (x, bad)) ↦
            rw (bad, sync_entries)
              (stopped j n n' seen _ _ adv.rows adv.represents adv.keeps
                (omega (arith, adv.at_most_one)) refl refl (λ s p. cc)
                (λ good full. let (e, p) = adv.succeeds good in cc (bad, p)))
        | inr (inr (inl (x, bad))) ↦
            rw (bad, sync_entries)
              (stopped j n n' seen _ _ adv.rows adv.represents adv.keeps
                (omega (arith, adv.at_most_one)) refl refl (λ s p. cc)
                (λ good full. let (e, p) = adv.succeeds good in cc (bad, p)))
        | inr (inr (inr bad)) ↦
            rw (bad, sync_entries)
              (stopped j n n' seen _ _ adv.rows adv.represents adv.keeps
                (omega (arith, adv.at_most_one)) refl refl (λ s p. cc)
                (λ good full. let (e, p) = adv.succeeds good in cc (bad, p)))
      ]

  -- Whatever a peer sends, as long as it names blocks by identifiers: the index still stands for a
  -- journal, no block's newest row gets older, and on success every entry has landed.
  pub sync_entries-Absorbed :
      (n : Node S) (j : Rows) (seen : ℕ) (es : List (Option ExtendedMetadata))
      → Represents S L n.block_index j
      → All IsValid es
      → IsU64 (length j + length es)
      → Absorbed j n seen es (sync_entries S n seen es)
  unfolding sync_entries
  sync_entries-Absorbed n j seen [] rep valid room = record {
    rows = j;
    represents = rep;
    keeps = λ o t h. h;
    grows = omega arith;
    node_index_kept = refl;
    node_id_kept = refl;
    succeeds = λ good full. (seen, refl);
    landed = λ s p. tt;
    greatest = λ s p. unfold max_seen in ground (arith, p);
  }
  sync_entries-Absorbed n j seen (none ∷ es) rep valid room =
      stopped j n n seen (none ∷ es) (panic nil_dereference) j rep (λ o t h. h) (omega arith) refl
        refl (λ s p. cc) (λ good full. full.0)
  sync_entries-Absorbed n j seen (some block ∷ es) rep valid room =
      elim (Option-cases block.metadata) [
        | inl missing ↦
            subst
              (λ (b : ExtendedMetadata).
                Absorbed j n seen (some b ∷ es) (sync_entries S n seen (some b ∷ es)))
              (λ i. record { sequence_number = block.sequence_number; metadata = sym missing i })
              (stopped j n n seen
                (some (record { sequence_number = block.sequence_number; metadata = none }) ∷ es)
                (panic nil_dereference) j rep (λ o t h. h) (omega arith) refl refl (λ s p. cc)
                (λ good full. let (m, p) = full.0 in cc p))
        | inr (m, present) ↦
            subst
              (λ (b : ExtendedMetadata).
                Absorbed j n seen (some b ∷ es) (sync_entries S n seen (some b ∷ es)))
              (λ i. record { sequence_number = block.sequence_number; metadata = sym present i })
              (absorb n j seen es block.sequence_number m
                (put-Advances S L n.block_index j block.sequence_number m rep
                  (rw present at valid.0) (omega arith))
                room
                (λ n' j' rep' room'.
                  sync_entries-Absorbed n' j' (max seen block.sequence_number) es rep' valid.1
                    room'))
      ]
