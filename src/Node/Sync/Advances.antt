-- ===== src/Node/Sync/Advances.antt =====
-- How far a round of the sync in swarm/node/node.go gets with a peer that numbers what it is asked for.
use juren_cluster.Prelude.{
  Bool, ℕ, ◌+◌, ◌%◌, ◌^◌, ◌≤◌, ◌<◌, max, ◌≡◌, ◌≢◌, refl, arith, Option, none, some, List, [], ◌∷◌,
  length, All, ◌==◌, inl, inr, true, false, Bool-cases, if◌then◌else◌,
}
use juren_cluster.Outcome.{Result, ok, err, panic, stuck, ◌>>=◌, put_node_failed}
use juren_cluster.DataModel.{ExtendedMetadata, NodeMetadata, Metadata}
use juren_cluster.LevelDb.{Storage, Ends}
use juren_cluster.BlockIndex
use juren_cluster.BlockIndex.Ends.{put-ends}
use juren_cluster.NodeIndex.Ends as NodeEnds
use juren_cluster.Protocol.{PeerSyncRequest, PeerSyncResponse, peer_sync}
use juren_cluster.Node.{Node}
use juren_cluster.Node.Sync.{
  Answers, Round, last, more, next_request, store_progress, after_entries, after_call, sync_round,
  sync_entries, with_block_index, wrapped,
}
use juren_cluster.Node.Sync.Absorbs.{Result-cases}

-- Every entry of an answer has a number that was asked for, up to a greatest one.
abbrev pub IsNumbered : ℕ → ℕ → Option ExtendedMetadata → Type 0
IsNumbered lo hi none = Unit {0}
IsNumbered lo hi (some e) = (lo ≤ e.sequence_number) × (e.sequence_number ≤ hi)

-- A peer that answers every call, with entries as they were asked for.
abbrev pub IsAdvancing : ℕ → Answers → Type 0
IsAdvancing top answers =
    (k : ℕ) (req : PeerSyncRequest)
    → (peer_sync (answers k) req ≢ stuck)
      × ((ps : PeerSyncResponse)
          → peer_sync (answers k) req ≡ ok ps
          → All (IsNumbered req.sequence_number top) ps.entries)

-- An outcome of a loop over entries, and of a round.
abbrev Lies : ℕ → ℕ → Result ℕ → Type 0
Lies lo hi (ok s) = (lo ≤ s) × (s ≤ hi)
Lies lo hi (err e) = Unit {0}
Lies lo hi (panic p) = Unit {0}
Lies lo hi stuck = ⊥

abbrev pub Goes : ℕ → ℕ → Result Round → Type 0
Goes lo hi (ok last) = Unit {0}
Goes lo hi (ok (more s)) = (lo ≤ s) × (s ≤ hi)
Goes lo hi (err e) = Unit {0}
Goes lo hi (panic p) = Unit {0}
Goes lo hi stuck = ⊥

Lies-within :
    (lo hi lo' hi' : ℕ) (r : Result ℕ) → lo' ≤ lo → hi ≤ hi' → Lies lo hi r → Lies lo' hi' r
Lies-within lo hi lo' hi' (ok s) a b (h, k) = (omega (arith, a, h), omega (arith, b, k))
Lies-within lo hi lo' hi' (err e) a b h = tt
Lies-within lo hi lo' hi' (panic p) a b h = tt
Lies-within lo hi lo' hi' stuck a b h = h

small_mod : (k : ℕ) → k < 2 ^ 64 → k % 2 ^ 64 ≡ k
small_mod k h = omega (arith, h)

module _ (S : Storage) (ends : Ends S) where
  sync_entries-Lies :
      (lo hi : ℕ) (n : Node S) (seen k : ℕ) (m : Option Metadata)
      (rest : List (Option ExtendedMetadata))
      → ((n' : Node S) → Lies lo hi (sync_entries S n' (max seen k) rest).1)
      → Lies lo hi
          (sync_entries S n seen (some (record { sequence_number = k; metadata = m }) ∷ rest)).1
  unfolding sync_entries
  sync_entries-Lies lo hi n seen k none rest h = tt
  sync_entries-Lies lo hi n seen k (some m) rest h =
      elim (Result-cases
        (BlockIndex.put S n.block_index (record { sequence_number = k; metadata = some m })).1) [
          | inl (e, put_done) ↦
              rw (put_done, sync_entries)
                (h (
                  with_block_index S n
                    (BlockIndex.put S n.block_index
                      (record { sequence_number = k; metadata = some m })).0))
          | inr (inl (x, failed)) ↦ rw (failed, sync_entries) tt
          | inr (inr (inl (p, panicked))) ↦ rw (panicked, sync_entries) tt
          | inr (inr (inr hung)) ↦ absurd (put-ends S ends n.block_index _ hung)
        ]

  entries-Lies :
      (top : ℕ) (n : Node S) (seen : ℕ) (entries : List (Option ExtendedMetadata))
      → All (IsNumbered 0 top) entries
      → Lies seen (max seen top) (sync_entries S n seen entries).1
  entries-Lies top n seen [] h = unfold sync_entries in (omega arith, omega arith)
  entries-Lies top n seen (none ∷ rest) h = unfold sync_entries in tt
  entries-Lies top n seen (some e ∷ rest) ((lo, hi), h) =
      sync_entries-Lies seen (max seen top) n seen e.sequence_number e.metadata rest (λ n'.
        Lies-within (max seen e.sequence_number) (max (max seen e.sequence_number) top) seen
          (max seen top) _ (omega arith) (omega (arith, hi))
          (entries-Lies top n' (max seen e.sequence_number) rest h))

  from_zero :
      (lo top : ℕ) (entries : List (Option ExtendedMetadata))
      → All (IsNumbered lo top) entries
      → All (IsNumbered 0 top) entries
  from_zero lo top [] h = tt
  from_zero lo top (none ∷ rest) (this, h) = (tt, from_zero lo top rest h)
  from_zero lo top (some e ∷ rest) ((a, b), h) = ((omega arith, b), from_zero lo top rest h)

  -- Entries that were asked for take the greatest number past what was seen.
  some_entries-Lies :
      (top : ℕ) (n : Node S) (seen : ℕ) (entries : List (Option ExtendedMetadata))
      → (length entries == 0) ≡ false
      → All (IsNumbered (seen + 1) top) entries
      → Lies (seen + 1) top (sync_entries S n seen entries).1
  some_entries-Lies top n seen [] ne h = absurd (ground (arith, ne))
  some_entries-Lies top n seen (none ∷ rest) ne h = unfold sync_entries in tt
  some_entries-Lies top n seen (some e ∷ rest) ne ((lo, hi), h) =
      sync_entries-Lies (seen + 1) top n seen e.sequence_number e.metadata rest (λ n'.
        Lies-within (max seen e.sequence_number) (max (max seen e.sequence_number) top) (seen + 1)
          top _ (omega (arith, lo)) (omega (arith, lo, hi))
          (entries-Lies top n' (max seen e.sequence_number) rest (from_zero (seen + 1) top rest h)))

  stored-Goes :
      (lo hi seen : ℕ) (full : Bool) (r : Result NodeMetadata)
      → r ≢ stuck
      → (lo ≤ seen) × (seen ≤ hi)
      → Goes lo hi (wrapped put_node_failed r >>= λ _. ok (if full then last else more seen))
  stored-Goes lo hi seen true (ok u) ne h = tt
  stored-Goes lo hi seen false (ok u) ne h = h
  stored-Goes lo hi seen full (err x) ne h = tt
  stored-Goes lo hi seen full (panic p) ne h = tt
  stored-Goes lo hi seen full stuck ne h = ne refl

  after_entries-Goes :
      (lo hi : ℕ) (md : NodeMetadata) (entries : List (Option ExtendedMetadata)) (n : Node S)
      (r : Result ℕ)
      → Lies lo hi r
      → Goes lo hi (after_entries S md entries (n, r)).1
  unfolding after_entries store_progress
  after_entries-Goes lo hi md entries n (ok s) h =
      stored-Goes lo hi s _ _
        (NodeEnds.put-ends S ends n.node_index (record md { sequence_number = s })) h
  after_entries-Goes lo hi md entries n (err x) h = tt
  after_entries-Goes lo hi md entries n (panic p) h = tt
  after_entries-Goes lo hi md entries n stuck h = h

  after_call-Goes :
      (top : ℕ) (n : Node S) (md : NodeMetadata) (seen : ℕ) (r : Result PeerSyncResponse)
      → r ≢ stuck
      → ((ps : PeerSyncResponse) → r ≡ ok ps → All (IsNumbered (seen + 1) top) ps.entries)
      → Goes (seen + 1) top (after_call S n md seen r).1
  unfolding after_call
  after_call-Goes top n md seen (ok ps) ne h = elim (Bool-cases (length ps.entries == 0)) [
    | inl empty ↦ rw empty tt
    | inr some_entry ↦ rw some_entry (
        after_entries-Goes (seen + 1) top md ps.entries (sync_entries S n seen ps.entries).0
          (sync_entries S n seen ps.entries).1
          (some_entries-Lies top n seen ps.entries some_entry (h ps refl)))
  ]
  after_call-Goes top n md seen (err x) ne h = tt
  after_call-Goes top n md seen (panic p) ne h = tt
  after_call-Goes top n md seen stuck ne h = ne refl

  pub sync_round-Goes :
      (top k : ℕ) (n : Node S) (md : NodeMetadata) (seen : ℕ) (answers : Answers)
      → seen + 1 < 2 ^ 64
      → IsAdvancing top answers
      → Goes (seen + 1) top (sync_round S n md seen (answers k)).1
  unfolding sync_round
  sync_round-Goes top k n md seen answers room h =
      let (answers_call, numbered) = h k (next_request md seen) in
      after_call-Goes top n md seen (peer_sync (answers k) (next_request md seen)) answers_call
        (λ ps e. rw (small_mod (seen + 1) room) at (numbered ps e))
