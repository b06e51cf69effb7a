-- ===== src/Rpc/Client/Consistent.antt =====
-- The invariant of a connection of net/crpc/client.go, and what becomes of its calls.
use juren_cluster.Prelude.{
  ℕ, ◌≤◌, ◌<◌, ◌≡◌, refl, sym, arith, true, Option, none, some, List, [], ◌∷◌, ◌++◌, length, ◌==◌,
  if◌then◌else◌, inl, inr, ◌⊎◌, Bool-cases,
}
use juren_cluster.Outcome.{Error}
use juren_cluster.Rpc.Client.{Calls, call_at, without_seq, Client, new_client, fail_all}
use juren_cluster.Rpc.Client.Runs.{has_call, finished, IsPending}

pub record IsConsistent (c : Client) (started : List ℕ) : Type 0 where
  pub seq_at_most : c.seq ≤ length started
  pub pending_below : (seq call : ℕ) → call_at seq c.pending ≡ some call → seq < c.seq
  pub sending_below : (seq call : ℕ) → call_at seq c.sending ≡ some call → seq < c.seq
  pub agree :
      (seq a b : ℕ) → call_at seq c.sending ≡ some a → call_at seq c.pending ≡ some b → a ≡ b
  pub no_call_lost :
      (call : ℕ)
      → has_call call started ≡ true
      → IsPending c call ⊎ (finished call c.completed ≡ true)
  pub stopped : c.shutdown ≡ true → c.pending ≡ []

pub call_at-without_seq :
    (seq j : ℕ) (calls : Calls)
    → call_at j (without_seq seq calls) ≡ (if seq == j then none else call_at j calls)
unfolding call_at without_seq
call_at-without_seq seq j [] = ground arith
call_at-without_seq seq j ((i, c) ∷ calls) = ground (arith, call_at-without_seq seq j calls)

finished-append :
    (call : ℕ) (a b : List (ℕ × Option Error))
    → finished call (a ++ b) ≡ (if finished call a then true else finished call b)
unfolding finished
finished-append call [] b = refl
finished-append call ((d, e) ∷ a) b = ground (arith, finished-append call a b)

finished-fail_all :
    (e : Error) (calls : Calls) (seq call : ℕ)
    → call_at seq calls ≡ some call
    → finished call (fail_all e calls) ≡ true
unfolding finished fail_all call_at
finished-fail_all e [] seq call h = absurd (cc h)
finished-fail_all e ((j, c) ∷ calls) seq call h =
    ground (arith, h, finished-fail_all e calls seq call)

pub begin-IsConsistent : IsConsistent new_client []
unfolding call_at has_call
begin-IsConsistent = record {
  seq_at_most = omega arith;
  pending_below = λ seq call h. absurd (cc h);
  sending_below = λ seq call h. absurd (cc h);
  agree = λ seq a b h. absurd (cc h);
  no_call_lost = λ call h. absurd (cc h);
  stopped = λ h. refl;
}

module _ (c : Client) (started : List ℕ) (inv : IsConsistent c started) where
  pub refused_call :
      (call : ℕ) (outcome : Option Error) (d : ℕ)
      → has_call d (call ∷ started) ≡ true
      → IsPending c d ⊎ (finished d ((call, outcome) ∷ c.completed) ≡ true)
  unfolding has_call finished
  refused_call call outcome d h = elim (Bool-cases (call == d)) [
    | inl same ↦ inr (ground (arith, same))
    | inr other ↦ elim (inv.no_call_lost d (rw other at h)) [
      | inl pending ↦ inl pending
      | inr done ↦ inr (ground (arith, done))
    ]
  ]

  pub new_call :
      (call d : ℕ)
      → has_call d (call ∷ started) ≡ true
      → ((j : ℕ) × (call_at j ((c.seq, call) ∷ without_seq c.seq c.pending) ≡ some d))
        ⊎ (finished d c.completed ≡ true)
  unfolding has_call call_at
  new_call call d h = elim (Bool-cases (call == d)) [
    | inl same ↦ inl (c.seq, ground (arith, same))
    | inr other ↦ elim (inv.no_call_lost d (rw other at h)) [
      | inl (j, there) ↦ inl (
        j,
        ground (arith, there, inv.pending_below j d there, call_at-without_seq c.seq j c.pending),
      )
      | inr done ↦ inr done
    ]
  ]

  pub new_agree :
      (call seq a b : ℕ)
      → call_at seq ((c.seq, call) ∷ c.sending) ≡ some a
      → call_at seq ((c.seq, call) ∷ without_seq c.seq c.pending) ≡ some b
      → a ≡ b
  unfolding call_at
  new_agree call seq a b h k = elim (Bool-cases (c.seq == seq)) [
    | inl same ↦ ground (arith, same, h, k)
    | inr other ↦
        inv.agree seq a b (rw other at h)
          (ground (arith, other, call_at-without_seq c.seq seq c.pending, k))
  ]

  pub all_failed :
      (e : Error) (d : ℕ)
      → has_call d started ≡ true
      → finished d (fail_all e c.pending ++ c.completed) ≡ true
  all_failed e d h =
      rw (finished-append d (fail_all e c.pending) c.completed) (elim (inv.no_call_lost d h) [
        | inl (j, there) ↦ rw (finished-fail_all e c.pending j d there)
        | inr done ↦ ground (arith, done)
      ])

  -- A call that is completed under its number is not lost.
  pub taken :
      (seq call : ℕ) (outcome : Option Error) (d : ℕ)
      → ((b : ℕ) → call_at seq c.pending ≡ some b → call ≡ b)
      → has_call d started ≡ true
      → ((j : ℕ) × (call_at j (without_seq seq c.pending) ≡ some d))
        ⊎ (finished d ((call, outcome) ∷ c.completed) ≡ true)
  unfolding finished
  taken seq call outcome d same h = elim (inv.no_call_lost d h) [
    | inl (j, there) ↦ elim (Bool-cases (seq == j)) [
      | inl at_seq ↦
          let e : seq ≡ j = ground (arith, at_seq) in
          inr (ground (arith, same d (rw (sym e) at there)))
      | inr other ↦ inl (j, rw (call_at-without_seq seq j c.pending, other) there)
    ]
    | inr done ↦ inr (ground (arith, done))
  ]
