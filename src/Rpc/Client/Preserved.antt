-- ===== src/Rpc/Client/Preserved.antt =====
-- Every step of a connection (net/crpc/client.go) preserves its invariant.
use juren_cluster.Prelude.{
  ℕ, ◌+◌, ◌^◌, ◌%◌, ◌≡◌, refl, arith, Bool, true, ◌||◌, Option, none, some, List, ◌∷◌, length, inl,
  inr, Bool-cases,
}
use juren_cluster.Outcome.{Result, Error, shut_down}
use juren_cluster.LevelDb.KeyOrder.{IsU64}
use juren_cluster.Rpc.Client.{
  call_at, without_seq, Client, register, sent, send_failed, answer, respond, terminate, close,
}
use juren_cluster.Rpc.Client.Runs.{
  Run, begin, registered, was_sent, was_not_sent, responded, terminated, was_closed, has_call,
}
use juren_cluster.Rpc.Client.Consistent.{
  IsConsistent, call_at-without_seq, begin-IsConsistent, refused_call, new_call, new_agree,
  all_failed, taken,
}

module _ (c : Client) (started : List ℕ) (inv : IsConsistent c started) where
  register-IsConsistent :
      (call : ℕ) → IsU64 (length (call ∷ started)) → IsConsistent (register c call) (call ∷ started)
  unfolding register call_at has_call
  register-IsConsistent call room = elim (Bool-cases (c.closing || c.shutdown)) [
    | inl ended ↦
        rw (ended, register)
          (record {
            seq_at_most = omega (arith, inv.seq_at_most);
            pending_below = inv.pending_below;
            sending_below = inv.sending_below;
            agree = inv.agree;
            no_call_lost = refused_call c started inv call (some shut_down);
            stopped = inv.stopped;
          })
    | inr usable ↦
        let next : (c.seq + 1) % 2 ^ 64 ≡ c.seq + 1 = omega (arith, inv.seq_at_most, room) in
        rw (usable, register)
          (record {
            seq_at_most = omega (arith, inv.seq_at_most);
            pending_below = λ seq d h.
                ground (
                  arith,
                  h,
                  next,
                  call_at-without_seq c.seq seq c.pending,
                  inv.pending_below seq d,
                );
            sending_below = λ seq d h. ground (arith, h, next, inv.sending_below seq d);
            agree = λ seq a b h k. new_agree c started inv call seq a b h k;
            no_call_lost = new_call c started inv call;
            stopped = λ h. absurd (ground (arith, h, usable));
          })
  ]

  sent-IsConsistent : (seq : ℕ) → IsConsistent (sent c seq) started
  unfolding sent
  sent-IsConsistent seq = record {
    seq_at_most = inv.seq_at_most;
    pending_below = inv.pending_below;
    sending_below =
        λ j d h. ground (arith, call_at-without_seq seq j c.sending, h, inv.sending_below j d);
    agree = λ j a b h k. ground (arith, call_at-without_seq seq j c.sending, h, inv.agree j a b, k);
    no_call_lost = inv.no_call_lost;
    stopped = inv.stopped;
  }

  send_failed-IsConsistent :
      (seq call : ℕ) (e : Error)
      → call_at seq c.sending ≡ some call
      → IsConsistent (send_failed c seq call e) started
  unfolding send_failed
  send_failed-IsConsistent seq call e sends = record {
    seq_at_most = inv.seq_at_most;
    pending_below =
        λ j d h. ground (arith, call_at-without_seq seq j c.pending, h, inv.pending_below j d);
    sending_below =
        λ j d h. ground (arith, call_at-without_seq seq j c.sending, h, inv.sending_below j d);
    agree = λ j a b h k. ground (
      arith,
      call_at-without_seq seq j c.sending,
      call_at-without_seq seq j c.pending,
      h,
      inv.agree j a b,
      k,
    );
    no_call_lost =
        λ d h. taken c started inv seq call (some e) d (λ b k. inv.agree seq call b sends k) h;
    stopped = λ h. rw (inv.stopped h) (unfold without_seq in refl);
  }

  answer-IsConsistent :
      (seq : ℕ) (outcome : Option Error) (o : Option ℕ)
      → call_at seq c.pending ≡ o
      → IsConsistent (answer c seq outcome o) started
  unfolding answer
  answer-IsConsistent seq outcome none e = inv
  answer-IsConsistent seq outcome (some call) e = record {
    seq_at_most = inv.seq_at_most;
    pending_below =
        λ j d h. ground (arith, call_at-without_seq seq j c.pending, h, inv.pending_below j d);
    sending_below = inv.sending_below;
    agree = λ j a b h k. ground (arith, call_at-without_seq seq j c.pending, h, inv.agree j a b, k);
    no_call_lost = λ d h. taken c started inv seq call outcome d (λ b k. cc (e, k)) h;
    stopped = λ h. rw (inv.stopped h) (unfold without_seq in refl);
  }

  respond-IsConsistent :
      (seq : ℕ) (outcome : Option Error) → IsConsistent (respond c seq outcome) started
  unfolding respond
  respond-IsConsistent seq outcome = answer-IsConsistent seq outcome _ refl

  terminate-IsConsistent : (closed : Bool) (e : Error) → IsConsistent (terminate c closed e) started
  unfolding terminate call_at
  terminate-IsConsistent closed e = record {
    seq_at_most = inv.seq_at_most;
    pending_below = λ j d h. absurd (cc h);
    sending_below = inv.sending_below;
    agree = λ j a b h k. absurd (cc k);
    no_call_lost = λ d h. inr (all_failed c started inv _ d h);
    stopped = λ h. refl;
  }

  closed-IsConsistent : (b : Bool) → IsConsistent (record c { closing = b }) started
  closed-IsConsistent b = record {
    seq_at_most = inv.seq_at_most;
    pending_below = inv.pending_below;
    sending_below = inv.sending_below;
    agree = inv.agree;
    no_call_lost = inv.no_call_lost;
    stopped = inv.stopped;
  }

  close-IsConsistent : (r : Result (Unit {0})) → IsConsistent (close c r).0 started
  unfolding close
  close-IsConsistent r = elim (Bool-cases c.closing) [
    | inl already ↦ rw (already, close) (closed-IsConsistent true)
    | inr usable ↦ rw (usable, close) (closed-IsConsistent true)
  ]

-- In every state of a connection on which fewer than 2^64 calls are started.
pub Run-IsConsistent :
    (c : Client) (started : List ℕ)
    → Run c started
    → IsU64 (length started)
    → IsConsistent c started
Run-IsConsistent _ _ begin room = begin-IsConsistent
Run-IsConsistent _ _ (registered c started call run) room =
    register-IsConsistent c started (Run-IsConsistent c started run (omega (arith, room))) call room
Run-IsConsistent _ _ (was_sent c started seq call run sends) room =
    sent-IsConsistent c started (Run-IsConsistent c started run room) seq
Run-IsConsistent _ _ (was_not_sent c started seq call e run sends) room =
    send_failed-IsConsistent c started (Run-IsConsistent c started run room) seq call e sends
Run-IsConsistent _ _ (responded c started seq outcome run reading) room =
    respond-IsConsistent c started (Run-IsConsistent c started run room) seq outcome
Run-IsConsistent _ _ (terminated c started closed e run reading) room =
    terminate-IsConsistent c started (Run-IsConsistent c started run room) closed e
Run-IsConsistent _ _ (was_closed c started r run) room =
    close-IsConsistent c started (Run-IsConsistent c started run room) r
