-- ===== src/Mailbox/Examples.antt =====
-- The theorem on the constructor of the mailbox, and those on the exchange at two slots, one server
-- thread and clients 0 and 1.
use shared_memory_hashtable.Common.{
  ℕ, ◌+◌, ◌≡◌, refl, subst, inl, inr, Bool, true, false, update-cases, ◌==◌, Option, some, arith,
  total, Returns,
}
use shared_memory_hashtable.Mailbox.{
  Client, Entry, Worker, System, send, notify, fetch, deliver, close, receive, Reach, start, later,
}
use shared_memory_hashtable.Mailbox.Construction.{
  Codes, BufferCodes, Succeeds, BufferSucceeds, Made, new_mailbox, new_mailbox-Made,
}
use shared_memory_hashtable.Mailbox.Matching.{awaiting, queued, held, filled}
use shared_memory_hashtable.Mailbox.Failures
use shared_memory_hashtable.Mailbox.Failures.{World, IsAble, exchange, vanish, IsSound, served}
use shared_memory_hashtable.Mailbox.Service.{own_response, one_in_flight}

-- Client 1 has sent a `CLOSE_SHM`, and client 0 the request 7; the thread has popped the first.
abbrev sent : (s : System ℕ) × Reach 2 1 s × (s.clients 0 ≡ Client.waiting 1 7)
sent = (
  _,
  later (later (later start (notify 1 5 refl (omega arith))) (send 0 7 refl (omega arith)))
      (fetch 0 (omega arith) refl refl),
  refl,
)

-- The thread has gone on to the request of client 0, which has its response.
abbrev done : (s : System ℕ) × Reach 2 1 s × (s.clients 0 ≡ Client.answered 7 (some 7))
done = (
  _,
  later
      (later
        (later (later sent.1 (close 0 (omega arith) refl refl)) (fetch 0 (omega arith) refl refl))
        (deliver 0 (omega arith) refl refl refl refl))
      (receive 0 refl refl refl),
  refl,
)

-- The same with client 1 gone behind its `CLOSE_SHM`; the server exits on the request 3.
abbrev exits : ℕ → Bool
exits r = r == 3

abbrev notified : Entry ℕ
notified = record { pid = 2; req = 5; idx = 0; closing = true }

abbrev one_gone : (s : World ℕ) × Failures.Reach exits 2 1 s
unfolding IsAble
one_gone = (
  _,
  Failures.Reach.later
      (Failures.Reach.later
        (Failures.Reach.later
          (Failures.Reach.later Failures.Reach.start
            (exchange refl (notify 1 5 refl (omega arith)) refl))
          (exchange refl (send 0 7 refl (omega arith)) refl))
        (vanish 1))
      (exchange refl (fetch 0 (omega arith) refl refl) tt),
)

one_gone-IsSound : IsSound exits 1 one_gone.0.gone one_gone.0.mail
unfolding one_gone
one_gone-IsSound = record {
  queued_fine = λ e h. elim h [
    | inl it ↦ subst (λ (x : Entry ℕ). exits x.req ≡ false) it refl
    | inr none_more ↦ absurd none_more
  ];
  held_fine = λ w e lt h. elim (update-cases (λ _. Worker.polling) 0 (Worker.holding notified) h) [
    | inl (_, same) ↦
        let it : notified ≡ e = cc in subst (λ (x : Entry ℕ). exits x.req ≡ false) it refl
    | inr (_, other) ↦ cc
  ];
  waiting_here = λ c away. elim (update-cases (λ _. false) 1 true away) [
    | inl (here, _) ↦ subst (λ j. awaiting (one_gone.0.mail.clients j) ≡ 0) here refl
    | inr (_, other) ↦ cc
  ];
}

still_up : (one_gone.0.up ≡ true) × (one_gone.0.mail.clients 0 ≡ Client.waiting 1 7)
unfolding one_gone
still_up = (refl, refl)

served_example :
    (t : World ℕ) × Failures.Steps exits 2 1 one_gone.0 t
    × (t.mail.clients 0 ≡ Client.answered 7 (some 7))
served_example =
    served exits 2 1 0 1 7 one_gone.0 (omega arith) (omega arith) one_gone.1 still_up.0
      one_gone-IsSound still_up.1

own_response_example : ◌≡◌ {A = Option ℕ} (some 7) (some 7)
own_response_example = own_response 2 1 0 7 (some 7) done.0 (omega arith) done.1 done.2

one_in_flight_example :
    queued 1 sent.0.queue + total (held 1) 1 sent.0.workers + total (filled 1) 2 sent.0.responses
    ≡ 1
one_in_flight_example = one_in_flight 2 1 0 sent.0 (omega arith) sent.1

-- the calls that make a mailbox, all of which succeed
abbrev good_codes : ℕ → Codes
good_codes i = record { member_init = 0; temporary_init = 0; temporary_destroy = 0; cond_init = 0 }

good_codes-Succeeds : Succeeds good_codes
good_codes-Succeeds i = (refl, refl, refl, refl)

abbrev good_buffer : BufferCodes
good_buffer = record {
  mutex_init = 0;
  open_mutex_init = 0;
  open_init = 0;
  full_mutex_init = 0;
  full_init = 0;
}

good_buffer-Succeeds : BufferSucceeds good_buffer
good_buffer-Succeeds = record {
  mutex_made = refl;
  open_mutex_made = refl;
  open_made = refl;
  full_mutex_made = refl;
  full_made = refl;
}

new_mailbox-Made_example : Returns (new_mailbox 8 good_buffer good_codes) (Made 8)
new_mailbox-Made_example =
    new_mailbox-Made 8 good_buffer good_codes (omega arith) (omega arith) good_buffer-Succeeds
      good_codes-Succeeds
