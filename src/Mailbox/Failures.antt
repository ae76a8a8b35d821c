-- ===== src/Mailbox/Failures.antt =====
-- The exchange over the mailbox when requests make the server exit and clients go away (server.cpp,
-- `receiveMsg` and the `std::exit` in `respond`; client.cpp, `sendMsg`).
use shared_memory_hashtable.Common.{
  ℕ, ◌≤◌, ◌<◌, ◌≡◌, inl, inr, refl, sym, ap, subst, Bool, true, false, some, ◌==◌, arith, update,
  update-cases, Bool-cases,
}
use shared_memory_hashtable.Mailbox
use shared_memory_hashtable.Mailbox.{
  Entry, Client, Worker, System, send, notify, fetch, deliver, close, receive, resume, IsServing,
  Serves, settled, serve,
}
use shared_memory_hashtable.Mailbox.Matching.{InQueue, awaiting}
use shared_memory_hashtable.Mailbox.Service.{served_quietly}

-- The exchange, whether the server runs, and which clients are gone.
pub record World (Req : Type 0) : Type 0 where
  pub mail : System Req
  pub up : Bool
  pub gone : ℕ → Bool

-- `exits r`: `respond` calls `std::exit` on the request `r`.
module _ {Req : Type 0} (exits : Req → Bool) where
  -- Who takes a step is there: a client that is not gone, or a thread that does not exit before.
  unfoldable pub IsAble :
      {n m : ℕ} (s : World Req) {x : System Req} → Mailbox.Step n m s.mail x → Type 0
  IsAble s (send c r calm room) = s.gone c ≡ false
  IsAble s (notify c r calm room) = s.gone c ≡ false
  IsAble s (fetch w lt calm h) = Unit
  IsAble s (deliver w {e} lt h open_request free unowned) = exits e.req ≡ false
  IsAble s (close w {e} lt h closing) = exits e.req ≡ false
  IsAble s (receive c k set mine) = s.gone c ≡ false
  IsAble s (resume c k) = s.gone c ≡ false

  pub data Step (n m : ℕ) (s : World Req) : World Req → Type 0 where
    exchange :
        {x : System Req}
        → s.up ≡ true
        → (st : Mailbox.Step n m s.mail x) → IsAble s st
        → Step n m s (record s { mail = x })
    -- `std::exit` in `respond`
    exit :
        (w : ℕ) {e : Entry Req}
        → s.up ≡ true
        → w < m
        → s.mail.workers w ≡ Worker.holding e
        → exits e.req ≡ true
        → Step n m s (record s { up = false })
    -- a client is gone, wherever it stood
    vanish : (c : ℕ) → Step n m s (record s { gone = update s.gone c true })

  abbrev pub init : World Req
  init = record { mail = Mailbox.init; up = true; gone = λ _. false }

  pub data Reach (n m : ℕ) : World Req → Type 0 where
    start : Reach n m init
    later : {s t : World Req} → Reach n m s → Step n m s t → Reach n m t

  pub data Steps (n m : ℕ) : World Req → World Req → Type 0 where
    rest : {s : World Req} → Steps n m s s
    step : {s t u : World Req} → Step n m s t → Steps n m t u → Steps n m s u

  of_mail : {n m : ℕ} {s : World Req} → Reach n m s → Mailbox.Reach n m s.mail
  of_mail start = Mailbox.Reach.start
  of_mail (later r (exchange up st able)) = Mailbox.Reach.later (of_mail r) st
  of_mail (later r (exit w up lt h bad)) = of_mail r
  of_mail (later r (vanish c)) = of_mail r

  -- No request in the buffer or at a thread makes `respond` exit, and no client is gone that waits.
  pub record IsSound (m : ℕ) (gone : ℕ → Bool) (x : System Req) : Type 0 where
    pub queued_fine : (e : Entry Req) → InQueue e x.queue → exits e.req ≡ false
    pub held_fine :
        (w : ℕ) (e : Entry Req) → w < m → x.workers w ≡ Worker.holding e → exits e.req ≡ false
    pub waiting_here : (c : ℕ) → gone c ≡ true → awaiting (x.clients c) ≡ 0

  module _ (n m : ℕ) (gone : ℕ → Bool) where
    abbrev world : System Req → World Req
    world x = record { mail = x; up = true; gone = gone }

    served_one :
        {x y : System Req} (st : Mailbox.Step n m x y)
        → IsServing st
        → IsSound m gone x
        → IsAble (world x) st × IsSound m gone y
    unfolding IsAble
    served_one (send c r calm room) c' sound = absurd c'
    served_one (notify c r calm room) c' sound = absurd c'
    served_one (resume c k) c' sound = absurd c'
    served_one {x} (fetch w {e} lt calm h) c' sound = (
      tt,
      record {
        queued_fine = λ e' inside. sound.queued_fine e' (subst (InQueue e') (sym h) (inr inside));
        held_fine = λ w' e' lt' h'. elim (update-cases x.workers w (Worker.holding e) h') [
          | inl (_, same) ↦
              let it : e ≡ e' = cc in sound.queued_fine e' (subst (InQueue e') (sym h) (inl it))
          | inr (_, h'') ↦ sound.held_fine w' e' lt' h''
        ];
        waiting_here = sound.waiting_here;
      },
    )
    served_one {x} (deliver w {e} lt h open_request free unowned) c' sound = (
      sound.held_fine w e lt h,
      record {
        queued_fine = sound.queued_fine;
        held_fine = λ w' e' lt' h'. elim (update-cases x.workers w Worker.polling h') [
          | inl (_, same) ↦ cc
          | inr (_, h'') ↦ sound.held_fine w' e' lt' h''
        ];
        waiting_here = sound.waiting_here;
      },
    )
    served_one {x} (close w {e} lt h closing) c' sound = (
      sound.held_fine w e lt h,
      record {
        queued_fine = sound.queued_fine;
        held_fine = λ w' e' lt' h'. elim (update-cases x.workers w Worker.polling h') [
          | inl (_, same) ↦ cc
          | inr (_, h'') ↦ sound.held_fine w' e' lt' h''
        ];
        waiting_here = sound.waiting_here;
      },
    )
    served_one {x} (receive c k set mine) c' sound = (
      elim (Bool-cases (gone c)) [
        | inl away ↦ absurd (omega (arith, sound.waiting_here c away, ap awaiting k))
        | inr here ↦ here
      ],
      record {
        queued_fine = sound.queued_fine;
        held_fine = sound.held_fine;
        waiting_here = λ i away. elim (Bool-cases (c == i)) [
          | inl same ↦ rw same refl
          | inr other ↦ rw other (sound.waiting_here i away)
        ];
      },
    )

    served_all :
        {x y : System Req} → IsSound m gone x → Serves n m x y → Steps n m (world x) (world y)
    served_all sound settled = rest
    served_all sound (serve st c sts) =
        let (able, sound') = served_one st c sound in
        step (exchange refl st able) (served_all sound' sts)

  pub served :
      (n m c i : ℕ) (r : Req) (s : World Req)
      → 1 ≤ n
      → 1 ≤ m
      → Reach n m s
      → s.up ≡ true
      → IsSound m s.gone s.mail
      → s.mail.clients c ≡ Client.waiting i r
      → (t : World Req) × Steps n m s t × (t.mail.clients c ≡ Client.answered r (some r))
  served n m c i r s slots threads reach up sound k =
      let (y, sts, got) = served_quietly n m c i r s.mail slots threads (of_mail reach) k in
      let steps = served_all n m s.gone sound sts in
      (
        world n m s.gone y,
        subst (λ b. Steps n m (record s { up = b }) (world n m s.gone y)) (sym up) steps,
        got,
      )
