-- ===== src/CircularBuffer/Popping.antt =====
-- One call of `pop` (circular_buffer.h) by one thread, on a buffer that is not empty.
use shared_memory_hashtable.Common.{
  ℕ, ◌≡◌, refl, sym, ap, ◌∙◌, Option, none, some, List, [], ◌∷◌, ok, ok-injective, ok-parts,
  Returns, subst,
}
use shared_memory_hashtable.CircularBuffer.{CircularBuffer, pop}
use shared_memory_hashtable.CircularBuffer.Shape.{contents}
use shared_memory_hashtable.CircularBuffer.Queue
use shared_memory_hashtable.CircularBuffer.Queue.{Queue, Reply, taken, answer}
use shared_memory_hashtable.CircularBuffer.Fifo.{call, IsValid, queue_of, Answers, pop-Answers}

module _ {ℓ} {T : Type ℓ} where
  taken-injective : {o p : Option (T × ℕ)} → taken o ≡ taken p → o ≡ p
  taken-injective h = cc

  -- The first element is taken out, and the others stay.
  pub pop-first :
      (blank : T) {b : CircularBuffer T} (x : T) (i : ℕ) (after : List (T × ℕ))
      → IsValid b
      → contents blank b ≡ (x, i) ∷ after
      → Returns (pop b) λ r. (r.0 ≡ some (x, i)) × IsValid r.1 × (contents blank r.1 ≡ after)
  unfolding call answer
  pop-first blank {b} x i after valid first =
      let (s, run, a) = pop-Answers blank valid in
      let (r, run', e) = ok-parts (pop b) (λ r. ok (taken r.0, r.1)) run in
      let a' : Answers blank b Queue.pop (taken r.0, r.1) =
        subst (Answers blank b Queue.pop) (sym (ok-injective e)) a in
      let replied : (taken r.0, queue_of blank r.1)
          ≡ (taken (some (x, i)), record { items = after; next = b.tail_idx }) =
        rw first at a'.agrees in
      (
        r,
        run',
        (
          taken-injective (ap (λ (p : Reply T × Queue T). p.0) replied),
          a'.valid,
          ap (λ (p : Reply T × Queue T). p.1.items) replied,
        ),
      )

  front-some :
      (n next : ℕ) (items : List (T × ℕ)) {e : T × ℕ}
      → (answer n (record { items = items; next = next }) Queue.pop).0 ≡ taken (some e)
      → items ≡ e ∷ (answer n (record { items = items; next = next }) Queue.pop).1.items
  unfolding answer
  front-some n next [] h = cc
  front-some n next (x ∷ xs) h = cc

  front-none :
      (n next : ℕ) (items : List (T × ℕ))
      → (answer n (record { items = items; next = next }) Queue.pop).0 ≡ taken none
      → (items ≡ []) × ((answer n (record { items = items; next = next }) Queue.pop).1.items ≡ [])
  unfolding answer
  front-none n next [] h = (refl, refl)
  front-none n next (x ∷ xs) h = cc

  -- what a `pop` that has returned leaves
  pub record Popped (blank : T) (b : CircularBuffer T) (o : Option (T × ℕ)) (b' : CircularBuffer T)
      : Type ℓ where
    pub valid : IsValid b'
    pub width : b'.capacity ≡ b.capacity
    pub first : {e : T × ℕ} → o ≡ some e → contents blank b ≡ e ∷ contents blank b'
    pub nothing : o ≡ none → (contents blank b ≡ []) × (contents blank b' ≡ [])

  pub pop-Popped :
      (blank : T) {b : CircularBuffer T} → IsValid b → Returns (pop b) λ r. Popped blank b r.0 r.1
  unfolding call
  pop-Popped blank {b} valid =
      let (s, run, a) = pop-Answers blank valid in
      let (r, run', e) = ok-parts (pop b) (λ r. ok (taken r.0, r.1)) run in
      let a' : Answers blank b Queue.pop (taken r.0, r.1) =
        subst (Answers blank b Queue.pop) (sym (ok-injective e)) a in
      let reply = ap (λ (p : Reply T × Queue T). p.0) a'.agrees in
      let kept = ap (λ (p : Reply T × Queue T). p.1.items) a'.agrees in
      (
        r,
        run',
        record {
          valid = a'.valid;
          width = a'.width;
          first = λ {e} h.
              front-some b.capacity b.tail_idx (contents blank b) (sym reply ∙ ap taken h)
              ∙ ap (λ q. e ∷ q) (sym kept);
          nothing = λ h.
              let (before, after) =
                front-none b.capacity b.tail_idx (contents blank b) (sym reply ∙ ap taken h) in
              (before, kept ∙ after);
        },
      )

  -- the same of a call that has returned
  pub Popped-of_run :
      (blank : T) {b : CircularBuffer T} {o : Option (T × ℕ)} {b' : CircularBuffer T}
      → IsValid b
      → pop b ≡ ok (o, b')
      → Popped blank b o b'
  Popped-of_run blank {b} {o} {b'} valid run =
      let (r, run', p) = pop-Popped blank valid in
      let same : r ≡ (o, b') = ok-injective (sym run' ∙ run) in
      subst (λ (r : Option (T × ℕ) × CircularBuffer T). Popped blank b r.0 r.1) same p
