-- ===== src/CircularBuffer/Filling.antt =====
-- Pushing one element a number of times, whatever `push_back` returns (server.cpp, the loop of `main`
-- that pushes a message to end each thread).
use shared_memory_hashtable.Common.{
  ℕ, zero, suc, ◌+◌, ◌-◌, ◌≡◌, refl, sym, ap, ◌∙◌, Bool, List, [], ◌∷◌, ◌++◌, length, length-append,
  arith, if◌then◌else◌, ◌==◌, Bool-cases, inl, inr, Run, ok, Returns, ◌>>=◌, ok-injective, ok-parts,
  subst, min, ℤ, pos, negsuc,
}
use shared_memory_hashtable.CircularBuffer.{CircularBuffer, push_back}
use shared_memory_hashtable.CircularBuffer.Shape.{contents}
use shared_memory_hashtable.CircularBuffer.Queue.{Queue, Reply, at_index, push, answer}
use shared_memory_hashtable.CircularBuffer.Fifo.{
  call, IsValid, queue_of, Answers, push-Answers, length-contents,
}

module _ {ℓ} {T : Type ℓ} where
  unfoldable pub push_times : ℕ → T → CircularBuffer T → Run (CircularBuffer T)
  push_times zero x b = ok b
  push_times (suc n) x b = push_back b x >>= λ r. push_times n x r.1

  -- how many of the elements pass a test
  abbrev pub counted : (T → Bool) → List (T × ℕ) → ℕ
  counted test [] = 0
  counted test ((x, i) ∷ q) = (if test x then 1 else 0) + counted test q

  counted-append :
      (test : T → Bool) (q : List (T × ℕ)) (x : T) (i : ℕ)
      → counted test (q ++ (x, i) ∷ []) ≡ counted test q + (if test x then 1 else 0)
  counted-append test [] x i = omega arith
  counted-append test ((y, j) ∷ q) x i = omega (arith, counted-append test q x i)

  -- what one push leaves
  pub record Pushed (blank : T) (b : CircularBuffer T) (x : T) (r : CircularBuffer T) : Type ℓ where
    pub valid' : IsValid r
    pub width' : r.capacity ≡ b.capacity
    pub items' : contents blank r ≡ (
        if b.size == b.capacity then contents blank b else contents blank b ++ (x, b.tail_idx) ∷ [])

  -- what the queue does on a push
  replied :
      (blank : T) (b : CircularBuffer T) (x : T)
      → (answer b.capacity (queue_of blank b) (push x)).0
        ≡ at_index (if b.size == b.capacity then negsuc 0 else pos b.tail_idx)
  unfolding answer
  replied blank b x = elim (Bool-cases (b.size == b.capacity)) [
    | inl full ↦ rw (length-contents blank b, full)
    | inr room ↦ rw (length-contents blank b, room)
  ]

  asked :
      (blank : T) (b : CircularBuffer T) (x : T)
      → (answer b.capacity (queue_of blank b) (push x)).1.items ≡ (
          if b.size == b.capacity
          then contents blank b
          else contents blank b ++ (x, b.tail_idx) ∷ [])
  unfolding answer
  asked blank b x = elim (Bool-cases (b.size == b.capacity)) [
    | inl full ↦ rw (length-contents blank b, full)
    | inr room ↦ rw (length-contents blank b, room)
  ]

  at_index-injective : {r : Reply T} {i j : ℤ} → at_index i ≡ r → r ≡ at_index j → i ≡ j
  at_index-injective h e = cc

  pub push_back-Pushed :
      (blank : T) {b : CircularBuffer T} (x : T)
      → IsValid b
      → Returns (push_back b x) λ r.
        (r.0 ≡ (if b.size == b.capacity then negsuc 0 else pos b.tail_idx)) × Pushed blank b x r.1
  unfolding call answer
  push_back-Pushed blank {b} x valid =
      let (s, run, a) = push-Answers blank x valid in
      let (r, run', e) = ok-parts (push_back b x) (λ r. ok (at_index r.0, r.1)) run in
      let a' : Answers blank b (push x) (at_index r.0, r.1) =
        subst (Answers blank b (push x)) (sym (ok-injective e)) a in
      (
        r,
        run',
        (
          at_index-injective (ap (λ (p : Reply T × Queue T). p.0) a'.agrees) (replied blank b x),
          record {
            valid' = a'.valid;
            width' = a'.width;
            items' = ap (λ (p : Reply T × Queue T). p.1.items) a'.agrees ∙ asked blank b x;
          },
        ),
      )

  -- the same of a push that has returned
  pub Pushed-of_run :
      (blank : T) {b : CircularBuffer T} (x : T) {i : ℤ} {b' : CircularBuffer T}
      → IsValid b
      → push_back b x ≡ ok (i, b')
      → (i ≡ (if b.size == b.capacity then negsuc 0 else pos b.tail_idx)) × Pushed blank b x b'
  Pushed-of_run blank {b} x {i} {b'} valid run =
      let (r, run', (index, p)) = push_back-Pushed blank x valid in
      let same : r ≡ (i, b') = ok-injective (sym run' ∙ run) in
      subst
        (λ (r : ℤ × CircularBuffer T).
          (r.0 ≡ (if b.size == b.capacity then negsuc 0 else pos b.tail_idx))
          × Pushed blank b x r.1)
        same (index, p)

  -- what the pushes leave: `n` elements more, or as many as there are free slots
  pub record Filled (blank : T) (n : ℕ) (x : T) (b r : CircularBuffer T) : Type ℓ where
    pub valid : IsValid r
    pub width : r.capacity ≡ b.capacity
    pub grown : r.size ≡ b.size + min n (b.capacity - b.size)
    pub added :
        (test : T → Bool)
        → counted test (contents blank r)
          ≡ counted test (contents blank b) + (if test x then min n (b.capacity - b.size) else 0)

  pub Pushed-size :
      (blank : T) {b r : CircularBuffer T} {x : T}
      → Pushed blank b x r
      → r.size ≡ b.size + (if b.size == b.capacity then 0 else 1)
  Pushed-size blank {b} {r} {x} p = elim (Bool-cases (b.size == b.capacity)) [
    | inl full ↦
        let same : contents blank r ≡ contents blank b = p.items' ∙ rw full in
        rw full (omega (arith, ap length same, length-contents blank r, length-contents blank b))
    | inr room ↦
        let more : contents blank r ≡ contents blank b ++ (x, b.tail_idx) ∷ [] =
          p.items' ∙ rw room in
        rw room (
          omega (
            arith,
            ap length more,
            length-append (contents blank b) ((x, b.tail_idx) ∷ []),
            length-contents blank r,
            length-contents blank b,
          ))
  ]

  pub Pushed-counted :
      (blank : T) (test : T → Bool) {b r : CircularBuffer T} {x : T}
      → Pushed blank b x r
      → counted test (contents blank r)
        ≡ counted test (contents blank b)
          + (if b.size == b.capacity then 0 else (if test x then 1 else 0))
  Pushed-counted blank test {b} {r} {x} p = elim (Bool-cases (b.size == b.capacity)) [
    | inl full ↦
        let same : contents blank r ≡ contents blank b = p.items' ∙ rw full in
        rw full (omega (arith, ap (counted test) same))
    | inr room ↦
        let more : contents blank r ≡ contents blank b ++ (x, b.tail_idx) ∷ [] =
          p.items' ∙ rw room in
        rw room (
          omega
            (arith, ap (counted test) more, counted-append test (contents blank b) x b.tail_idx))
  ]

  -- On a valid buffer the pushes neither block nor fault. They add as many elements as there are
  -- pushes, or as many as there are free slots if these are fewer, and all of them are the element.
  pub push_times-Filled :
      (blank : T) (n : ℕ) (x : T) {b : CircularBuffer T}
      → IsValid b
      → Returns (push_times n x b) (Filled blank n x b)
  unfolding push_times
  push_times-Filled blank zero x {b} valid = (
    b,
    refl,
    record { valid = valid; width = refl; grown = omega arith; added = λ test. ground arith },
  )
  push_times-Filled blank (suc n) x {b} valid =
      let (r, run, (_, p)) = push_back-Pushed blank x valid in
      let (t, run', f) = push_times-Filled blank n x p.valid' in
      let fits = valid.shaped.size_in in
      (
        t,
        rw (run, ◌>>=◌, run'),
        record {
          valid = f.valid;
          width = f.width ∙ p.width';
          grown = ground (arith, f.grown, Pushed-size blank p, p.width');
          added = λ test.
              ground
                (arith, f.added test, Pushed-counted blank test p, Pushed-size blank p, p.width');
        },
      )
