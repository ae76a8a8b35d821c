-- ===== src/HashTable/Threads/Rehashing.antt =====
-- What `resize` (hashtable.h) does to a table in which a key may occur more than once.
use shared_memory_hashtable.Common.{
  ℕ, Option, none, some, ◌+◌, ◌*◌, ◌/◌, ◌%◌, ◌≤◌, ◌<◌, ◌≡◌, refl, ◌∙◌, sym, inl, inr, [], ◌∷◌, ◌++◌,
  arith, length, length-replicate, append-nil, replicate, subst, get_or, get_or-replicate, size_mod,
  Returns, if◌then◌else◌, Bool, ap, ℤ,
}
use mathlib.Core.List.{Perm, perm_append_singleton, perm_middle}
use mathlib.Core.List.Perm
use shared_memory_hashtable.HashTable.Pairs.{flat, flat-set_more, flat-replicate, spliced-flat}
use shared_memory_hashtable.HashTable.{HashTable, insert_all, rebuild, resize}
use shared_memory_hashtable.HashTable.Keys.{Key}
use mathlib.Core.Option.{or_else}
use shared_memory_hashtable.HashTable.Chains.{Chain, find, count}
use shared_memory_hashtable.HashTable.Buckets.{max_capacity, max_size, home, chain_of}
use shared_memory_hashtable.HashTable.Verdict.{
  next_capacity, IsUnit, verdict-one, verdict-two, verdict-cases,
}
use shared_memory_hashtable.HashTable.Rehash.{
  or_else-none, spliced, collect_pairs-spliced, length-spliced, spliced_home, entries-replicate,
  empty,
}
use shared_memory_hashtable.HashTable.Resizing.{load, judged, judged-eq}
use shared_memory_hashtable.HashTable.Threads.{count_up}
use shared_memory_hashtable.HashTable.Threads.Storing.{
  IsSpread, chain-pushed, find-pushed, pushed-IsSpread, rebucket, insert_unsafe-rebucket,
}

either {ℓ} :
    {V : Type ℓ} (o : Option V) (b : Bool) (v : V) (p : Option V)
    → or_else (or_else o (if b then some v else none)) p ≡ or_else o (if b then some v else p)
unfolding or_else
either o b v p = ground arith

module _ {ℓ} {K V : Type ℓ} ⦃key : Key K⦄ where
  -- What `insert_all` and `rebuild` leave: a table of that many buckets in which each key occurs as
  -- often as `f` says and is bound to what `g` says, and whose entries are `es` in some order.
  pub record Copies (n capacity : ℕ) (dynamic : Bool) (f : K → ℕ) (g : K → Option V)
      (es : Chain K V) (t' : HashTable K V) : Type ℓ where
    pub spread : IsSpread t'
    pub size : t'.size ≡ n
    pub width : t'.capacity ≡ capacity
    pub resizable : t'.resizable ≡ dynamic
    pub copies : (q : K) → count q (chain_of t' q) ≡ f q
    pub reads : (q : K) → find q (chain_of t' q) ≡ g q
    pub pairs : Perm (flat t'.capacity t'.storage) es

  insert_all-Copies :
      (es : Chain K V) (t : HashTable K V)
      → IsSpread t
      → t.size + length es < size_mod
      → Returns (insert_all es t) (
          Copies
            (t.size + length es)
            t.capacity
            t.resizable
            (λ q. count q (chain_of t q) + count q es)
            (λ q. or_else (find q (chain_of t q)) (find q es))
            (es ++ flat t.capacity t.storage))
  unfolding insert_all count flat find or_else
  insert_all-Copies [] t spread few = (
    t,
    refl,
    record {
      spread = spread;
      size = omega arith;
      width = refl;
      resizable = refl;
      copies = λ q. omega arith;
      reads = λ q. sym (or_else-none (find q (chain_of t q)));
      pairs = Perm.refl (flat t.capacity t.storage);
    },
  )
  insert_all-Copies ((k, v) ∷ es) t spread few =
      let t₁ = count_up (rebucket t k (chain_of t k ++ (k, v) ∷ [])) in
      let (t₂, run, h) =
        insert_all-Copies es t₁ (pushed-IsSpread k v spread (omega arith)) (omega arith) in
      let one =
        flat-set_more t.capacity t.storage (home t k) (chain_of t k ++ (k, v) ∷ []) (k, v)
          (omega (arith, spread.shape.wide)) spread.shape.allocated
          (perm_append_singleton (k, v) (chain_of t k)) in
      (
        t₂,
        rw (insert_unsafe-rebucket spread.shape k v, run),
        record {
          spread = h.spread;
          size = omega (arith, h.size);
          width = h.width;
          resizable = h.resizable;
          copies = λ q. omega (arith, h.copies q, chain-pushed spread.shape k q v);
          reads = λ q.
              h.reads q
              ∙ ap (λ o. or_else o (find q es)) (find-pushed spread.shape k q v)
              ∙ either (find q (chain_of t q)) (key.equal k q) v (find q es);
          pairs =
              Perm.trans h.pairs
                (Perm.trans (Perm.append_left es one) (perm_middle es (flat t.capacity t.storage)));
        },
      )

  empty-IsSpread :
      (c : ℕ) (resizable : Bool)
      → 1 ≤ c
      → c ≤ max_capacity
      → IsSpread {K = K} (empty {V = V} c c resizable)
  unfolding count
  empty-IsSpread c resizable lo hi = record {
    shape = record { wide = lo; allocated = omega (arith, length-replicate {A = Chain K V} c []) };
    bounded = hi;
    placed = λ q i ne. rw (get_or-replicate {A = Chain K V} c i []);
    counted = sym (entries-replicate (K × V) c c);
  }

  pub rebuild-Copies :
      {t : HashTable K V} (c : ℕ)
      → IsSpread t
      → t.size < size_mod
      → 1 ≤ c
      → c ≤ max_capacity
      → Returns (rebuild t c) (
          Copies t.size c t.resizable
            (λ q. count q (chain_of t q))
            (λ q. find q (chain_of t q))
            (flat t.capacity t.storage))
  unfolding rebuild count find or_else
  rebuild-Copies {t} c spread few lo hi =
      let ((es, bs), run₁, e) =
        collect_pairs-spliced t.capacity t.storage [] spread.shape.allocated in
      let n : length es ≡ t.size =
        rw e (omega (arith, length-spliced t.capacity t.storage [], spread.counted)) in
      let (t', run₂, h) =
        insert_all-Copies es (empty c c t.resizable) (empty-IsSpread c t.resizable lo hi)
          (omega arith) in
      (
        t',
        rw (run₁, run₂),
        record {
          spread = h.spread;
          size = omega (arith, h.size);
          width = h.width;
          resizable = h.resizable;
          copies = λ q.
              let there =
                (spliced_home q t.capacity (home t q) t.storage []
                  (omega (arith, spread.shape.wide)) spread.shape.allocated
                  (λ i ne. spread.placed q i ne) refl).1 in
              let none_yet : count q
                    (get_or (empty {V = V} c c t.resizable).storage (key.hash q % c) [])
                  ≡ 0 =
                rw (get_or-replicate {A = Chain K V} c (key.hash q % c) []) in
              h.copies q ∙ rw (none_yet, e) (omega (arith, there));
          reads = λ q.
              let there =
                (spliced_home q t.capacity (home t q) t.storage []
                  (omega (arith, spread.shape.wide)) spread.shape.allocated
                  (λ i ne. spread.placed q i ne) refl).0 in
              let none_yet : find q
                    (get_or (empty {V = V} c c t.resizable).storage (key.hash q % c) [])
                  ≡ none =
                rw (get_or-replicate {A = Chain K V} c (key.hash q % c) []) in
              h.reads q ∙ rw (none_yet, e) there;
          pairs =
              let all = spliced-flat t.capacity t.storage [] in
              let same : es ++ flat c (replicate {A = Chain K V} c [])
                  ≡ spliced t.capacity t.storage [] =
                ap (λ l. es ++ l) (flat-replicate c c) ∙ append-nil es ∙ e in
              Perm.trans (subst (Perm (flat t'.capacity t'.storage)) same h.pairs) (
                subst (Perm (spliced t.capacity t.storage []))
                  (append-nil (flat t.capacity t.storage)) all);
        },
      )

  -- `resize` by a delta of 1 or -1 of a table with at most 2 ^ 48 entries and 2 ^ 50 buckets does not
  -- fault. The new table has the entries of the old one, in the order of their buckets.
  pub resize-Copies :
      (delta : ℤ) (unit : IsUnit delta) {t : HashTable K V}
      → IsSpread t
      → t.size ≤ max_size
      → Returns (resize t delta) (λ t'.
        Copies t.size
          (next_capacity (judged delta unit t) t.capacity)
          t.resizable
          (λ q. count q (chain_of t q))
          (λ q. find q (chain_of t q))
          (flat t.capacity t.storage)
          t')
  unfolding resize
  resize-Copies delta unit {t} spread small =
      elim (verdict-cases t.size t.capacity (load delta unit t)) [
        | inl e ↦ (
          t,
          rw (judged-eq delta unit t, e),
          record {
            spread = spread;
            size = refl;
            width = rw e;
            resizable = refl;
            copies = λ q. refl;
            reads = λ q. refl;
            pairs = Perm.refl (flat t.capacity t.storage);
          },
        )
        | inr (inl e) ↦
            let (ne, room) = verdict-one t.size t.capacity (load delta unit t) e in
            let close = unit t.size (omega arith) small in
            let c : t.capacity * 2 % size_mod ≡ t.capacity * 2 = omega (arith, spread.bounded) in
            rw (judged-eq delta unit t, e, c)
              ((rebuild-Copies (t.capacity * 2) spread (omega arith)
                (omega (arith, spread.shape.wide)) (omega arith)))
        | inr (inr e) ↦
            let (some_left, wide, low) = verdict-two t.size t.capacity (load delta unit t) e in
            let c : (t.capacity + 1) % size_mod ≡ t.capacity + 1 = omega (arith, spread.bounded) in
            rw (judged-eq delta unit t, e, c)
              ((rebuild-Copies ((t.capacity + 1) / 2) spread (omega arith) (omega arith)
                (omega (arith, spread.bounded))))
      ]
