-- ===== src/IndexedHeap/Removal.antt =====
-- `delete_node`, `pop` and `del`, and the node at the top.
use dwt_src.Prelude.{
  ℕ, zero, suc, ◌-◌, ◌<◌, ◌≡◌, refl, none, some, arith, Option-cases, Bool-cases, inl, inr, ltb,
  length, Returns, returns, Returns-if, Returns-map,
}
use dwt_src.IndexedHeap.{HeapNode, IndexedHeap, parent, delete_node, pop, del}
use dwt_src.IndexedHeap.Index.{
  at, lookup, swapped, swap_node-ok, length-swapped, at-swapped, swapped-IsIndexed, lookup-swapped,
  lookup-some, lookup-none,
}
use dwt_src.IndexedHeap.Order.{MayPrecede, MayPrecede-refl, IsHeapAround}
use dwt_src.IndexedHeap.Edits.{
  dropped, drop_at-ok, length-dropped, at-dropped, dropped-IsIndexed, lookup-dropped,
}
use dwt_src.IndexedHeap.Methods.{IsValid, Holds, put, restore-Holds}

module _ {N : Type 0} ⦃o : HeapNode N⦄ (h : IndexedHeap N) (v : IsValid h) where
  module _ (i end : ℕ) (size : length h.m_heap ≡ suc end) (p : i < end) where
    abbrev exchanged : IndexedHeap N
    exchanged = swapped h i end

    exchanged-size : length exchanged.m_heap ≡ suc end
    exchanged-size = omega (arith, size, length-swapped h i end (omega arith) (omega arith))

    now : (c : ℕ) → c < end → at (dropped exchanged end exchanged-size) c ≡ at exchanged c
    now c q = at-dropped exchanged end exchanged-size c q

    dropped-IsHeapAround : IsHeapAround (dropped exchanged end exchanged-size) i
    dropped-IsHeapAround =
        let size' = length-dropped exchanged end exchanged-size in
        let was = at-swapped h i end (omega arith) (omega arith) in
        record {
          edges = λ c q r s t.
              ground
                (arith, size, size', now c, now (parent c), was c, was (parent c), v.ordered c);
          bridged = λ c q r s t. ground (
            arith,
            size,
            size',
            now c,
            now (parent i),
            was c,
            was (parent i),
            v.ordered c,
            v.ordered i,
            o.before_trans (at h (parent i)) (at h i) (at h c),
          );
        }

    delete_inner : Returns (Holds end (put (lookup h) (o.id (at h i)) none)) (delete_node h i)
    unfolding delete_node
    delete_inner =
        let e : length h.m_heap - 1 ≡ end = omega arith in
        let hi : i < length h.m_heap = omega arith in
        let he : end < length h.m_heap = omega arith in
        let indexed = swapped-IsIndexed h i end hi he v.indexed in
        rw (e, swap_node-ok h i end hi he)
          (Returns-if (ltb i end)
            (λ _. rw (drop_at-ok exchanged end exchanged-size) (
              restore-Holds end _ _ i (length-dropped exchanged end exchanged-size)
                (omega (arith, length-dropped exchanged end exchanged-size))
                (dropped-IsIndexed exchanged end exchanged-size indexed) dropped-IsHeapAround
                λ k. ground (
                  arith,
                  lookup-dropped exchanged end exchanged-size indexed k,
                  lookup-swapped h i end hi he v.indexed k,
                  at-swapped h i end hi he end,
                )))
            (λ last. absurd (ground arith)))

  delete_last :
      (end : ℕ)
      → length h.m_heap ≡ suc end
      → Returns (Holds end (put (lookup h) (o.id (at h end)) none)) (delete_node h end)
  unfolding delete_node
  delete_last end size =
      let e : length h.m_heap - 1 ≡ end = omega arith in
      rw e (
        Returns-if (ltb end end) (λ inner. absurd (ground arith))
          (λ _. rw (drop_at-ok h end size) (
            returns (record {
              valid = record {
                indexed = dropped-IsIndexed h end size v.indexed;
                ordered = λ c p q. ground (
                  arith,
                  size,
                  length-dropped h end size,
                  at-dropped h end size c,
                  at-dropped h end size (parent c),
                  v.ordered c,
                );
              };
              size = length-dropped h end size;
              content = λ k. ground (arith, lookup-dropped h end size v.indexed k);
            }))))

  -- `delete_node` takes out exactly the node at the position, and repairs the order.
  pub delete_node-Holds :
      (i : ℕ)
      → i < length h.m_heap
      → Returns
          (Holds (length h.m_heap - 1) (put (lookup h) (o.id (at h i)) none))
          (delete_node h i)
  delete_node-Holds i p =
      let size : length h.m_heap ≡ suc (length h.m_heap - 1) = omega arith in
      elim (Bool-cases (ltb i (length h.m_heap - 1))) [
        | inl e ↦ delete_inner i (length h.m_heap - 1) size (ground arith)
        | inr e ↦
            let last : i ≡ length h.m_heap - 1 = ground arith in
            rw last (delete_last (length h.m_heap - 1) size)
      ]

  pub del-Holds :
      (k : ℕ)
      → Returns
          (Holds
            (elim (lookup h k) [ none ↦ length h.m_heap | some _ ↦ length h.m_heap - 1 ])
            (put (lookup h) k none))
          (del h k)
  unfolding del
  del-Holds k = elim (Option-cases (h.m_map k)) [
    | inl e ↦
        rw (e, del, lookup-none h k e)
          (returns
            (record { valid = v; size = refl; content = λ j. ground (arith, lookup-none h k e) }))
    | inr (i, e) ↦
        let named = v.indexed.named k i e in
        rw (e, del, lookup-some h k i v.indexed e)
          (Returns-map (delete_node-Holds i (v.indexed.inside k i e)) λ h' r. record {
            valid = r.valid;
            size = r.size;
            content = λ j. ground (arith, r.content j, named);
          })
  ]

  pub pop-Holds :
      0 < length h.m_heap
      → Returns (Holds (length h.m_heap - 1) (put (lookup h) (o.id (at h 0)) none)) (pop h)
  unfolding pop
  pop-Holds p =
      Returns-if (ltb 0 (length h.m_heap)) (λ _. delete_node-Holds 0 p) (λ e. absurd (ground arith))

  top_least_below : (k i : ℕ) → i < k → i < length h.m_heap → MayPrecede (at h 0) (at h i)
  top_least_below zero i f p = absurd (omega arith)
  top_least_below (suc k) zero f p = MayPrecede-refl (at h 0)
  top_least_below (suc k) (suc i) f p =
      o.before_trans (at h 0) (at h (parent (suc i))) (at h (suc i))
        (top_least_below k (parent (suc i)) (omega arith) (omega arith))
        (v.ordered (suc i) (omega arith) p)

  -- No node of the heap is before the one at the top.
  pub top_least : (k : ℕ) (x : N) → lookup h k ≡ some x → MayPrecede (at h 0) x
  top_least k x e = elim (Option-cases (h.m_map k)) [
    | inl m ↦ cc (lookup-none h k m)
    | inr (i, m) ↦
        let inside = v.indexed.inside k i m in
        let found : at h i ≡ x = ground (arith, lookup-some h k i v.indexed m) in
        rw (← found) (top_least_below (suc i) i (omega arith) inside)
  ]

  -- The top is found under its own id.
  pub lookup-top : 0 < length h.m_heap → lookup h (o.id (at h 0)) ≡ some (at h 0)
  lookup-top p = lookup-some h (o.id (at h 0)) 0 v.indexed (v.indexed.placed 0 p)

  -- A heap in which something is found is not empty.
  pub lookup-size : (k : ℕ) (x : N) → lookup h k ≡ some x → 0 < length h.m_heap
  lookup-size k x e = elim (Option-cases (h.m_map k)) [
    | inl m ↦ cc (lookup-none h k m)
    | inr (i, m) ↦ omega (arith, v.indexed.inside k i m)
  ]
