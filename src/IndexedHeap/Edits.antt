-- ===== src/IndexedHeap/Edits.antt =====
-- The three edits that the methods make before they repair the order: a node is changed in
-- place, a node is added at the end, the last node is dropped.
use dwt_src.Prelude.{
  ℕ, suc, ◌+◌, ◌-◌, ◌<◌, ◌≡◌, none, some, [], ◌∷◌, ◌++◌, arith, Option-cases, inl, inr, ◌==◌,
  if◌then◌else◌, length, set, take, length-set, get_or-set, length-append, get_or-append_left,
  get_or-append_end, length-take_le, get_or-take, ok,
}
use dwt_src.IndexedHeap.{HeapNode, IndexedHeap, parent, assign, erase, drop_at}
use dwt_src.IndexedHeap.Index.{at, IsIndexed, lookup, load-ok, lookup-some, lookup-none}
use dwt_src.IndexedHeap.Order.{IsHeap, IsHeapAround}

module _ {N : Type 0} ⦃o : HeapNode N⦄ where
  -- A node is changed in place, under its id.
  module _ (h : IndexedHeap N) (i : ℕ) (n : N) (p : i < length h.m_heap)
      (same : o.id n ≡ o.id (at h i)) where
    abbrev pub changed : IndexedHeap N
    changed = record h { m_heap = set h.m_heap i n }

    pub length-changed : length changed.m_heap ≡ length h.m_heap
    length-changed = length-set h.m_heap i n

    at-changed : (c : ℕ) → at changed c ≡ (if i == c then n else at h c)
    at-changed c = get_or-set h.m_heap i c n o.blank p

    pub changed-IsIndexed : IsIndexed h → IsIndexed changed
    changed-IsIndexed v = record {
      placed = λ c q. ground (arith, same, length-changed, at-changed c, v.placed c, v.placed i p);
      inside = λ k c e. ground (arith, length-changed, v.inside k c);
      named = λ k c e. ground (arith, same, at-changed c, v.named k c);
    }

    pub changed-IsHeapAround : IsHeap h → IsHeapAround changed i
    changed-IsHeapAround v = record {
      edges = λ c q r s t. ground (arith, length-changed, at-changed c, at-changed (parent c), v c);
      bridged = λ c q r s t. ground (
        arith,
        length-changed,
        at-changed c,
        at-changed (parent i),
        v c,
        v i,
        o.before_trans (at h (parent i)) (at h i) (at h c),
      );
    }

    pub lookup-changed :
        IsIndexed h → (k : ℕ) → lookup changed k ≡ (if o.id n == k then some n else lookup h k)
    lookup-changed v k = elim (Option-cases (h.m_map k)) [
      | inl e ↦ ground (arith, same, v.placed i p, lookup-none h k e, lookup-none changed k e)
      | inr (c, e) ↦ ground (
        arith,
        same,
        v.placed i p,
        v.named k c e,
        at-changed c,
        lookup-some h k c v e,
        lookup-some changed k c (changed-IsIndexed v) e,
      )
    ]

  -- A node with a new id is added at the end.
  module _ (h : IndexedHeap N) (n : N) (new : h.m_map (o.id n) ≡ none) where
    abbrev pub added : IndexedHeap N
    added = record {
      m_heap = h.m_heap ++ n ∷ [];
      m_map = assign h.m_map (o.id n) (length h.m_heap);
    }

    pub length-added : length added.m_heap ≡ length h.m_heap + 1
    length-added = length-append h.m_heap (n ∷ [])

    at-added_old : (c : ℕ) → c < length h.m_heap → at added c ≡ at h c
    at-added_old c p = get_or-append_left h.m_heap (n ∷ []) c o.blank p

    at-added_new : at added (length h.m_heap) ≡ n
    at-added_new = get_or-append_end h.m_heap n o.blank

    at-added :
        (c : ℕ)
        → c < length added.m_heap
        → at added c ≡ (if c == length h.m_heap then n else at h c)
    at-added c p = ground (arith, length-added, at-added_old c, at-added_new)

    pub added-IsIndexed : IsIndexed h → IsIndexed added
    added-IsIndexed v = record {
      placed = λ c q. ground (arith, new, length-added, at-added c q, v.placed c);
      inside = λ k c e. ground (arith, length-added, v.inside k c);
      named = λ k c e. ground (arith, length-added, at-added c, v.inside k c, v.named k c);
    }

    pub added-IsHeapAround : IsHeap h → IsHeapAround added (length h.m_heap)
    added-IsHeapAround v = record {
      edges = λ c q r s t. ground (arith, length-added, at-added c r, at-added (parent c), v c);
      bridged = λ c q r s t. absurd (omega (arith, length-added));
    }

    pub lookup-added :
        IsIndexed h → (k : ℕ) → lookup added k ≡ (if o.id n == k then some n else lookup h k)
    lookup-added v k = elim (Option-cases (h.m_map k)) [
      | inl e ↦ ground (
        arith,
        lookup-none h k e,
        at-added_new,
        lookup-none added k,
        lookup-some added k (length h.m_heap) (added-IsIndexed v),
      )
      | inr (c, e) ↦ ground (
        arith,
        new,
        length-added,
        v.inside k c e,
        at-added c,
        lookup-some h k c v e,
        lookup-some added k c (added-IsIndexed v),
      )
    ]

  -- The last node is dropped.
  module _ (h : IndexedHeap N) (end : ℕ) (size : length h.m_heap ≡ suc end) where
    abbrev pub dropped : IndexedHeap N
    dropped = record {
      m_heap = take (length h.m_heap - 1) h.m_heap;
      m_map = erase h.m_map (o.id (at h end));
    }

    pub drop_at-ok : drop_at h end ≡ ok dropped
    unfolding drop_at
    drop_at-ok = rw (load-ok h end (omega arith))

    pub length-dropped : length dropped.m_heap ≡ end
    length-dropped = omega (arith, length-take_le (length h.m_heap - 1) h.m_heap (omega arith))

    pub at-dropped : (c : ℕ) → c < end → at dropped c ≡ at h c
    at-dropped c p = get_or-take (length h.m_heap - 1) h.m_heap c o.blank (omega arith)

    pub dropped-IsIndexed : IsIndexed h → IsIndexed dropped
    dropped-IsIndexed v = record {
      placed = λ c q. ground (arith, size, length-dropped, at-dropped c, v.placed c, v.placed end);
      inside = λ k c e. ground (arith, size, length-dropped, v.inside k c, v.named k c);
      named = λ k c e. ground (arith, size, at-dropped c, v.inside k c, v.named k c);
    }

    pub lookup-dropped :
        IsIndexed h
        → (k : ℕ) → lookup dropped k ≡ (if o.id (at h end) == k then none else lookup h k)
    lookup-dropped v k = elim (Option-cases (h.m_map k)) [
      | inl e ↦ ground (arith, lookup-none h k e, lookup-none dropped k)
      | inr (c, e) ↦ ground (
        arith,
        size,
        v.inside k c e,
        v.named k c e,
        at-dropped c,
        lookup-none dropped k,
        lookup-some h k c v e,
        lookup-some dropped k c (dropped-IsIndexed v),
      )
    ]
