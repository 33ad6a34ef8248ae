-- ===== src/IndexedHeap/Index.antt =====
-- The map from ids to positions: what it means for it to be right, and that a swap keeps it right.
use dwt_src.Prelude.{
  ℕ, ◌<◌, ◌≡◌, Option, none, some, arith, Option-cases, ◌==◌, if◌then◌else◌, length, get_elem?,
  get_or, set, length-set, get_or-set, get_elem?-get_or, inl, inr, ok,
}
use dwt_src.IndexedHeap.{HeapNode, IndexedHeap, assign, load, swap_node}

module _ {N : Type 0} ⦃o : HeapNode N⦄ where
  abbrev pub at : IndexedHeap N → ℕ → N
  at h i = get_or h.m_heap i o.blank

  -- The map leads from the id of each node to its position, and from nothing else.
  pub record IsIndexed (h : IndexedHeap N) : Type 0 where
    pub placed : (i : ℕ) → i < length h.m_heap → h.m_map (o.id (at h i)) ≡ some i
    pub inside : (k i : ℕ) → h.m_map k ≡ some i → i < length h.m_heap
    pub named : (k i : ℕ) → h.m_map k ≡ some i → o.id (at h i) ≡ k

  -- The heap as a client sees it: a dictionary from ids to nodes.
  pub lookup : IndexedHeap N → ℕ → Option N
  lookup h k = elim (h.m_map k) [ none ↦ none | some i ↦ get_elem? h.m_heap i ]

  abbrev pub swapped : IndexedHeap N → ℕ → ℕ → IndexedHeap N
  swapped h a b = record {
    m_heap = set (set h.m_heap a (at h b)) b (at h a);
    m_map = assign (assign h.m_map (o.id (at h b)) a) (o.id (at h a)) b;
  }

  pub load-ok : (h : IndexedHeap N) (i : ℕ) → i < length h.m_heap → load h i ≡ ok (at h i)
  unfolding load
  load-ok h i p = rw (get_elem?-get_or h.m_heap i o.blank p)

  module _ (h : IndexedHeap N) (a b : ℕ) (ha : a < length h.m_heap) (hb : b < length h.m_heap) where
    pub swap_node-ok : swap_node h a b ≡ ok (swapped h a b)
    unfolding swap_node
    swap_node-ok = rw (load-ok h a ha, load-ok h b hb)

    pub length-swapped : length (swapped h a b).m_heap ≡ length h.m_heap
    length-swapped =
        rw (length-set (set h.m_heap a (at h b)) b (at h a)) (length-set h.m_heap a (at h b))

    pub at-swapped :
        (c : ℕ)
        → at (swapped h a b) c ≡ (if b == c then at h a else if a == c then at h b else at h c)
    at-swapped c = rw (
      get_or-set (set h.m_heap a (at h b)) b c (at h a) o.blank (rw length-set hb),
      get_or-set h.m_heap a c (at h b) o.blank ha,
    )

    pub swapped-IsIndexed : IsIndexed h → IsIndexed (swapped h a b)
    swapped-IsIndexed v = record {
      placed = λ i p. ground (
        arith,
        length-swapped,
        at-swapped i,
        v.placed i,
        v.placed a ha,
        v.placed b hb,
        v.named (o.id (at h i)),
      );
      inside = λ k i e. ground (arith, length-swapped, v.inside k i);
      named = λ k i e. ground (
        arith,
        at-swapped i,
        v.named k i,
        v.named k a,
        v.named k b,
        v.placed a ha,
        v.placed b hb,
      );
    }

    pub lookup-swapped : IsIndexed h → (k : ℕ) → lookup (swapped h a b) k ≡ lookup h k
    unfolding lookup
    lookup-swapped v k = elim (Option-cases (h.m_map k)) [
      | inl e ↦ rw (e, lookup) (ground (arith, v.placed a ha, v.placed b hb))
      | inr (i, e) ↦ ground (
        arith,
        v.inside k i e,
        v.named k i e,
        v.placed i (v.inside k i e),
        v.placed a ha,
        v.placed b hb,
        length-swapped,
        at-swapped i,
        at-swapped a,
        at-swapped b,
        get_elem?-get_or h.m_heap i o.blank,
        get_elem?-get_or (swapped h a b).m_heap i o.blank,
        get_elem?-get_or (swapped h a b).m_heap a o.blank,
        get_elem?-get_or (swapped h a b).m_heap b o.blank,
      )
    ]

  pub lookup-some :
      (h : IndexedHeap N) (k i : ℕ) → IsIndexed h → h.m_map k ≡ some i → lookup h k ≡ some (at h i)
  unfolding lookup
  lookup-some h k i v e = rw (e, lookup) (get_elem?-get_or h.m_heap i o.blank (v.inside k i e))

  pub lookup-none : (h : IndexedHeap N) (k : ℕ) → h.m_map k ≡ none → lookup h k ≡ none
  unfolding lookup
  lookup-none h k e = rw (e, lookup)

  -- What is found under an id has that id.
  pub id-lookup :
      (h : IndexedHeap N) (k : ℕ) (x : N) → IsIndexed h → lookup h k ≡ some x → o.id x ≡ k
  id-lookup h k x v e = elim (Option-cases (h.m_map k)) [
    | inl m ↦ absurd (cc (lookup-none h k m))
    | inr (i, m) ↦ ground (arith, lookup-some h k i v m, v.named k i m)
  ]
