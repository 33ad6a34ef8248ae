-- ===== src/IndexedHeap/Up.antt =====
-- `shift_up`: the node moves towards the top until its parent may stand above it.
use dwt_src.Prelude.{
  ℕ, zero, suc, ◌+◌, ◌<◌, ◌≡◌, true, arith, ltb, length, Returns, returns, Returns-if, Returns-map,
}
use dwt_src.IndexedHeap.{HeapNode, IndexedHeap, parent, shift_up_loop, shift_up}
use dwt_src.IndexedHeap.Index.{
  at, IsIndexed, swapped, load-ok, swap_node-ok, length-swapped, at-swapped,
}
use dwt_src.IndexedHeap.Order.{
  IsHeapAround, IsHeapAbove, Rearranged, Rearranged-self, Rearranged-trans, swapped-Rearranged,
}

module _ {N : Type 0} ⦃o : HeapNode N⦄ where
  swapped-IsHeapAround :
      (h : IndexedHeap N) (i : ℕ)
      → IsHeapAround h i
      → i < length h.m_heap
      → 0 < i
      → o.before (at h i) (at h (parent i)) ≡ true
      → IsHeapAround (swapped h i (parent i)) (parent i)
  swapped-IsHeapAround h i v inside pos below =
      let p = parent i in
      let up : p < length h.m_heap = omega arith in
      let size = length-swapped h i p inside up in
      let now = at-swapped h i p inside up in
      record {
        edges = λ c q r s t. ground (arith, now c, now (parent c), v.edges c, v.bridged c);
        bridged = λ c q r s t. ground (
          arith,
          now c,
          now (parent p),
          v.edges c,
          v.edges p,
          o.before_trans (at h (parent p)) (at h p) (at h c),
        );
      }

  shift_up_loop_lem :
      (k : ℕ) (h : IndexedHeap N) (i : ℕ)
      → i < k
      → i < length h.m_heap
      → IsIndexed h
      → IsHeapAround h i
      → Returns
          (λ (h', j). Rearranged h h' × IsHeapAbove h' j × (j < length h'.m_heap))
          (shift_up_loop k h i)
  unfolding shift_up_loop
  shift_up_loop_lem zero h i f inside x v = absurd (omega arith)
  shift_up_loop_lem (suc k) h i f inside x v =
      let up : parent i < length h.m_heap = omega arith in
      rw (load-ok h i inside, load-ok h (parent i) up, swap_node-ok h i (parent i) inside up)
        (Returns-if (ltb 0 i)
          (λ pos.
            Returns-if (o.before (at h i) (at h (parent i)))
              (λ below.
                let moved = swapped-Rearranged h i (parent i) inside up x in
                Returns-map
                  (shift_up_loop_lem k (swapped h i (parent i)) (parent i) (ground arith)
                    (omega (arith, moved.size)) moved.indexed
                    (swapped-IsHeapAround h i v inside (ground arith) below))
                  λ r s. (Rearranged-trans moved s.0, s.1, s.2))
              (λ settled. returns (
                Rearranged-self x,
                record { edges = λ c p q r. ground (arith, v.edges c); bridged = v.bridged },
                inside,
              )))
          (λ root. returns (
            Rearranged-self x,
            record { edges = λ c p q r. ground (arith, v.edges c); bridged = v.bridged },
            inside,
          )))

  pub shift_up_lem :
      (h : IndexedHeap N) (i : ℕ)
      → i < length h.m_heap
      → IsIndexed h
      → IsHeapAround h i
      → Returns
          (λ (h', j). Rearranged h h' × IsHeapAbove h' j × (j < length h'.m_heap))
          (shift_up h i)
  unfolding shift_up
  shift_up_lem h i = shift_up_loop_lem (i + 1) h i (omega arith)
