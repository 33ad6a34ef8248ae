-- ===== src/IndexedHeap/Down.antt =====
-- `shift_down`: the node moves down past the smaller child until no child is before it.
use dwt_src.Prelude.{
  ℕ, zero, suc, ◌+◌, ◌-◌, ◌*◌, ◌<◌, ◌≡◌, ◌≢◌, ◌⊎◌, arith, ltb, ◌==◌, ◌&&◌, if◌then◌else◌, length,
  ok, Returns, returns, Returns-if, Returns-map, Returns-bind,
}
use dwt_src.IndexedHeap.{
  HeapNode, IndexedHeap, parent, smaller, smallest, shift_down_loop, shift_down, restore,
}
use dwt_src.IndexedHeap.Index.{
  at, IsIndexed, swapped, load-ok, swap_node-ok, length-swapped, at-swapped,
}
use dwt_src.IndexedHeap.Order.{
  MayPrecede, MayPrecede-refl, IsHeap, IsHeapAround, IsHeapAbove, Rearranged, Rearranged-self,
  Rearranged-trans, swapped-Rearranged,
}
use dwt_src.IndexedHeap.Up.{shift_up_lem}

module _ {N : Type 0} ⦃o : HeapNode N⦄ where
  abbrev pick : IndexedHeap N → ℕ → ℕ → ℕ
  pick h c cur = if ltb c (length h.m_heap) && o.before (at h c) (at h cur) then c else cur

  smaller-ok :
      (h : IndexedHeap N) (c cur : ℕ) → cur < length h.m_heap → smaller h c cur ≡ ok (pick h c cur)
  unfolding smaller
  smaller-ok h c cur inside = ground (arith, load-ok h c, load-ok h cur inside)

  -- `m` is `i` or one of its children, and of these none is before it.
  record IsSmallest (h : IndexedHeap N) (i m : ℕ) : Type 0 where
    inside : m < length h.m_heap
    place : (m ≡ i) ⊎ ((m ≡ i * 2 + 1) ⊎ (m ≡ i * 2 + 2)) × MayPrecede (at h m) (at h i)
    least : (c : ℕ) → 0 < c → c < length h.m_heap → parent c ≡ i → MayPrecede (at h m) (at h c)

  module _ (h : IndexedHeap N) (i : ℕ) (p : i < length h.m_heap) where
    abbrev left : ℕ
    left = pick h (i * 2 + 1) i

    left-inside : left < length h.m_heap
    left-inside = ground arith

    child_cases : (c : ℕ) → 0 < c → parent c ≡ i → (c ≡ i * 2 + 1) ⊎ (c ≡ i * 2 + 2)
    child_cases c q r = omega arith

    pick-IsSmallest : IsSmallest h i (pick h (i * 2 + 2) left)
    pick-IsSmallest =
        let l = at h (i * 2 + 1) in
        let r = at h (i * 2 + 2) in
        let x = at h i in
        record {
          inside = ground arith;
          place = ground (
            arith,
            o.before_asym l x,
            o.before_asym r x,
            o.before_asym r l,
            o.before_trans r l x,
          );
          least = λ c q b s. ground (
            arith,
            child_cases c q s,
            MayPrecede-refl r,
            MayPrecede-refl l,
            o.before_asym l x,
            o.before_asym r x,
            o.before_asym r l,
            o.before_trans r l x,
            o.before_trans r x l,
          );
        }

    smallest-ok : Returns (IsSmallest h i) (smallest h i)
    unfolding smallest
    smallest-ok =
        rw (smaller-ok h (i * 2 + 1) i p, smaller-ok h (i * 2 + 2) left left-inside)
          (returns pick-IsSmallest)

  swapped-IsHeapAbove :
      (h : IndexedHeap N) (i m : ℕ)
      → i < length h.m_heap
      → IsHeapAbove h i
      → IsSmallest h i m
      → m ≢ i
      → IsHeapAbove (swapped h m i) m
  swapped-IsHeapAbove h i m p v s moved =
      let size = length-swapped h m i s.inside p in
      let now = at-swapped h m i s.inside p in
      record {
        edges = λ c q r t.
            ground (arith, s.place, now c, now (parent c), v.edges c, v.bridged m, s.least c);
        bridged = λ c q r t u. ground (arith, s.place, now c, now (parent m), v.edges c);
      }

  shift_down_loop_lem :
      (k : ℕ) (h : IndexedHeap N) (i : ℕ)
      → length h.m_heap - i < k
      → i < length h.m_heap
      → IsIndexed h
      → IsHeapAbove h i
      → Returns (λ (h', j). Rearranged h h' × IsHeap h') (shift_down_loop k h i)
  unfolding shift_down_loop
  shift_down_loop_lem zero h i f p x v = absurd (omega arith)
  shift_down_loop_lem (suc k) h i f p x v =
      Returns-if (ltb i (length h.m_heap))
        (λ _. Returns-bind (smallest-ok h i p) λ m s.
          Returns-if (m == i)
            (λ settled. returns (Rearranged-self x, λ c q r. ground (arith, v.edges c, s.least c)))
            (λ sinks.
              let moved = swapped-Rearranged h m i s.inside p x in
              rw (swap_node-ok h m i s.inside p) (
                Returns-map
                  (shift_down_loop_lem k (swapped h m i) m (ground (arith, s.place, moved.size))
                    (omega (arith, moved.size, s.inside)) moved.indexed
                    (swapped-IsHeapAbove h i m p v s (ground arith)))
                  λ r t. (Rearranged-trans moved t.0, t.1))))
        (λ past. absurd (ground arith))

  -- The repair after a change at `i` puts the whole heap in order, and loses no node.
  pub restore_lem :
      (h : IndexedHeap N) (i : ℕ)
      → i < length h.m_heap
      → IsIndexed h
      → IsHeapAround h i
      → Returns (λ h'. Rearranged h h' × IsHeap h') (restore h i)
  unfolding restore shift_down
  restore_lem h i p x v = Returns-bind (shift_up_lem h i p x v) λ (h', j) u.
      Returns-bind
        (shift_down_loop_lem (length h'.m_heap + 1) h' j (omega arith) u.2 u.0.indexed u.1)
        λ (h'', l) d. returns (Rearranged-trans u.0 d.0, d.1)
