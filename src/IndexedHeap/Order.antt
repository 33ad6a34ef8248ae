-- ===== src/IndexedHeap/Order.antt =====
-- The heap order, and the shapes of disorder that the two sift loops start from.
use dwt_src.Prelude.{ℕ, ◌<◌, ◌≡◌, ◌≢◌, ◌∙◌, refl, false, Bool-cases, inl, inr, length}
use dwt_src.IndexedHeap.{HeapNode, IndexedHeap, parent}
use dwt_src.IndexedHeap.Index.{
  at, IsIndexed, lookup, swapped, swapped-IsIndexed, lookup-swapped, length-swapped,
}

module _ {N : Type 0} ⦃o : HeapNode N⦄ where
  -- `x` may stand above `y`.
  abbrev pub MayPrecede : N → N → Type 0
  MayPrecede x y = o.before y x ≡ false

  pub MayPrecede-refl : (x : N) → MayPrecede x x
  MayPrecede-refl x = elim (Bool-cases (o.before x x)) [ inl e ↦ o.before_asym x x e | inr e ↦ e ]

  -- No node is before its parent.
  abbrev pub IsHeap : IndexedHeap N → Type 0
  IsHeap h = (c : ℕ) → 0 < c → c < length h.m_heap → MayPrecede (at h (parent c)) (at h c)

  -- The children of `i` may stand below the parent of `i`.
  abbrev pub IsBridged : IndexedHeap N → ℕ → Type 0
  IsBridged h i =
      (c : ℕ)
      → 0 < c
      → c < length h.m_heap
      → parent c ≡ i
      → 0 < i
      → MayPrecede (at h (parent i)) (at h c)

  -- Only the edges at `i` may be out of order.
  pub record IsHeapAround (h : IndexedHeap N) (i : ℕ) : Type 0 where
    pub edges :
        (c : ℕ)
        → 0 < c
        → c < length h.m_heap
        → c ≢ i
        → parent c ≢ i
        → MayPrecede (at h (parent c)) (at h c)
    pub bridged : IsBridged h i

  -- Only the edges below `i` may be out of order.
  pub record IsHeapAbove (h : IndexedHeap N) (i : ℕ) : Type 0 where
    pub edges :
        (c : ℕ) → 0 < c → c < length h.m_heap → parent c ≢ i → MayPrecede (at h (parent c)) (at h c)
    pub bridged : IsBridged h i

  -- `h'` is a rearrangement of `h`: as many nodes, found under the same ids, indexed right.
  pub record Rearranged (h h' : IndexedHeap N) : Type 0 where
    pub indexed : IsIndexed h'
    pub size : length h'.m_heap ≡ length h.m_heap
    pub same : (k : ℕ) → lookup h' k ≡ lookup h k

  pub Rearranged-self : {h : IndexedHeap N} → IsIndexed h → Rearranged h h
  Rearranged-self v = record { indexed = v; size = refl; same = λ k. refl }

  pub Rearranged-trans :
      {h h' h'' : IndexedHeap N} → Rearranged h h' → Rearranged h' h'' → Rearranged h h''
  Rearranged-trans r s = record {
    indexed = s.indexed;
    size = s.size ∙ r.size;
    same = λ k. s.same k ∙ r.same k;
  }

  pub swapped-Rearranged :
      (h : IndexedHeap N) (a b : ℕ)
      → a < length h.m_heap
      → b < length h.m_heap
      → IsIndexed h
      → Rearranged h (swapped h a b)
  swapped-Rearranged h a b ha hb v = record {
    indexed = swapped-IsIndexed h a b ha hb v;
    size = length-swapped h a b ha hb;
    same = lookup-swapped h a b ha hb v;
  }
