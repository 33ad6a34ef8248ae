-- ===== src/IndexedHeap/Methods.antt =====
-- The methods of the heap against the dictionary that it stands for.
use mathlib.Core.Option
use dwt_src.Prelude.{
  ℕ, ◌+◌, ◌<◌, ◌≡◌, refl, ◌∙◌, Option, none, some, arith, Option-cases, inl, inr, ◌==◌,
  if◌then◌else◌, length, Returns, returns, Returns-map,
}
use dwt_src.IndexedHeap.{HeapNode, IndexedHeap, empty, restore, update_at, push, adjust}
use dwt_src.IndexedHeap.Index.{at, IsIndexed, lookup, load-ok, lookup-some, lookup-none}
use dwt_src.IndexedHeap.Order.{IsHeap, IsHeapAround}
use dwt_src.IndexedHeap.Down.{restore_lem}
use dwt_src.IndexedHeap.Edits.{
  changed, length-changed, changed-IsIndexed, changed-IsHeapAround, lookup-changed, added,
  length-added, added-IsIndexed, added-IsHeapAround, lookup-added,
}

module _ {N : Type 0} ⦃o : HeapNode N⦄ where
  pub record IsValid (h : IndexedHeap N) : Type 0 where
    pub indexed : IsIndexed h
    pub ordered : IsHeap h

  pub empty-IsValid : IsValid empty
  unfolding empty
  empty-IsValid = record {
    indexed = record {
      placed = λ i p. absurd (omega arith);
      inside = λ k i e. cc;
      named = λ k i e. cc;
    };
    ordered = λ c p q. absurd (omega arith);
  }

  pub lookup-empty : (k : ℕ) → lookup (empty {N = N}) k ≡ none
  unfolding empty
  lookup-empty k = lookup-none (empty {N = N}) k refl

  -- `h` is valid, has `n` nodes, and stands for the dictionary `d`.
  pub record Holds (n : ℕ) (d : ℕ → Option N) (h : IndexedHeap N) : Type 0 where
    pub valid : IsValid h
    pub size : length h.m_heap ≡ n
    pub content : (k : ℕ) → lookup h k ≡ d k

  pub restore-Holds :
      (n : ℕ) (d : ℕ → Option N) (h : IndexedHeap N) (i : ℕ)
      → length h.m_heap ≡ n
      → i < length h.m_heap
      → IsIndexed h
      → IsHeapAround h i
      → ((k : ℕ) → lookup h k ≡ d k)
      → Returns (Holds n d) (restore h i)
  restore-Holds n d h i s p x v e = Returns-map (restore_lem h i p x v) λ h' r. record {
    valid = record { indexed = r.0.indexed; ordered = r.1 };
    size = r.0.size ∙ s;
    content = λ k. r.0.same k ∙ e k;
  }

  -- The dictionary `d` with the entry at `k` replaced.
  abbrev pub put : (ℕ → Option N) → ℕ → Option N → ℕ → Option N
  put d k v j = if k == j then v else d j

  update_at-Holds :
      (h : IndexedHeap N) (k i : ℕ) (change : N → N)
      → IsValid h
      → ((x : N) → o.id (change x) ≡ o.id x)
      → h.m_map k ≡ some i
      → Returns
          (Holds (length h.m_heap) (put (lookup h) k (Option.map change (lookup h k))))
          (update_at h i change)
  unfolding update_at
  update_at-Holds h k i change v keeps e =
      let p = v.indexed.inside k i e in
      let n = change (at h i) in
      let same = keeps (at h i) in
      rw (load-ok h i p) (
        restore-Holds _ _ (changed h i n p same) i (length-changed h i n p same)
          (rw (length-changed h i n p same) p) (changed-IsIndexed h i n p same v.indexed)
          (changed-IsHeapAround h i n p same v.ordered)
          λ j. ground (
            arith,
            lookup-changed h i n p same v.indexed j,
            v.indexed.named k i e,
            same,
            lookup-some h k i v.indexed e,
          ))

  module _ (h : IndexedHeap N) (v : IsValid h) (change : N → N)
      (keeps : (x : N) → o.id (change x) ≡ o.id x) where
    pub adjust-Holds :
        (k : ℕ)
        → Returns
            (Holds (length h.m_heap) (put (lookup h) k (Option.map change (lookup h k))))
            (adjust h k change)
    unfolding adjust
    adjust-Holds k = elim (Option-cases (h.m_map k)) [
      | inl e ↦
          rw (e, adjust)
            (returns
              (record { valid = v; size = refl; content = λ j. ground (arith, lookup-none h k e) }))
      | inr (i, e) ↦ rw (e, adjust) (update_at-Holds h k i change v keeps e)
    ]

    -- What `push` leaves under the id: the new node, or the known one changed.
    abbrev pub pushed : N → Option N
    pushed n = elim (lookup h (o.id n)) [ none ↦ some n | some x ↦ some (change x) ]

    abbrev pub pushed_size : N → ℕ
    pushed_size n = elim (lookup h (o.id n)) [
      | none ↦ length h.m_heap + 1
      | some _ ↦ length h.m_heap
    ]

    pub push-Holds :
        (n : N)
        → Returns (Holds (pushed_size n) (put (lookup h) (o.id n) (pushed n))) (push h n change)
    unfolding push
    push-Holds n = elim (Option-cases (h.m_map (o.id n))) [
      | inl e ↦
          rw (e, push)
            (restore-Holds _ _ (added h n e) (length h.m_heap)
              (ground (arith, length-added h n e, lookup-none h (o.id n) e))
              (omega (arith, length-added h n e)) (added-IsIndexed h n e v.indexed)
              (added-IsHeapAround h n e v.ordered)
              λ j. ground (arith, lookup-added h n e v.indexed j, lookup-none h (o.id n) e))
      | inr (i, e) ↦
          let known = lookup-some h (o.id n) i v.indexed e in
          rw (e, push)
            (Returns-map (update_at-Holds h (o.id n) i change v keeps e) λ h' r. record {
              valid = r.valid;
              size = ground (arith, r.size, known);
              content = λ j. ground (arith, r.content j, known);
            })
    ]
