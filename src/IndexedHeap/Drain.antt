-- ===== src/IndexedHeap/Drain.antt =====
-- The loop of both `tick` methods: while there is a node, look at the top, stop by a test, else
-- act on the top and pop it. HeapTimer.cpp collects a callback, HeapHeartbeatCounter.cpp calls it.
use mathlib.Core.Path.{fun_ext}
use mathlib.Core.List.{append-nil, append_assoc}
use dwt_src.Prelude.{
  ap, ◌∙◌, ◌++◌, ℕ, zero, suc, ◌+◌, ◌-◌, ◌≤◌, ◌<◌, ◌≡◌, refl, sym, subst, Bool, true, false, Option,
  some, none, List, [], ◌∷◌, arith, if◌then◌else◌, Bool-cases, inl, inr, length, Outcome, ok,
  out_of_fuel, ◌>>=◌, Returns, returns, Returns-map, Returns-bind, Returns-if, ◌⊎◌, ◌==◌,
  List-cases, Option-cases, get_or-head,
}
use dwt_src.IndexedHeap.{HeapNode, IndexedHeap, pop}
use dwt_src.IndexedHeap.Index.{at, lookup, lookup-none}
use dwt_src.IndexedHeap.Order.{MayPrecede}
use dwt_src.IndexedHeap.Methods.{IsValid, Holds, put}
use dwt_src.IndexedHeap.Removal.{pop-Holds, top_least, lookup-top}

-- One look at the top of the heap `nodes`.
look {ℓ} : {N : Type 0} {A : Type ℓ} → (N → Bool) → (N → A) → A → List N → A
look stops fire halt [] = halt
look stops fire halt (top ∷ _) = if stops top then halt else fire top

module _ {N W : Type 0} ⦃o : HeapNode N⦄ (stop : ℕ → N → Bool) (run : N → W → Outcome W) where
  -- `k` counts the rounds: the test may read a clock.
  drain_loop : ℕ → ℕ → IndexedHeap N → W → Outcome (IndexedHeap N × W)
  drain_loop zero k h w = out_of_fuel
  drain_loop (suc f) k h w =
      let fire = λ (top : N). do w' ← run top w; h' ← pop h; drain_loop f (suc k) h' w'
      in look (stop k) fire (ok (h, w)) h.m_heap

  unfoldable pub drain : IndexedHeap N → W → Outcome (IndexedHeap N × W)
  unfolding drain_loop look
  drain h w = drain_loop (length h.m_heap + 1) 0 h w

module _ {N : Type 0} ⦃o : HeapNode N⦄ (stop : ℕ → N → Bool) where
  -- The nodes left the dictionary `d` one by one from round `k` on, each the first in order of
  -- those left, each past its test; `d'` is what stayed.
  abbrev pub Drains : ℕ → (ℕ → Option N) → List N → (ℕ → Option N) → Type 0
  Drains k d [] d' = (j : ℕ) → d' j ≡ d j
  Drains k d (n ∷ ns) d' =
      (d (o.id n) ≡ some n)
      × (stop k n ≡ false)
      × ((j : ℕ) (x : N) → d j ≡ some x → MayPrecede n x)
      × Drains (suc k) (put d (o.id n) none) ns d'

-- The world went through one call for each node.
abbrev pub Runs : {N : Type 0} {W : Type 0} → (N → W → W → Type 0) → W → List N → W → Type 0
Runs R w [] w' = w' ≡ w
Runs {W = W} R w (n ∷ ns) w' = (v : W) × R n w v × Runs R v ns w'

module _ {N W : Type 0} ⦃o : HeapNode N⦄ (stop : ℕ → N → Bool) (run : N → W → Outcome W)
    (Ok : N → Type 0) (Q : W → Type 0) (R : N → W → W → Type 0) where
  pub record Drained (k : ℕ) (h : IndexedHeap N) (w : W) (r : IndexedHeap N × W) : Type 0 where
    pub fired : List N
    pub valid : IsValid r.0
    pub drains : Drains stop k (lookup h) fired (lookup r.0)
    pub runs : Runs R w fired r.1
    pub good : Q r.1
    pub rest :
        r.0.m_heap ≡ [] ⊎ (0 < length r.0.m_heap) × (stop (k + length fired) (at r.0 0) ≡ true)

  -- The callback returns on every node of the heap, in every world that `Q` allows, and keeps `Q`.
  module _ (total : (n : N) (w : W) → Ok n → Q w → Returns (λ w'. R n w w' × Q w') (run n w)) where
    drain_loop_lem :
        (f k : ℕ) (h : IndexedHeap N) (w : W)
        → length h.m_heap < f
        → IsValid h
        → ((j : ℕ) (n : N) → lookup h j ≡ some n → Ok n)
        → Q w
        → Returns (Drained k h w) (drain_loop stop run f k h w)
    unfolding drain_loop look
    drain_loop_lem zero k h w p v ready q = absurd (omega arith)
    drain_loop_lem (suc f) k h w p v ready q = elim (List-cases h.m_heap) [
      | inl e ↦ at_heads e (
          returns (record {
            fired = [];
            valid = v;
            drains = λ j. refl;
            runs = refl;
            good = q;
            rest = inl e;
          }))
      | inr (top, later, e) ↦
          let first : at h 0 ≡ top = get_or-head h.m_heap later top o.blank e in
          let size : length h.m_heap ≡ length later + 1 = ground arith in
          let found : lookup h (o.id top) ≡ some top = rw first at (lookup-top h v (omega arith)) in
          let removed : Returns (Holds (length h.m_heap - 1) (put (lookup h) (o.id top) none))
              (pop h) =
            rw first at (pop-Holds h v (omega arith)) in
          at_heads e (
            Returns-if (stop k top)
              (λ halts. returns (record {
                fired = [];
                valid = v;
                drains = λ j. refl;
                runs = refl;
                good = q;
                rest = inr (omega arith, ground (arith, first));
              }))
              (λ goes. Returns-bind (total top w (ready (o.id top) top found) q) λ w' (ran, q').
                Returns-bind removed λ h' pops.
                  Returns-map
                    (drain_loop_lem f (suc k) h' w' (omega (arith, pops.size)) pops.valid
                      (λ j n there. ready j n (ground (arith, pops.content j))) q')
                    λ r d. record {
                      fired = top ∷ d.fired;
                      valid = d.valid;
                      drains = (
                        found,
                        goes,
                        λ j x there. rw first at (top_least h v j x there),
                        subst (λ content. Drains stop (suc k) content d.fired (lookup r.0))
                            (fun_ext pops.content) d.drains,
                      );
                      runs = (w', ran, d.runs);
                      good = d.good;
                      rest = ground (arith, d.rest);
                    }))
    ]
      where
        fire : N → Outcome (IndexedHeap N × W)
        fire top = do w' ← run top w; h' ← pop h; drain_loop stop run f (suc k) h' w'

        at_heads :
            {heads : List N}
            → h.m_heap ≡ heads
            → Returns (Drained k h w) (look (stop k) fire (ok (h, w)) heads)
            → Returns (Drained k h w) (look (stop k) fire (ok (h, w)) h.m_heap)
        at_heads e =
            subst (λ heads. Returns (Drained k h w) (look (stop k) fire (ok (h, w)) heads)) (sym e)

    -- The loop ends within its fuel; what it removed is a chain of tops that were past the test.
    pub drain_lem :
        (h : IndexedHeap N) (w : W)
        → IsValid h
        → ((j : ℕ) (n : N) → lookup h j ≡ some n → Ok n)
        → Q w
        → Returns (Drained 0 h w) (drain stop run h w)
    unfolding drain
    drain_lem h w = drain_loop_lem (length h.m_heap + 1) 0 h w (omega arith)

lookup-nil :
    {N : Type 0} ⦃o : HeapNode N⦄ (h : IndexedHeap N)
    → IsValid h
    → h.m_heap ≡ []
    → (j : ℕ) (x : N) → lookup h j ≡ some x
    → ⊥
lookup-nil h v none_left j x e = elim (Option-cases (h.m_map j)) [
  | inl m ↦ cc (lookup-none h j m)
  | inr (i, m) ↦ absurd (ground (arith, v.indexed.inside j i m))
]

abbrev pub All : {A : Type 0} → (A → Type 0) → List A → Type 0
All P [] = Unit {0}
All P (x ∷ xs) = P x × All P xs

-- How many of the nodes have the id.
abbrev pub times : {N : Type 0} ⦃o : HeapNode N⦄ → ℕ → List N → ℕ
times j [] = 0
times ⦃o⦄ j (n ∷ ns) = (if o.id n == j then 1 else 0) + times j ns

module _ {N : Type 0} ⦃o : HeapNode N⦄ (stop : ℕ → N → Bool) where
  -- What a chain did to the entry at `j`: it stayed, or it left, once, in round `m`, past the test.
  pub Drains-cases :
      (ns : List N) (k j : ℕ) (d d' : ℕ → Option N)
      → Drains stop k d ns d'
      → ((d' j ≡ d j) × (times j ns ≡ 0))
        ⊎ ((n : N) × (m : ℕ) × (d j ≡ some n)
            × (stop m n ≡ false)
            × (k ≤ m)
            × (m < k + length ns)
            × (d' j ≡ none)
            × (times j ns ≡ 1))
  Drains-cases [] k j d d' c = inl (c j, refl)
  Drains-cases (n ∷ ns) k j d d' c = elim (Bool-cases (o.id n == j)) [
    | inl e ↦ elim (Drains-cases ns (suc k) j (put d (o.id n) none) d' c.3) [
      | inl s ↦ inr (
        n,
        k,
        ground (arith, c.0),
        c.1,
        omega arith,
        omega arith,
        ground (arith, s.0),
        ground (arith, s.1),
      )
      | inr (x, m, at, s, l, u, g, t) ↦ absurd (ground arith)
    ]
    | inr e ↦ elim (Drains-cases ns (suc k) j (put d (o.id n) none) d' c.3) [
      | inl s ↦ inl (ground (arith, s.0), ground (arith, s.1))
      | inr (x, m, at, s, l, u, g, t) ↦
          inr (x, m, ground arith, s, omega arith, omega arith, g, ground arith)
    ]
  ]

  -- A property of all entries is one of all nodes that left.
  pub Drains-All :
      (P : N → Type 0) (ns : List N) (k : ℕ) (d d' : ℕ → Option N)
      → ((j : ℕ) (n : N) → d j ≡ some n → P n)
      → Drains stop k d ns d'
      → All P ns
  Drains-All P [] k d d' h c = tt
  Drains-All P (n ∷ ns) k d d' h c = (
    h (o.id n) n c.0,
    Drains-All P ns (suc k) (put d (o.id n) none) d' (λ j x e. h j x (ground arith)) c.3,
  )

  -- When the loop ends, no entry is past the test, if the test goes by the order of the heap.
  pub Drained-settled :
      {W : Type 0} (run : N → W → Outcome W) (Ok : N → Type 0) (Q : W → Type 0)
      (R : N → W → W → Type 0) {k : ℕ} {h : IndexedHeap N} {w : W} {r : IndexedHeap N × W}
      → ((m : ℕ) (x y : N) → MayPrecede x y → stop m x ≡ true → stop m y ≡ true)
      → (c : Drained stop run Ok Q R k h w r) → (j : ℕ) (x : N) → lookup r.0 j ≡ some x
      → stop (k + length c.fired) x ≡ true
  Drained-settled run Ok Q R {r = r} mono c j x e = elim c.rest [
    | inl none_left ↦ absurd (lookup-nil r.0 c.valid none_left j x e)
    | inr (p, halts) ↦ mono _ (at r.0 0) x (top_least r.0 c.valid j x e) halts
  ]

module _ {N : Type 0} where
  -- The callback of `drain` that only collects.
  abbrev pub Collects : N → List N → List N → Type 0
  Collects n w w' = w' ≡ w ++ n ∷ []

  pub Runs-Collects : (w ns w' : List N) → Runs Collects w ns w' → w' ≡ w ++ ns
  Runs-Collects w [] w' e = e ∙ sym (append-nil w)
  Runs-Collects w (n ∷ ns) w' (v, e, r) =
      Runs-Collects v ns w' r ∙ ap (λ (u : List N). u ++ ns) e ∙ append_assoc w (n ∷ []) ns
