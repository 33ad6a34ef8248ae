-- ===== src/IndexedHeap.antt =====
-- src/HeapTimer.cpp and src/HeapHeartbeatCounter.cpp: the binary heap in a vector with a map from
-- ids to positions that both classes write out. The classes differ in the node and in its
-- `operator<`, which are the parameter here; a node is smaller when it is nearer to the top.
-- The map is a function from ids. An access past the end of the vector is a `fault`.
pub mod Index
pub mod Order
pub mod Up
pub mod Down
pub mod Edits
pub mod Methods
pub mod Removal
pub mod Drain
use dwt_src.Prelude.{
  ℕ, zero, suc, ◌+◌, ◌-◌, ◌*◌, ◌/◌, ◌≡◌, Bool, true, false, Option, none, some, List, [], ◌∷◌, ◌++◌,
  ltb, ◌==◌, if◌then◌else◌, length, get_elem?, set, take, Outcome, ok, out_of_fuel, ◌>>=◌, or_fault,
}

-- What the heap needs of its nodes. `blank` is only named by statements about positions.
pub record HeapNode (N : Type 0) : Type 0 where
  pub blank : N
  pub id : N → ℕ
  pub before : N → N → Bool
  pub before_asym : (x y : N) → before x y ≡ true → before y x ≡ false
  pub before_trans : (x y z : N) → before y x ≡ false → before z y ≡ false → before z x ≡ false

pub record IndexedHeap (N : Type 0) : Type 0 where
  pub m_heap : List N
  pub m_map : ℕ → Option ℕ

-- `m[k] = v` and `m.erase(k)` of an `unordered_map`
abbrev pub assign {ℓ} : {A : Type ℓ} → (ℕ → Option A) → ℕ → A → ℕ → Option A
assign m k v j = if k == j then some v else m j

abbrev pub erase {ℓ} : {A : Type ℓ} → (ℕ → Option A) → ℕ → ℕ → Option A
erase m k j = if k == j then none else m j

abbrev pub parent : ℕ → ℕ
parent i = (i - 1) / 2

module _ {N : Type 0} ⦃o : HeapNode N⦄ where
  unfoldable pub empty : IndexedHeap N
  empty = record { m_heap = []; m_map = λ _. none }

  pub load : IndexedHeap N → ℕ → Outcome N
  load h i = or_fault (get_elem? h.m_heap i)

  pub swap_node : IndexedHeap N → ℕ → ℕ → Outcome (IndexedHeap N)
  swap_node h a b = do
    x ← load h a
    y ← load h b
    ok (record {
      m_heap = set (set h.m_heap a y) b x;
      m_map = assign (assign h.m_map (o.id y) a) (o.id x) b;
    })

  shift_up_loop : ℕ → IndexedHeap N → ℕ → Outcome (IndexedHeap N × ℕ)
  shift_up_loop zero h idx = out_of_fuel
  shift_up_loop (suc k) h idx =
      let rise = swap_node h idx (parent idx) >>= λ h'. shift_up_loop k h' (parent idx) in
      let compare_parent : Outcome (IndexedHeap N × ℕ) = do
        x ← load h idx
        y ← load h (parent idx)
        if o.before x y then rise else ok (h, idx)
      in if ltb 0 idx then compare_parent else ok (h, idx)

  pub shift_up : IndexedHeap N → ℕ → Outcome (IndexedHeap N × ℕ)
  unfolding shift_up_loop swap_node load
  shift_up h idx = shift_up_loop (idx + 1) h idx

  -- `if(c < n && m_heap[c] < m_heap[cur]) cur = c;`
  smaller : IndexedHeap N → ℕ → ℕ → Outcome ℕ
  smaller h c cur =
      if ltb c (length h.m_heap)
      then (do x ← load h c; y ← load h cur; ok (if o.before x y then c else cur))
      else ok cur

  smallest : IndexedHeap N → ℕ → Outcome ℕ
  unfolding smaller
  smallest h idx = do cur ← smaller h (idx * 2 + 1) idx; smaller h (idx * 2 + 2) cur

  shift_down_loop : ℕ → IndexedHeap N → ℕ → Outcome (IndexedHeap N × ℕ)
  shift_down_loop zero h idx = out_of_fuel
  shift_down_loop (suc k) h idx =
      let step : Outcome (IndexedHeap N × ℕ) = do
        cur ← smallest h idx
        let sink = swap_node h cur idx >>= λ h'. shift_down_loop k h' cur
        if cur == idx then ok (h, idx) else sink
      in if ltb idx (length h.m_heap) then step else ok (h, idx)

  pub shift_down : IndexedHeap N → ℕ → Outcome (IndexedHeap N × ℕ)
  unfolding shift_down_loop smallest swap_node load
  shift_down h idx = shift_down_loop (length h.m_heap + 1) h idx

  -- `shift_down(shift_up(idx));`
  pub restore : IndexedHeap N → ℕ → Outcome (IndexedHeap N)
  unfolding shift_up shift_down
  restore h idx = do (h', i) ← shift_up h idx; (h'', j) ← shift_down h' i; ok h''

  -- A write through `m_heap[idx]`, and the repair that follows it in every method.
  pub update_at : IndexedHeap N → ℕ → (N → N) → Outcome (IndexedHeap N)
  unfolding restore load
  update_at h idx change = do
    n ← load h idx
    restore (record h { m_heap = set h.m_heap idx (change n) }) idx

  -- Both branches of `push`: a known id has its node changed, else the new node goes to the end.
  pub push : IndexedHeap N → N → (N → N) → Outcome (IndexedHeap N)
  unfolding update_at restore
  push h n change = elim (h.m_map (o.id n)) [
    | some idx ↦ update_at h idx change
    | none ↦
        restore
          (record {
            m_heap = h.m_heap ++ n ∷ [];
            m_map = assign h.m_map (o.id n) (length h.m_heap);
          })
          (length h.m_heap)
  ]

  -- `adjust` and `addOne`: an unknown id does nothing.
  pub adjust : IndexedHeap N → ℕ → (N → N) → Outcome (IndexedHeap N)
  unfolding update_at
  adjust h k change = elim (h.m_map k) [ none ↦ ok h | some idx ↦ update_at h idx change ]

  -- `m_map.erase(m_heap[i].id); m_heap.pop_back();`
  pub drop_at : IndexedHeap N → ℕ → Outcome (IndexedHeap N)
  drop_at h i = do
    n ← load h i
    ok (record { m_heap = take (length h.m_heap - 1) h.m_heap; m_map = erase h.m_map (o.id n) })

  -- `size_t end_idx = m_heap.size() - 1` is only reached with a node in the heap.
  pub delete_node : IndexedHeap N → ℕ → Outcome (IndexedHeap N)
  delete_node h idx =
      let end_idx = length h.m_heap - 1 in
      if ltb idx end_idx
      then (do h' ← swap_node h idx end_idx; h'' ← drop_at h' end_idx; restore h'' idx)
      else drop_at h idx

  pub pop : IndexedHeap N → Outcome (IndexedHeap N)
  pop h = if ltb 0 (length h.m_heap) then delete_node h 0 else ok h

  pub del : IndexedHeap N → ℕ → Outcome (IndexedHeap N)
  del h k = elim (h.m_map k) [ none ↦ ok h | some idx ↦ delete_node h idx ]

  pub clear : IndexedHeap N → IndexedHeap N
  clear h = record { m_heap = []; m_map = λ _. none }
