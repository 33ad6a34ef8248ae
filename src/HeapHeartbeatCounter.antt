-- ===== src/HeapHeartbeatCounter.antt =====
-- src/HeapHeartbeatCounter.h and src/HeapHeartbeatCounter.cpp: missed heartbeats for each session, as
-- a heap with the highest count at the top. An `int` count is a natural number: the program only
-- stores 0 and adds 1.
pub mod Limits
use dwt_src.Prelude.{
  ℕ, suc, ◌+◌, ◌≡◌, true, false, Bool, ltb, HasDefault, Outcome, ok, ◌>>=◌, arith,
}
use dwt_src.IndexedHeap
use dwt_src.IndexedHeap.{HeapNode, IndexedHeap}
use dwt_src.IndexedHeap.Drain.{drain}

pub record HeartBeatCounterNode (C : Type 0) : Type 0 where
  pub id : ℕ
  pub heartbeat_count : ℕ
  pub cb : C

-- `HeartBeatCounterNode::operator<`, turned round
abbrev pub less : {C : Type 0} → HeartBeatCounterNode C → HeartBeatCounterNode C → Bool
less a b = ltb b.heartbeat_count a.heartbeat_count

pub less_asym : {C : Type 0} (x y : HeartBeatCounterNode C) → less x y ≡ true → less y x ≡ false
less_asym x y e = ground arith

pub less_trans :
    {C : Type 0} (x y z : HeartBeatCounterNode C)
    → less y x ≡ false
    → less z y ≡ false
    → less z x ≡ false
less_trans x y z e f = ground arith

abbrev pub HeapHeartBeatCounter : Type 0 → Type 0
HeapHeartBeatCounter C = IndexedHeap (HeartBeatCounterNode C)

module _ {C : Type 0} ⦃d : HasDefault C⦄ where
  instance abbrev pub counter_node : HeapNode (HeartBeatCounterNode C)
  counter_node = record {
    blank = record { id = 0; heartbeat_count = 0; cb = d.default };
    id = λ n. n.id;
    before = less;
    before_asym = less_asym;
    before_trans = less_trans;
  }

  unfoldable pub push : HeapHeartBeatCounter C → ℕ → C → Outcome (HeapHeartBeatCounter C)
  push h id cb =
      IndexedHeap.push h (record { id = id; heartbeat_count = 0; cb = cb })
        λ n. record n { heartbeat_count = 0; cb = cb }

  unfoldable pub adjust : HeapHeartBeatCounter C → ℕ → ℕ → Outcome (HeapHeartBeatCounter C)
  adjust h id count = IndexedHeap.adjust h id λ n. record n { heartbeat_count = count }

  unfoldable pub add_one : HeapHeartBeatCounter C → ℕ → Outcome (HeapHeartBeatCounter C)
  add_one h id = IndexedHeap.adjust h id λ n. record n { heartbeat_count = n.heartbeat_count + 1 }

  -- The callback of each node at the limit runs before the node is popped. It may change the rest
  -- of the program, `W`, and not this heap.
  unfoldable pub tick :
      {W : Type 0}
      → ℕ
      → (HeartBeatCounterNode C → W → Outcome W)
      → HeapHeartBeatCounter C × W
      → Outcome (HeapHeartBeatCounter C × W)
  tick limit call (h, w) = drain (λ _ top. ltb top.heartbeat_count limit) call h w

  unfoldable pub pop : HeapHeartBeatCounter C → Outcome (HeapHeartBeatCounter C)
  pop h = IndexedHeap.pop h

  unfoldable pub clear : HeapHeartBeatCounter C → HeapHeartBeatCounter C
  clear h = IndexedHeap.clear h
