-- ===== src/HeapTimer.antt =====
-- src/HeapTimer.h and src/HeapTimer.cpp: the timer of `HeartbeatCounter`. A heap of nodes by the
-- time at which they expire, in the ticks of `Clock` (nanoseconds). Each reading of the clock is an
-- argument; the loop of `tick` takes its readings from a function of the round. An `int` timeout is
-- a number of milliseconds and not negative.
pub mod Expiry
use dwt_src.Prelude.{
  ℕ, suc, ◌+◌, ◌-◌, ◌*◌, ◌/◌, ◌≡◌, true, false, Bool, List, [], ◌∷◌, ◌++◌, ltb, if◌then◌else◌,
  HasDefault, Outcome, ok, ◌>>=◌, arith, Option, none, some,
}
use dwt_src.IndexedHeap
use dwt_src.IndexedHeap.{HeapNode, IndexedHeap}
use dwt_src.IndexedHeap.Drain.{drain}

pub record TimerNode (C : Type 0) : Type 0 where
  pub id : ℕ
  pub expires : ℕ
  pub cb : C

-- `TimerNode::operator<`
abbrev pub less : {C : Type 0} → TimerNode C → TimerNode C → Bool
less a b = ltb a.expires b.expires

pub less_asym : {C : Type 0} (x y : TimerNode C) → less x y ≡ true → less y x ≡ false
less_asym x y e = ground arith

pub less_trans :
    {C : Type 0} (x y z : TimerNode C) → less y x ≡ false → less z y ≡ false → less z x ≡ false
less_trans x y z e f = ground arith

-- One millisecond, in ticks of the clock.
abbrev pub ms : ℕ
ms = 1000000

abbrev pub HeapTimer : Type 0 → Type 0
HeapTimer C = IndexedHeap (TimerNode C)

-- `duration_cast<MS>(top.expires - Clock::now()).count() > 0`, which rounds towards 0: a node with
-- less than a millisecond left counts as expired.
abbrev pub is_pending : {C : Type 0} → ℕ → TimerNode C → Bool
is_pending now n = ltb 0 ((n.expires - now) / ms)

module _ {C : Type 0} ⦃d : HasDefault C⦄ where
  instance abbrev pub timer_node : HeapNode (TimerNode C)
  timer_node = record {
    blank = record { id = 0; expires = 0; cb = d.default };
    id = λ n. n.id;
    before = less;
    before_asym = less_asym;
    before_trans = less_trans;
  }

  unfoldable pub push : HeapTimer C → ℕ → ℕ → C → ℕ → Outcome (HeapTimer C)
  push h id timeout cb now =
      let expires = now + timeout * ms in
      IndexedHeap.push h (record { id = id; expires = expires; cb = cb })
        λ n. record n { expires = expires; cb = cb }

  unfoldable pub adjust : HeapTimer C → ℕ → ℕ → ℕ → Outcome (HeapTimer C)
  adjust h id timeout now = IndexedHeap.adjust h id λ n. record n { expires = now + timeout * ms }

  -- The loop of `tick`: the nodes whose callbacks are due, in the order in which they left.
  unfoldable pub take_expired : (ℕ → ℕ) → HeapTimer C → Outcome (HeapTimer C × List (TimerNode C))
  take_expired clock h =
      drain (λ round. is_pending (clock round)) (λ n callbacks. ok (callbacks ++ n ∷ [])) h []

  -- `for(auto& cb : callbacks) cb();` where a callback may change the state `S`, and is told which
  -- one it is, for the clock that it reads.
  unfoldable pub call_all :
      {S : Type 0} → (ℕ → TimerNode C → S → Outcome S) → ℕ → List (TimerNode C) → S → Outcome S
  call_all call k [] s = ok s
  call_all call k (n ∷ callbacks) s = call k n s >>= call_all call (suc k) callbacks

  -- The callbacks run on the timer itself and on what else they reach, `W`.
  unfoldable pub tick :
      {W : Type 0}
      → (ℕ → TimerNode C → HeapTimer C × W → Outcome (HeapTimer C × W))
      → (ℕ → ℕ)
      → HeapTimer C × W
      → Outcome (HeapTimer C × W)
  tick call clock (h, w) = do
    (h', callbacks) ← take_expired clock h
    call_all call 0 callbacks (h', w)

  -- `getNextTick`, with `none` for -1. A timeout is an `int`, and so is what is left of it.
  unfoldable pub get_next_tick :
      {W : Type 0}
      → (ℕ → TimerNode C → HeapTimer C × W → Outcome (HeapTimer C × W))
      → (ℕ → ℕ)
      → ℕ
      → HeapTimer C × W
      → Outcome ((HeapTimer C × W) × Option ℕ)
  get_next_tick call clock now s = do
    (h, w) ← tick call clock s
    ok ((h, w), elim h.m_heap [ [] ↦ none | top ∷ _ ↦ some ((top.expires - now) / ms) ])

  unfoldable pub pop : HeapTimer C → Outcome (HeapTimer C)
  pop h = IndexedHeap.pop h

  unfoldable pub clear : HeapTimer C → HeapTimer C
  clear h = IndexedHeap.clear h

  unfoldable pub del : HeapTimer C → ℕ → Outcome (HeapTimer C)
  del h id = IndexedHeap.del h id
