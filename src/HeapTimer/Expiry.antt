-- ===== src/HeapTimer/Expiry.antt =====
-- The methods of HeapTimer.cpp against the dictionary of timers that the heap stands for.
use mathlib.Core.Option
use mathlib.Core.Path.{fun_ext}
use dwt_src.Prelude.{
  ℕ, ◌+◌, ◌*◌, ◌≤◌, ◌<◌, ◌≡◌, subst, Bool, leb, Bool-cases, refl, true, none, some, List, [], ◌∷◌,
  ◌++◌, ◌==◌, ◌∙◌, sym, Option-cases, inl, inr, if◌then◌else◌, HasDefault, ok, Returns, returns,
  Returns-map, length, arith,
}
use dwt_src.IndexedHeap.Index.{lookup, id-lookup}
use dwt_src.IndexedHeap.Methods.{IsValid, adjust-Holds, push-Holds}
use dwt_src.IndexedHeap.Removal.{del-Holds}
use dwt_src.IndexedHeap.Drain.{
  Drains, Drains-cases, Drained-settled, drain_lem, Collects, Runs-Collects,
}
use dwt_src.HeapTimer.{
  TimerNode, HeapTimer, timer_node, ms, push, adjust, del, is_pending, take_expired,
}

pending_later :
    {C : Type 0} (now : ℕ) (x y : TimerNode C)
    → x.expires ≤ y.expires
    → is_pending now x ≡ true
    → is_pending now y ≡ true
pending_later now x y p q = ground arith

-- At the reading of the clock in this round, at least a millisecond is left.
abbrev pub lasts : {C : Type 0} → (ℕ → ℕ) → ℕ → TimerNode C → Bool
lasts clock round n = leb (clock round + 1000000) n.expires

is_pending-lasts :
    {C : Type 0} (clock : ℕ → ℕ)
    → (λ (round : ℕ) (n : TimerNode C). is_pending (clock round) n) ≡ lasts clock
is_pending-lasts clock = fun_ext λ round.
    fun_ext
      λ n. elim (Bool-cases (lasts clock round n)) [ inl e ↦ ground arith | inr e ↦ ground arith ]

module _ {C : Type 0} ⦃d : HasDefault C⦄ (h : HeapTimer C) (v : IsValid h) where
  -- From a valid heap, `push` returns a valid heap in which the id has exactly the given deadline
  -- and callback, whether or not it was known, and every other id has what it had.
  pub timer_push_lem :
      (id timeout : ℕ) (cb : C) (now : ℕ)
      → Returns
          (λ h'.
            IsValid h'
            × ((k : ℕ)
                → lookup h' k ≡ (
                    if id == k
                    then some (record { id = id; expires = now + timeout * ms; cb = cb })
                    else lookup h k)))
          (push h id timeout cb now)
  unfolding push
  timer_push_lem id timeout cb now =
      let n : TimerNode C = record { id = id; expires = now + timeout * ms; cb = cb } in
      Returns-map (push-Holds h v (λ x. record x { expires = n.expires; cb = cb }) (λ x. refl) n)
        λ h' r. (
          r.valid,
          λ k. elim (Option-cases (lookup h id)) [
            | inl e ↦ ground (arith, r.content k)
            | inr (x, e) ↦ ground (arith, r.content k, id-lookup h id x v.indexed e)
          ],
        )

  -- From a valid heap, `adjust` returns a valid heap in which the deadline of the id, if it is
  -- known, is the new one, and nothing else is changed.
  pub timer_adjust_lem :
      (id timeout now : ℕ)
      → Returns
          (λ h'.
            IsValid h'
            × ((k : ℕ)
                → lookup h' k ≡ (
                    if id == k
                    then Option.map {A = TimerNode C}
                        (λ n. record n { expires = now + timeout * ms })
                        (lookup h id)
                    else lookup h k)))
          (adjust h id timeout now)
  unfolding adjust
  timer_adjust_lem id timeout now =
      Returns-map (adjust-Holds h v (λ n. record n { expires = now + timeout * ms }) (λ n. refl) id)
        λ h' r. (r.valid, r.content)

  -- From a valid heap, `del` returns a valid heap without the id, and every other id has what it had.
  pub timer_del_lem :
      (id : ℕ)
      → Returns
          (λ h'. IsValid h' × ((k : ℕ) → lookup h' k ≡ (if id == k then none else lookup h k)))
          (del h id)
  unfolding del
  timer_del_lem id = Returns-map (del-Holds h v id) λ h' r. (r.valid, r.content)

  collects :
      (n : TimerNode C) (w : List (TimerNode C))
      → Unit {0}
      → Unit {0}
      → Returns (λ w'. (w' ≡ w ++ n ∷ []) × Unit {0}) (ok (w ++ n ∷ []))
  collects n w _ _ = returns (refl, tt)

  -- What `take_expired` returns, `fired` being the nodes whose callbacks run.
  pub record Expired (clock : ℕ → ℕ) (h' : HeapTimer C) (fired : List (TimerNode C)) : Type 0 where
    pub valid : IsValid h'
    pub gone :
        (k : ℕ) (n : TimerNode C)
        → lookup h k ≡ some n
        → n.expires < clock (length fired) + 1000000
        → lookup h' k ≡ none
    pub kept :
        (k : ℕ) (n : TimerNode C)
        → lookup h k ≡ some n
        → ((i : ℕ) → i ≤ length fired → clock i + 1000000 ≤ n.expires)
        → lookup h' k ≡ some n
    pub none_new : (k : ℕ) (n : TimerNode C) → lookup h' k ≡ some n → lookup h k ≡ some n
    pub in_turn : Drains (lasts clock) 0 (lookup h) fired (lookup h')

  -- The loop of `tick` ends within its fuel on any valid heap, whatever the clock reads, even when
  -- it goes back. Every timer with less than a millisecond left at the last reading is gone, every
  -- timer with at least a millisecond left at each reading is kept as it was, no timer appears, and
  -- those that went are the earliest first, each with less than a millisecond left when it went.
  pub take_expired_lem :
      (clock : ℕ → ℕ) → Returns (λ (h', fired). Expired clock h' fired) (take_expired clock h)
  unfolding take_expired
  take_expired_lem clock =
      Returns-map
        (drain_lem (λ round. is_pending (clock round)) _ (λ _. Unit {0}) (λ _. Unit {0}) Collects
          collects h [] v (λ j n e. tt) tt)
        λ (h', callbacks) c.
          let same : callbacks ≡ c.fired = Runs-Collects [] c.fired callbacks c.runs in
          let last =
            Drained-settled (λ round. is_pending (clock round)) _ _ _ Collects
              (λ m x y p q. pending_later (clock m) x y (ground arith) q) c in
          let drains : Drains (lasts clock) 0 (lookup h) c.fired (lookup h') =
            subst (λ stop. Drains stop 0 (lookup h) c.fired (lookup h')) (is_pending-lasts clock)
              c.drains in
          let cases =
            λ (k : ℕ). Drains-cases (lasts clock) c.fired 0 k (lookup h) (lookup h') drains in
          rw same (record {
            valid = c.valid;
            gone = λ k n e q. elim (cases k) [
              | inl (s, t) ↦ ground (arith, last k n)
              | inr (x, m, at, s, l, u, g, t) ↦ g
            ];
            kept = λ k n e q. elim (cases k) [
              | inl (s, t) ↦ s ∙ e
              | inr (x, m, at, s, l, u, g, t) ↦ absurd (ground (arith, q m))
            ];
            none_new = λ k n e. elim (cases k) [
              | inl (s, t) ↦ sym s ∙ e
              | inr (x, m, at, s, l, u, g, t) ↦ cc
            ];
            in_turn = drains;
          })
