-- ===== src/HeapHeartbeatCounter/Limits.antt =====
-- The methods of HeapHeartbeatCounter.cpp against the dictionary of counts.
use mathlib.Core.Option
use dwt_src.Prelude.{
  ℕ, ◌+◌, ◌≡◌, refl, Bool, none, some, List, ltb, ◌==◌, ◌∙◌, Option-cases, inl, inr, if◌then◌else◌,
  HasDefault, Outcome, Returns, Returns-map, arith,
}
use dwt_src.IndexedHeap.Index.{lookup, id-lookup}
use dwt_src.IndexedHeap.Methods.{IsValid, adjust-Holds, push-Holds}
use dwt_src.IndexedHeap.Drain.{Drains, Drains-cases, Runs, Drained-settled, drain_lem}
use dwt_src.HeapHeartbeatCounter.{
  HeartBeatCounterNode, HeapHeartBeatCounter, counter_node, push, adjust, add_one, tick,
}

module _ {C : Type 0} ⦃d : HasDefault C⦄ (h : HeapHeartBeatCounter C) (v : IsValid h) where
  -- From a valid heap, `push` returns a valid heap in which the id counts from 0 with the given
  -- callback, whether or not it was known, and every other id has what it had.
  pub count_push_lem :
      (id : ℕ) (cb : C)
      → Returns
          (λ h'.
            IsValid h'
            × ((k : ℕ)
                → lookup h' k ≡ (
                    if id == k
                    then some (record { id = id; heartbeat_count = 0; cb = cb })
                    else lookup h k)))
          (push h id cb)
  unfolding push
  count_push_lem id cb =
      let n : HeartBeatCounterNode C = record { id = id; heartbeat_count = 0; cb = cb } in
      Returns-map (push-Holds h v (λ x. record x { heartbeat_count = 0; cb = cb }) (λ x. refl) n)
        λ h' r. (
          r.valid,
          λ k. elim (Option-cases (lookup h id)) [
            | inl e ↦ ground (arith, r.content k)
            | inr (x, e) ↦ ground (arith, r.content k, id-lookup h id x v.indexed e)
          ],
        )

  -- From a valid heap, `adjust` returns a valid heap in which the count of the id, if it is known,
  -- is the given one, and nothing else is changed.
  pub count_adjust_lem :
      (id count : ℕ)
      → Returns
          (λ h'.
            IsValid h'
            × ((k : ℕ)
                → lookup h' k ≡ (
                    if id == k
                    then Option.map {A = HeartBeatCounterNode C}
                        (λ n. record n { heartbeat_count = count })
                        (lookup h id)
                    else lookup h k)))
          (adjust h id count)
  unfolding adjust
  count_adjust_lem id count =
      Returns-map (adjust-Holds h v (λ n. record n { heartbeat_count = count }) (λ n. refl) id)
        λ h' r. (r.valid, r.content)

  -- From a valid heap, `addOne` returns a valid heap in which the count of the id, if it is known,
  -- is one higher, and nothing else is changed.
  pub add_one_lem :
      (id : ℕ)
      → Returns
          (λ h'.
            IsValid h'
            × ((k : ℕ)
                → lookup h' k ≡ (
                    if id == k
                    then Option.map {A = HeartBeatCounterNode C}
                        (λ n. record n { heartbeat_count = n.heartbeat_count + 1 })
                        (lookup h id)
                    else lookup h k)))
          (add_one h id)
  unfolding add_one
  add_one_lem id =
      Returns-map
        (adjust-Holds h v (λ n. record n { heartbeat_count = n.heartbeat_count + 1 }) (λ n. refl)
          id)
        λ h' r. (r.valid, r.content)

  module _ {W : Type 0} (limit : ℕ) (call : HeartBeatCounterNode C → W → Outcome W)
      (Ok : HeartBeatCounterNode C → Type 0) (Q : W → Type 0)
      (R : HeartBeatCounterNode C → W → W → Type 0) (w : W) where
    abbrev pub below : ℕ → HeartBeatCounterNode C → Bool
    below _ top = ltb top.heartbeat_count limit

    -- The result of `tick`: the calls it made, and the heap it left.
    pub record Ticked (h' : HeapHeartBeatCounter C) (w' : W) : Type 0 where
      pub fired : List (HeartBeatCounterNode C)
      pub valid : IsValid h'
      pub calls : Runs R w fired w'
      pub good : Q w'
      pub in_turn : Drains below 0 (lookup h) fired (lookup h')
      pub left :
          (k : ℕ)
          → lookup h' k ≡ elim (lookup h k) [
            | none ↦ none
            | some n ↦ if ltb n.heartbeat_count limit then some n else none
          ]

    -- From a valid heap, with a callback that returns and does `R` on each of its nodes, the loop of `tick` ends: what is
    -- left is exactly the nodes with a count below the limit, and the callback of each other node
    -- ran once, highest count first.
    pub count_tick_lem :
        ((n : HeartBeatCounterNode C) (u : W)
          → Ok n
          → Q u
          → Returns (λ u'. R n u u' × Q u') (call n u))
        → ((j : ℕ) (n : HeartBeatCounterNode C) → lookup h j ≡ some n → Ok n)
        → Q w
        → Returns (λ (h', w'). Ticked h' w') (tick limit call (h, w))
    unfolding tick
    count_tick_lem total ready q =
        Returns-map (drain_lem below call Ok Q R total h w v ready q) λ (h', w') c.
          let last = Drained-settled below call Ok Q R (λ m x y p q. ground arith) c in
          record {
            fired = c.fired;
            valid = c.valid;
            calls = c.runs;
            good = c.good;
            in_turn = c.drains;
            left = λ k. elim (Option-cases (lookup h k)) [
              | inl e ↦ elim (Drains-cases below c.fired 0 k (lookup h) (lookup h') c.drains) [
                | inl (s, t) ↦ rw e (s ∙ e)
                | inr (x, m, at, s, l, u, g, t) ↦ rw e g
              ]
              | inr (n, e) ↦ elim (Drains-cases below c.fired 0 k (lookup h) (lookup h') c.drains) [
                | inl (s, t) ↦ ground (arith, last k n)
                | inr (x, m, at, s, l, u, g, t) ↦ ground arith
              ]
            ];
          }
