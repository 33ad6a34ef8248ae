-- ===== src/HeartbeatCounter/Fates.antt =====
-- The round of `tick` put together, session by session.
use mathlib.Core.Option
use dwt_src.Prelude.{
  leb, sym, ap, ◌∙◌, ℕ, ◌+◌, ◌*◌, ◌≤◌, ◌<◌, ◌≡◌, ◌≢◌, ◌⊎◌, refl, false, Option, none, some, List,
  arith, Option-cases, Bool-cases, inl, inr, ltb, ◌==◌, if◌then◌else◌, length, Returns, returns,
  Returns-bind, Returns-map,
}
use dwt_src.IndexedHeap.Index.{lookup}
use dwt_src.IndexedHeap.Methods
use dwt_src.IndexedHeap.Drain.{times, Drains-cases, Drains-All}
use dwt_src.HeapTimer.{TimerNode, HeapTimer, timer_node, ms, take_expired}
use dwt_src.HeapTimer
use dwt_src.HeapTimer.Expiry.{lasts}
use dwt_src.HeapTimer.Expiry
use dwt_src.HeapHeartbeatCounter.{counter_node}
use dwt_src.HeapHeartbeatCounter.Limits
use dwt_src.HeartbeatCounter.{
  HeartbeatCounter, timeout_func, heartbeat_reach, timeout_default, reach_default, call_reach, tick,
}
use dwt_src.HeartbeatCounter.Dictionaries.{Timers, Counters, ArePaired, IsValid}
use dwt_src.HeartbeatCounter.Rounds.{
  TimerEntry, CounterEntry, more_missed, TimedOut, Restarted, call_all-Restarted, Reached, is_known,
  call_reach-Reached, Runs-Reached, Ticked,
}

-- One session through a round: `t` and `c` are its entries before, `t1` after the timer's loop,
-- `t2` and `c2` after its callbacks, `t3` and `c3` after those at the limit; `a` and `b` count the
-- callbacks.
record Fate (k timeout limit : ℕ) (now : ℕ → ℕ) (t t1 t2 t3 : Option TimerEntry)
    (c c2 c3 : Option CounterEntry) (a b : ℕ) : Type 0 where
  left : ((t1 ≡ t) × (a ≡ 0)) ⊎ ((t ≢ none) × (t1 ≡ none) × (a ≡ 1))
  counts : c2 ≡ Option.map (more_missed a) c
  others : a ≡ 0 → t2 ≡ t1
  again :
      0 < a
      → (round : ℕ) × (t2
          ≡ some (record { id = k; expires = now round + timeout * ms; cb = timeout_func }))
  given : ((c3 ≡ c2) × (b ≡ 0)) ⊎ ((c2 ≢ none) × (c3 ≡ none) × (b ≡ 1))
  kept :
      c3 ≡ elim c2 [ none ↦ none | some x ↦ if ltb x.heartbeat_count limit then some x else none ]
  timers : t3 ≡ (if 0 == b then t2 else none)

module _ {k timeout limit : ℕ} {now : ℕ → ℕ} {t t1 t2 t3 : Option TimerEntry}
    {c c2 c3 : Option CounterEntry} {a b : ℕ}
    (f : Fate k timeout limit now t t1 t2 t3 c c2 c3 a b) where
  fate_quiet :
      (n : TimerEntry) (x : CounterEntry)
      → t ≡ some n
      → c ≡ some x
      → a ≡ 0
      → x.heartbeat_count < limit
      → (t3 ≡ some n) × (c3 ≡ some x) × (b ≡ 0)
  fate_quiet n x e g s l = (ground arith, ground arith, ground arith)

  fate_missed :
      (n : TimerEntry) (x : CounterEntry)
      → t ≡ some n
      → c ≡ some x
      → a ≡ 1
      → x.heartbeat_count + 1 < limit
      → (c3 ≡ some (more_missed 1 x))
        × (b ≡ 0)
        × ((round : ℕ) × (t3
              ≡ some (record { id = k; expires = now round + timeout * ms; cb = timeout_func })))
  fate_missed n x e g s l =
      let (round, restarted) = f.again (ground arith) in
      (ground arith, ground arith, (round, ground arith))

  fate_given_up :
      (n : TimerEntry) (x : CounterEntry)
      → t ≡ some n
      → c ≡ some x
      → limit ≤ x.heartbeat_count + a
      → (t3 ≡ none) × (c3 ≡ none) × (b ≡ 1)
  fate_given_up n x e g l =
      let counted : c2 ≡ some (more_missed a x) = f.counts ∙ ap (Option.map (more_missed a)) g in
      let over : ltb (x.heartbeat_count + a) limit ≡ false = ground arith in
      let gone : c3 ≡ none = f.kept ∙ rw (counted, over) refl in
      let told : b ≡ 1 = elim f.given [ inl (s, z) ↦ absurd (ground arith) | inr (s, r, z) ↦ z ] in
      (ground (arith, f.timers), gone, told)

  fate_unknown : c ≡ none → ¬ (t ≢ none) → (t3 ≡ none) × (c3 ≡ none) × (b ≡ 0)
  fate_unknown e g = elim (Option-cases t) [
    | inl m ↦ (ground arith, ground arith, ground arith)
    | inr (x, m) ↦ absurd (ground arith)
  ]

  fate_under_limit : (x : CounterEntry) → c3 ≡ some x → x.heartbeat_count < limit
  fate_under_limit x e = elim (Option-cases c2) [
    | inl m ↦ absurd (ground (arith, f.kept))
    | inr (y, m) ↦ ground (arith, f.kept)
  ]

  fate_lost : is_known c3 ≡ (if 0 == b then is_known c else false)
  fate_lost = elim (Option-cases c) [
    | inl m ↦ ground (arith, f.given, f.counts)
    | inr (y, m) ↦ ground (arith, f.given, f.counts)
  ]

none_differs : (n : TimerEntry) → none ≢ some n
none_differs n = λ e. cc

-- The validity of the state after a round, from the fates of all sessions.
module _ {timeout limit : ℕ} {now : ℕ → ℕ} (t t1 t2 t3 : Timers) (c c2 c3 : Counters) (a b : ℕ → ℕ)
    (v : ArePaired t c)
    (f : (k : ℕ)
      → Fate k timeout limit now
          (lookup t k)
          (lookup t1 k)
          (lookup t2 k)
          (lookup t3 k)
          (lookup c k)
          (lookup c2 k)
          (lookup c3 k)
          (a k)
          (b k)) where
  fates_times_out : (k : ℕ) (n : TimerEntry) → lookup t3 k ≡ some n → n.cb ≡ timeout_func
  fates_times_out k n e = elim (Bool-cases (0 == a k)) [
    | inl s ↦ ground (arith, (f k).timers, (f k).others, (f k).left, v.times_out k n)
    | inr s ↦ let (round, restarted) = (f k).again (ground arith) in ground (arith, (f k).timers)
  ]

  fates_reaches : (k : ℕ) (x : CounterEntry) → lookup c3 k ≡ some x → x.cb ≡ heartbeat_reach
  fates_reaches k x e = elim (Option-cases (lookup c k)) [
    | inl m ↦ ground (arith, (f k).given, (f k).counts)
    | inr (y, m) ↦ ground (arith, (f k).given, (f k).counts, v.reaches k y m)
  ]

  fates_timed : (k : ℕ) → lookup c3 k ≢ none → lookup t3 k ≢ none
  fates_timed k h = elim (Option-cases (lookup c k)) [
    | inl m ↦ absurd (ground (arith, (f k).given, (f k).counts))
    | inr (y, m) ↦ elim (Bool-cases (0 == a k)) [
      | inl s ↦ ground (arith, (f k).timers, (f k).others, (f k).left, (f k).given, v.timed k)
      | inr s ↦
          let (round, restarted) = (f k).again (ground arith) in
          ground (arith, (f k).timers, (f k).given)
    ]
  ]

  fates_counted : (k : ℕ) → lookup t3 k ≢ none → lookup c3 k ≢ none
  fates_counted k h = elim (Option-cases (lookup c k)) [
    | inl m ↦ absurd (ground (arith, (f k).timers, (f k).others, (f k).left, v.counted k))
    | inr (y, m) ↦ ground (arith, (f k).timers, (f k).given, (f k).counts)
  ]

module _ {W : Type 0} (reach : ℕ → W → W) (clock now : ℕ → ℕ) (c : HeartbeatCounter) (w : W) where
  -- After the timers, before the counters.
  record Middle (v : IsValid c) (t2 : Timers) (c2 : Counters) : Type 0 where
    between : Timers
    fired : List TimerEntry
    expired : Expiry.Expired c.m_timer v.timer clock between fired
    restarted : Restarted c.m_timeout now between c.m_counter fired (t2, c2)

  module _ (v : IsValid c) (t2 t3 : Timers) (c2 c3 : Counters) (w' : W) (mid : Middle v t2 c2) where
    Middle-reaches : (j : ℕ) (n : CounterEntry) → lookup c2 j ≡ some n → n.cb ≡ heartbeat_reach
    Middle-reaches j n e = elim (Option-cases (lookup c.m_counter j)) [
      | inl m ↦ ground (arith, mid.restarted.counts j)
      | inr (y, m) ↦ ground (arith, mid.restarted.counts j, v.reaches j y m)
    ]

    Middle-fate :
        (k : ℕ) (n : TimerEntry)
        → lookup c.m_timer k ≡ some n
        → ((times k mid.fired ≡ 0) × (clock (length mid.fired) + 1000000 ≤ n.expires))
          ⊎ ((times k mid.fired ≡ 1)
              × ((m : ℕ) × (m < length mid.fired) × (n.expires < clock m + 1000000)))
    Middle-fate k n e =
        elim (Drains-cases (lasts clock) mid.fired 0 k (lookup c.m_timer) (lookup mid.between)
          mid.expired.in_turn) [
            | inl (s, z) ↦ elim (Bool-cases (leb (clock (length mid.fired) + 1000000) n.expires)) [
              | inl p ↦ inl (z, ground arith)
              | inr p ↦
                  absurd (none_differs n (sym (mid.expired.gone k n e (ground arith)) ∙ s ∙ e))
            ]
            | inr (x, m, there, s, l, u, g, z) ↦ inr (z, (m, omega arith, ground arith))
          ]

    -- What the loop over the counters did.
    abbrev AtLimit : Type 0
    AtLimit =
        Limits.Ticked c2 mid.restarted.counter c.max_heartbeat (call_reach reach)
          (λ n. n.cb ≡ heartbeat_reach) (λ s. Methods.IsValid s.0) (Reached reach) (t2, w) c3
          (t3, w')

    Middle-Fate :
        (li : AtLimit) (k : ℕ)
        → Fate k c.m_timeout c.max_heartbeat now
            (lookup c.m_timer k)
            (lookup mid.between k)
            (lookup t2 k)
            (lookup t3 k)
            (lookup c.m_counter k)
            (lookup c2 k)
            (lookup c3 k)
            (times k mid.fired)
            (times k li.fired)
    Middle-Fate li k = record {
      left =
          elim (Drains-cases (lasts clock) mid.fired 0 k (lookup c.m_timer) (lookup mid.between)
            mid.expired.in_turn) [
              | inl (s, z) ↦ inl (s, z)
              | inr (x, m, there, s, l, u, g, z) ↦ inr (λ e. ground arith, g, z)
            ];
      counts = mid.restarted.counts k;
      others = mid.restarted.others k;
      again = mid.restarted.again k;
      given =
          elim (Drains-cases (λ _ (top : CounterEntry). ltb top.heartbeat_count c.max_heartbeat)
            li.fired 0 k (lookup c2) (lookup c3) li.in_turn) [
              | inl (s, z) ↦ inl (s, z)
              | inr (x, m, there, s, l, u, g, z) ↦ inr (λ e. ground arith, g, z)
            ];
      kept = li.left k;
      timers = (Runs-Reached reach li.fired (t2, w) (t3, w') li.calls).0 k;
    }

    Middle-Ticked :
        AtLimit → Ticked reach clock now c w (record c { m_timer = t3; m_counter = c3 }) w'
    Middle-Ticked li =
        let f = Middle-Fate li in
        let a = λ (k : ℕ). times k mid.fired in
        let b = λ (k : ℕ). times k li.fired in
        record {
          valid = record {
            timer = li.good;
            counter = li.valid;
            times_out = fates_times_out c.m_timer mid.between t2 t3 c.m_counter c2 c3 a b v f;
            reaches = fates_reaches c.m_timer mid.between t2 t3 c.m_counter c2 c3 a b v f;
            timed = fates_timed c.m_timer mid.between t2 t3 c.m_counter c2 c3 a b v f;
            counted = fates_counted c.m_timer mid.between t2 t3 c.m_counter c2 c3 a b v f;
          };
          limits = (refl, refl);
          fired = mid.fired;
          between = mid.between;
          in_turn = mid.expired.in_turn;
          fate = Middle-fate;
          dead = li.fired;
          told = (Runs-Reached reach li.fired (t2, w) (t3, w') li.calls).1;
          under_limit = λ k x e. fate_under_limit (f k) x e;
          quiet = λ k n x e g p l. fate_quiet (f k) n x e g p l;
          missed_one = λ k n x e g p l. fate_missed (f k) n x e g p l;
          given_up = λ k n x e g l. fate_given_up (f k) n x e g l;
          unknown = λ k e. fate_unknown (f k) e (λ h. v.counted k h e);
          lost = λ k. fate_lost (f k);
        }

  -- From a valid state, whatever the clocks read, `tick` ends, and the state is valid again. A
  -- session's timer ran out once, with less than a millisecond left at one of the readings, or it
  -- did not, with at least a millisecond left at the last reading. A session whose timer did not run
  -- out and whose count is below the limit keeps both; one whose timer ran out has missed one
  -- heartbeat more, and while that is below the limit, its timer starts again; and one at the limit
  -- loses both entries. The server's callback ran, in order, once for each of the latter, and for
  -- no other session.
  pub heartbeat_tick_lem :
      IsValid c
      → Returns (λ (c', w'). Ticked reach clock now c w c' w') (tick reach clock now (c, w))
  unfolding tick HeapTimer.tick
  heartbeat_tick_lem v =
      Returns-bind
        (Returns-bind (Expiry.take_expired_lem c.m_timer v.timer clock) λ (t1, fired) ex.
          Returns-map
            (call_all-Restarted c.m_timeout now fired 0 t1 c.m_counter
              (Drains-All (lasts clock) TimedOut fired 0 (lookup c.m_timer) (lookup t1) v.times_out
                ex.in_turn)
              ex.valid v.counter)
            λ (t2, c2) re.
              let result : Middle v t2 c2 = record {
                between = t1;
                fired = fired;
                expired = ex;
                restarted = re;
              } in
              result)
        λ (t2, c2) mid.
          Returns-bind
            (Limits.count_tick_lem c2 mid.restarted.counter c.max_heartbeat (call_reach reach)
              (λ n. n.cb ≡ heartbeat_reach) (λ s. Methods.IsValid s.0) (Reached reach) (t2, w)
              (λ n u bound tv. call_reach-Reached reach n u bound tv)
              (Middle-reaches v t2 t2 c2 c2 w mid) mid.restarted.timer)
            λ (c3, (t3, w')) li. returns (Middle-Ticked v t2 t3 c2 c3 w' mid li)
