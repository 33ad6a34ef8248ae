-- ===== src/EventLoopThreadPool/Turns.antt =====
-- A sequence of calls of `getNextLoop` of src/tcp/EventLoopThreadPool.cpp.
use dwt_src.Prelude.{
  ◌>>=◌, Bool-cases, inl, inr, ◌∙◌, ℕ, zero, suc, ◌+◌, ◌%◌, ◌<◌, ◌≡◌, refl, ap, false, List, [],
  ◌∷◌, arith, ◌==◌, if◌then◌else◌, length, get_or, get_elem?-get_or, Outcome, ok, Returns, returns,
  Returns-bind,
}
use native.Mathlib.Nat.{mod-lt, mod_self, mod-eq_of_lt}
use dwt_src.EventLoopThreadPool.{EventLoopThreadPool, get_next_loop}

-- The loops that `n` calls of `getNextLoop` return.
unfoldable pub next_loops : ℕ → EventLoopThreadPool → Outcome (EventLoopThreadPool × List ℕ)
next_loops zero p = ok (p, [])
next_loops (suc n) p = do
  (p', loop) ← get_next_loop p
  (p'', loops) ← next_loops n p'
  ok (p'', loop ∷ loops)

-- The loops from position `i` on, in turn, and the first again after the last.
unfoldable pub in_turn : ℕ → List ℕ → ℕ → List ℕ
in_turn zero loops i = []
in_turn (suc n) loops i =
    get_or loops i 0 ∷ in_turn n loops (if i + 1 == length loops then 0 else i + 1)

wraps : (i len : ℕ) → i < len → (i + 1) % len ≡ (if i + 1 == len then 0 else i + 1)
wraps i len p = elim (Bool-cases (i + 1 == len)) [
  | inl e ↦ let last : i + 1 ≡ len = ground arith in rw (e, last) (mod_self len)
  | inr e ↦ rw (e, mod-eq_of_lt {n = i + 1} {m = len} (ground arith)) refl
]

-- In a pool of at least one thread whose next position is one of a loop, any number of calls of
-- `getNextLoop` return, hand out the loops in turn, and leave the loops and a position of a loop.
pub next_loops_lem :
    (n : ℕ) (p : EventLoopThreadPool)
    → p.m_next < length p.m_loops
    → Returns
        (λ (p', handed).
          (handed ≡ in_turn n p.m_loops p.m_next)
          × (p'.m_loops ≡ p.m_loops)
          × (p'.m_next < length p.m_loops))
        (next_loops n p)
unfolding next_loops in_turn get_next_loop
next_loops_lem zero p inside = returns (refl, refl, inside)
next_loops_lem (suc n) p inside =
    let some_loops : (length p.m_loops == 0) ≡ false = ground arith in
    let next : ℕ = (p.m_next + 1) % length p.m_loops in
    rw (some_loops, get_elem?-get_or p.m_loops p.m_next 0 inside)
      (Returns-bind
        (next_loops_lem n (record p { m_next = next }) (mod-lt (p.m_next + 1) (omega arith)))
        λ (p', handed) (same, kept, ends). returns (
          ap (get_or p.m_loops p.m_next 0 ∷◌)
              (same ∙ ap (in_turn n p.m_loops) (wraps p.m_next (length p.m_loops) inside)),
          kept,
          ends,
        ))
