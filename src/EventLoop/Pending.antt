-- ===== src/EventLoop/Pending.antt =====
-- `doPendingFunctors` of src/tcp/EventLoop.cpp with functors that use the loop themselves.
use mathlib.Core.List.{append_assoc}
use dwt_src.Prelude.{
  append_empty, ◌≡◌, ◌≢◌, refl, sym, ap, ◌∙◌, Bool, true, false, List, [], ◌∷◌, ◌++◌, Outcome,
  Returns, returns, Returns-bind, Returns-map,
}
use dwt_src.EpollPoller.{EpollPoller}
use dwt_src.EventLoop.{
  EventLoop, wakeup, push_functor, queue_in_loop, set_quit, quit, call_all, swap_functors,
  end_functors, do_pending_functors,
}

-- What a functor may do with the loop whose thread runs it: it queues functors, changes the poller and
-- quits. The list holds the functors that it queued.
pub data Uses {K F : Type 0} : List F → EventLoop K F → EventLoop K F → Type 0 where
  nothing : {l : EventLoop K F} → Uses [] l l
  queues :
      {queued : List F} {l l' : EventLoop K F} (f : F)
      → Uses queued l l'
      → Uses (queued ++ (f ∷ [])) l (queue_in_loop true f l')
  changes_poller :
      {queued : List F} {l l' : EventLoop K F} (p : EpollPoller K)
      → Uses queued l l'
      → Uses queued l (record l' { m_poller = p })
  quits : {queued : List F} {l l' : EventLoop K F} → Uses queued l l' → Uses queued l (quit true l')

module _ {F : Type 0} where
  -- The functors that all of `funcs` queue, in order.
  abbrev pub all_queued : (F → List F) → List F → List F
  all_queued queued [] = []
  all_queued queued (f ∷ funcs) = queued f ++ all_queued queued funcs

  joined_wakes :
      (first second : List F) {between after : Bool}
      → (first ≢ [] → between ≡ true)
      → (between ≡ true → after ≡ true)
      → (second ≢ [] → after ≡ true)
      → (first ++ second) ≢ []
      → after ≡ true
  joined_wakes [] second a stays b some_queued = b some_queued
  joined_wakes (f ∷ first) second a stays b some_queued = stays (a (λ e. cc))

module _ {K F : Type 0} where
  -- While the functors run: those queued are behind the pending ones, and a wakeup was written if
  -- there are any.
  record Kept (queued : List F) (l l' : EventLoop K F) : Type 0 where
    pending : l'.m_pending_functors ≡ l.m_pending_functors ++ queued
    calling : l'.m_calling_pending_functors ≡ true
    stays : l.wakeup_readable ≡ true → l'.wakeup_readable ≡ true
    wakes : queued ≢ [] → l'.wakeup_readable ≡ true

  Uses-Kept :
      {queued : List F} {l l' : EventLoop K F}
      → Uses queued l l'
      → l.m_calling_pending_functors ≡ true
      → Kept queued l l'
  unfolding queue_in_loop push_functor wakeup quit set_quit
  Uses-Kept (nothing {l}) calling = record {
    pending = sym (append_empty l.m_pending_functors);
    calling = calling;
    stays = λ readable. readable;
    wakes = λ some_queued. absurd (some_queued refl);
  }
  Uses-Kept (queues {queued} {l} f uses) calling =
      let kept = Uses-Kept uses calling in
      rw kept.calling (record {
        pending =
            ap (λ fs. fs ++ (f ∷ [])) kept.pending
            ∙ append_assoc l.m_pending_functors queued (f ∷ []);
        calling = refl;
        stays = λ readable. refl;
        wakes = λ some_queued. refl;
      })
  Uses-Kept (changes_poller p uses) calling =
      let kept = Uses-Kept uses calling in
      record {
        pending = kept.pending;
        calling = kept.calling;
        stays = kept.stays;
        wakes = kept.wakes;
      }
  Uses-Kept (quits uses) calling =
      let kept = Uses-Kept uses calling in
      record {
        pending = kept.pending;
        calling = kept.calling;
        stays = kept.stays;
        wakes = kept.wakes;
      }

  Kept-join :
      {first second : List F} {l l' l'' : EventLoop K F}
      → Kept first l l'
      → Kept second l' l''
      → Kept (first ++ second) l l''
  Kept-join {first} {second} {l} a b = record {
    pending =
        b.pending
        ∙ ap (λ fs. fs ++ second) a.pending
        ∙ append_assoc l.m_pending_functors first second;
    calling = b.calling;
    stays = λ readable. b.stays (a.stays readable);
    wakes = joined_wakes first second a.wakes b.stays b.wakes;
  }

  call_all_lem :
      {W : Type 0} (call : F → EventLoop K F × W → Outcome (EventLoop K F × W))
      (queued : F → List F)
      → ((f : F) (l : EventLoop K F) (w : W)
          → Returns (λ (l', w'). Uses (queued f) l l') (call f (l, w)))
      → (funcs : List F) (l : EventLoop K F) (w : W) → l.m_calling_pending_functors ≡ true
      → Returns (λ (l', w'). Kept (all_queued queued funcs) l l') (call_all call funcs (l, w))
  unfolding call_all
  call_all_lem call queued uses [] l w calling = returns (Uses-Kept (nothing {l = l}) calling)
  call_all_lem call queued uses (f ∷ funcs) l w calling = Returns-bind (uses f l w) λ (l', w') used.
      let kept = Uses-Kept used calling in
      Returns-map (call_all_lem call queued uses funcs l' w' kept.calling)
        λ (l'', w'') others. Kept-join kept others

  -- When every functor returns and does no more with the loop than a functor may, then
  -- `doPendingFunctors` returns; the functors that the pending ones queued, and they alone, are
  -- pending afterwards, in order, for the next round; when there are any, the event descriptor is
  -- readable, so that the next poll does not wait.
  pub do_pending_functors_lem :
      {W : Type 0} (call : F → EventLoop K F × W → Outcome (EventLoop K F × W))
      (queued : F → List F) (l : EventLoop K F) (w : W)
      → ((f : F) (l : EventLoop K F) (w : W)
          → Returns (λ (l', w'). Uses (queued f) l l') (call f (l, w)))
      → Returns
          (λ (l', w').
            (l'.m_pending_functors ≡ all_queued queued l.m_pending_functors)
            × (l'.m_calling_pending_functors ≡ false)
            × (l'.m_pending_functors ≢ [] → l'.wakeup_readable ≡ true))
          (do_pending_functors call (l, w))
  unfolding do_pending_functors swap_functors end_functors
  do_pending_functors_lem call queued l w uses =
      Returns-bind
        (call_all_lem call queued uses l.m_pending_functors
          (record l { m_calling_pending_functors = true; m_pending_functors = [] }) w refl)
        λ (l', w') kept.
          returns
            (kept.pending, refl, λ some_pending. kept.wakes (λ e. some_pending (kept.pending ∙ e)))
