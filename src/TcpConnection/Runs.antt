-- ===== src/TcpConnection/Runs.antt =====
-- Sequences of `send`, `handleWrite` and `shutdown` of src/tcp/TcpConnection.cpp in the loop's thread.
use mathlib.Core.List.{append_assoc}
use dwt_src.Prelude.{
  append_empty, ℕ, ◌<◌, ◌≡◌, refl, sym, ap, subst, ◌∙◌, Bool, true, false, not, ◌&&◌, ◌||◌, some,
  List, [], ◌∷◌, ◌++◌, arith, inl, inr, Bool-cases, length, take, drop, take-drop, Outcome, ok,
  ◌>>=◌, Returns, returns, Returns-bind, Returns-map,
}
use dwt_src.Bytes.{Bytes}
use dwt_src.EpollPoller.{Epoll}
use dwt_src.TcpConnection.{
  TcpConnection, Loop, is_disconnecting, is_connected, size_modulus, send, handle_write, shutdown,
}
use dwt_src.TcpConnection.Acts.{
  Act, sends, writes, shuts, Short, short_none, short_sends, short_writes, short_shuts, said,
  spoken, said_sends, said_writes, said_none, said_shuts, connected_after,
}
use dwt_src.TcpConnection.Streams.{is_empty, Open}
use dwt_src.TcpConnection.Outputs.{send_in_loop_lem}
use dwt_src.TcpConnection.Drains.{shut_after, drop_none, handle_write_lem, shutdown_lem}

any_shut :
    (last closing shut : Bool)
    → shut ≡ (closing && false)
    → ((last && closing) || shut) ≡ (closing && last)
any_shut last closing shut e = ground arith

shut_kept :
    (n : ℕ) (pending : Bytes) (c : TcpConnection)
    → c.m_socket.write_shut ≡ (is_disconnecting c.m_state && is_empty pending)
    → shut_after n pending c ≡ (is_disconnecting c.m_state && is_empty (drop n pending))
shut_kept n [] c e = e ∙ ap (λ xs. is_disconnecting c.m_state && is_empty xs) (sym (drop_none n))
shut_kept n (byte ∷ pending) c e =
    any_shut (is_empty (drop n (byte ∷ pending))) (is_disconnecting c.m_state) c.m_socket.write_shut
      e

or_false : (b : Bool) → (b || false) ≡ b
or_false b = ground arith

module _ {K : Type 0} (system : Epoll K) where
  unfoldable pub act : Act → TcpConnection × Loop K → Outcome (TcpConnection × Loop K)
  act (sends n message) s = send system true (some n) message s
  act (writes n) s = handle_write system (some n) s
  act shuts s = ok (shutdown true s)

  unfoldable pub run : List Act → TcpConnection × Loop K → Outcome (TcpConnection × Loop K)
  unfolding act
  run [] s = ok s
  run (first ∷ acts) s = do s' ← act first s; run acts s'

  -- A connection that is connected or to be closed; its write side is shut just when it is to be
  -- closed and nothing is pending.
  pub record Good (c : TcpConnection) (l : Loop K) (pending : Bytes) : Type 0 where
    pub still : Open system c l pending
    pub phase : is_connected c.m_state ≡ not (is_disconnecting c.m_state)
    pub shut : c.m_socket.write_shut ≡ (is_disconnecting c.m_state && is_empty pending)

  -- What acts leave: a good connection in this state, whose stream went on by `new`.
  pub record Went (c : TcpConnection) (pending new : Bytes) (connected : Bool) (c' : TcpConnection)
      (l' : Loop K) : Type 0 where
    pub left : Bytes
    pub good : Good c' l' left
    pub stream : c'.m_socket.accepted ++ left ≡ (c.m_socket.accepted ++ pending) ++ new
    pub phase : is_connected c'.m_state ≡ connected

  Good-Went :
      (c : TcpConnection) (l : Loop K) (pending : Bytes)
      → Good c l pending
      → Went c pending [] (is_connected c.m_state) c l
  Good-Went c l pending g = record {
    left = pending;
    good = g;
    stream = sym (append_empty (c.m_socket.accepted ++ pending));
    phase = refl;
  }

  sends_lem :
      (n : ℕ) (message : Bytes) (c : TcpConnection) (l : Loop K) (pending : Bytes)
      → length message < size_modulus
      → Good c l pending
      → Returns
          (λ (c', l').
            Went c pending (spoken (is_connected c.m_state) message) (is_connected c.m_state) c' l')
          (send system true (some n) message (c, l))
  unfolding send
  sends_lem n message c l pending below g = elim (Bool-cases (is_connected c.m_state)) [
    | inl e ↦ rw e (
        Returns-map (send_in_loop_lem system n message c l pending below g.still) λ (c', l') went.
          let connecting : is_disconnecting c.m_state ≡ false = ground (arith, g.phase) in
          record {
            left = went.left;
            good = record {
              still = went.still;
              phase =
                  subst (λ state. is_connected state ≡ not (is_disconnecting state))
                    (sym went.state) g.phase;
              shut =
                  went.shut
                  ∙ g.shut
                  ∙ ap (λ b. b && is_empty pending) connecting
                  ∙ ap (λ b. b && is_empty went.left) (sym connecting)
                  ∙ ap (λ state. is_disconnecting state && is_empty went.left) (sym went.state);
            };
            stream = went.stream;
            phase = ap is_connected went.state ∙ e;
          })
    | inr e ↦ rw e (returns (subst (λ b. Went c pending [] b c l) e (Good-Went c l pending g)))
  ]

  -- A good connection from which the system took the first `n` bytes pending.
  pub record Took (n : ℕ) (c : TcpConnection) (pending : Bytes) (c' : TcpConnection) (l' : Loop K)
      : Type 0 where
    pub good : Good c' l' (drop n pending)
    pub accepted : c'.m_socket.accepted ≡ c.m_socket.accepted ++ take n pending
    pub state : c'.m_state ≡ c.m_state

  pub writes_Took :
      (n : ℕ) (c : TcpConnection) (l : Loop K) (pending : Bytes)
      → Good c l pending
      → Returns (λ (c', l'). Took n c pending c' l') (handle_write system (some n) (c, l))
  writes_Took n c l pending g =
      Returns-map (handle_write_lem system n c l pending g.still) λ (c', l') wrote. record {
        good = record {
          still = wrote.still;
          phase =
              subst (λ state. is_connected state ≡ not (is_disconnecting state)) (sym wrote.state)
                g.phase;
          shut =
              wrote.shut
              ∙ shut_kept n pending c g.shut
              ∙ ap (λ state. is_disconnecting state && is_empty (drop n pending)) (sym wrote.state);
        };
        accepted = wrote.accepted;
        state = wrote.state;
      }

  writes_lem :
      (n : ℕ) (c : TcpConnection) (l : Loop K) (pending : Bytes)
      → Good c l pending
      → Returns
          (λ (c', l'). Went c pending [] (is_connected c.m_state) c' l')
          (handle_write system (some n) (c, l))
  writes_lem n c l pending g = Returns-map (writes_Took n c l pending g) λ (c', l') took. record {
    left = drop n pending;
    good = took.good;
    stream =
        ap (λ xs. xs ++ drop n pending) took.accepted
        ∙ append_assoc c.m_socket.accepted (take n pending) (drop n pending)
        ∙ ap (c.m_socket.accepted ++◌) (sym (take-drop n pending))
        ∙ sym (append_empty (c.m_socket.accepted ++ pending));
    phase = ap is_connected took.state;
  }

  shuts_lem :
      (c : TcpConnection) (l : Loop K) (pending : Bytes)
      → Good c l pending
      → Went c pending [] false (shutdown true (c, l)).0 (shutdown true (c, l)).1
  unfolding shutdown
  shuts_lem c l pending g = elim (Bool-cases (is_connected c.m_state)) [
    | inl e ↦
        subst (λ ((c', l') : TcpConnection × Loop K). Went c pending [] false c' l')
          (sym (shutdown_lem system c l pending g.still e))
          (let unshut : c.m_socket.write_shut ≡ false = ground (arith, g.shut, g.phase) in
            record {
              left = pending;
              good = record {
                still = record {
                  is_open = refl;
                  shows = g.still.shows;
                  placed = g.still.placed;
                  writing = g.still.writing;
                };
                phase = refl;
                shut = ap (λ b. is_empty pending || b) unshut ∙ or_false (is_empty pending);
              };
              stream = sym (append_empty (c.m_socket.accepted ++ pending));
              phase = refl;
            })
    | inr e ↦ rw e (subst (λ b. Went c pending [] b c l) e (Good-Went c l pending g))
  ]

  Went-join :
      (c : TcpConnection) (pending first second : Bytes) (b connected : Bool) (c' : TcpConnection)
      (l' : Loop K) (c'' : TcpConnection) (l'' : Loop K) (went : Went c pending first b c' l')
      → Went c' went.left second connected c'' l''
      → Went c pending (first ++ second) connected c'' l''
  Went-join c pending first second b connected c' l' c'' l'' went more = record {
    left = more.left;
    good = more.good;
    stream =
        more.stream
        ∙ ap (λ xs. xs ++ second) went.stream
        ∙ append_assoc (c.m_socket.accepted ++ pending) first second;
    phase = more.phase;
  }

  -- From a connection that is connected or to be closed, with its write side shut just when it is to
  -- be closed and nothing is pending, any sequence of `send`, `handleWrite` and `shutdown` in the
  -- loop's thread, with messages that fit a `size_t` and writes that do not fail, returns and leaves
  -- such a connection; the bytes that the system accepted, then those pending, are those of before,
  -- then the messages sent up to the first shutdown, in order.
  pub run_lem :
      (acts : List Act) (c : TcpConnection) (l : Loop K) (pending : Bytes)
      → Short acts
      → Good c l pending
      → Returns
          (λ (c', l').
            Went c pending
              (said (is_connected c.m_state) acts)
              (connected_after (is_connected c.m_state) acts)
              c'
              l')
          (run acts (c, l))
  unfolding run act
  run_lem [] c l pending short_none g =
      returns (rw (said_none (is_connected c.m_state)) (Good-Went c l pending g))
  run_lem (sends n message ∷ acts) c l pending (short_sends below short) g =
      rw (said_sends (is_connected c.m_state) n message acts) (
        Returns-bind (sends_lem n message c l pending below g) λ (c', l') went.
          Returns-map (run_lem acts c' l' went.left short went.good) λ (c'', l'') more.
            Went-join c pending _ _ _ _ c' l' c'' l'' went (
              subst (λ b. Went c' went.left (said b acts) (connected_after b acts) c'' l'')
                went.phase more))
  run_lem (writes n ∷ acts) c l pending (short_writes short) g =
      rw (said_writes (is_connected c.m_state) n acts) (
        Returns-bind (writes_lem n c l pending g) λ (c', l') went.
          Returns-map (run_lem acts c' l' went.left short went.good) λ (c'', l'') more.
            Went-join c pending _ _ _ _ c' l' c'' l'' went (
              subst (λ b. Went c' went.left (said b acts) (connected_after b acts) c'' l'')
                went.phase more))
  run_lem (shuts ∷ acts) c l pending (short_shuts short) g =
      let went = shuts_lem c l pending g in
      let c' = (shutdown true (c, l)).0 in
      let l' = (shutdown true (c, l)).1 in
      rw (said_shuts (is_connected c.m_state) acts) (
        Returns-map (run_lem acts c' l' went.left short went.good) λ (c'', l'') more.
          Went-join c pending [] [] _ _ c' l' c'' l'' went (
            subst (λ b. Went c' went.left (said b acts) (connected_after b acts) c'' l'') went.phase
              more))
