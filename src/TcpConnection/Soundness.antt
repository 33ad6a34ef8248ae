-- ===== src/TcpConnection/Soundness.antt =====
-- An event of a connection of src/tcp/TcpConnection.cpp, through its channel to its handlers, whatever
-- the callbacks of its user do.
use dwt_src.Prelude.{
  ℕ, ◌≡◌, sym, ap, subst, ◌∙◌, Bool, true, false, not, ◌&&◌, ◌||◌, inl, inr, Bool-cases, some, [],
  ◌∷◌, ◌++◌, drop, Outcome, ok, ◌>>=◌, Returns, returns, Returns-bind,
}
use dwt_src.Bytes.{Bytes}
use dwt_src.Buffer.Contents.{Shows}
use dwt_src.Buffer.Writes.{read_fd_lem}
use dwt_src.Channel.{Events, is_writing, handle_event, handle_event_with_guard, call_if}
use dwt_src.EpollPoller.{Epoll}
use dwt_src.EpollPoller.Registration.{IsPlaced}
use dwt_src.EventLoop.Channels.{make, disables_all, channel_call_lem, Moved-IsPlaced}
use dwt_src.TcpConnection.{TcpConnection, Loop, is_disconnected, handle_write}
use dwt_src.TcpConnection.Handlers.{
  Callbacks, handle_close, handle_read, handle_error, channel_callbacks, connection_event,
}
use dwt_src.TcpConnection.Streams.{is_empty}
use dwt_src.TcpConnection.Drains.{handle_write_lem}

module _ {K : Type 0} (system : Epoll K) where
  -- What holds of a connection between the calls: its channel has its place in the poller, its two
  -- buffers hold bytes, and it waits to write just when it is not disconnected and has something to
  -- write.
  pub record Sound (c : TcpConnection) (l : Loop K) : Type 0 where
    pub pending : Bytes
    pub received : Bytes
    pub placed : IsPlaced system c.m_channel l.m_poller
    pub output : Shows c.m_output_buffer pending
    pub input : Shows c.m_input_buffer received
    pub writing :
        is_writing c.m_channel ≡ (not (is_disconnected c.m_state) && not (is_empty pending))

module _ {K W : Type 0} (system : Epoll K) where
  abbrev pub IsSound : TcpConnection × Loop K × W → Type 0
  IsSound (c, l, w) = Sound system c l

  -- The call returns, and leaves a sound connection.
  abbrev pub Keeps : (TcpConnection × Loop K × W → Outcome (TcpConnection × Loop K × W)) → Type 0
  Keeps f = (s : TcpConnection × Loop K × W) → IsSound s → Returns IsSound (f s)

  write_Keeps :
      (n : ℕ)
      → Keeps (λ (c, l, w). do (c', l') ← handle_write system (some n) (c, l); ok (c', l', w))
  unfolding handle_write
  write_Keeps n (c, l, w) sound = elim (Bool-cases (is_disconnected c.m_state)) [
    | inl e ↦
        let silent : is_writing c.m_channel ≡ false =
          sound.writing ∙ ap (λ b. not b && not (is_empty sound.pending)) e in
        rw silent (returns sound)
    | inr e ↦
        Returns-bind
          (handle_write_lem system n c l sound.pending (record {
            is_open = e;
            shows = sound.output;
            placed = sound.placed;
            writing = sound.writing ∙ ap (λ b. not b && not (is_empty sound.pending)) e;
          }))
          λ (c', l') wrote. returns (record {
            pending = drop n sound.pending;
            received = sound.received;
            placed = wrote.still.placed;
            output = wrote.still.shows;
            input = subst (λ b. Shows b sound.received) (sym wrote.input) sound.input;
            writing =
                wrote.still.writing
                ∙ ap (λ b. not b && not (is_empty (drop n sound.pending)))
                    (sym wrote.still.is_open);
          })
  ]

  module _ (callbacks : Callbacks (TcpConnection × Loop K × W))
      (connection : Keeps callbacks.m_connection_callback)
      (message : Keeps callbacks.m_message_callback)
      (close : Keeps callbacks.m_close_callback) where
    close_Keeps : Keeps (handle_close system callbacks)
    unfolding handle_close make is_writing
    close_Keeps (c, l, w) sound =
        Returns-bind (channel_call_lem system disables_all c.m_channel l sound.placed)
          λ (channel, l') moved.
            Returns-bind
              (connection (_, l', w)
                (record {
                  pending = sound.pending;
                  received = sound.received;
                  placed = Moved-IsPlaced system c.m_channel l _ _ channel l' moved;
                  output = sound.output;
                  input = sound.input;
                  writing = ap is_writing moved.channel;
                }))
              λ s. close s

    read_Keeps : (received : Bytes) → Keeps (handle_read system callbacks (some received))
    unfolding handle_read
    read_Keeps [] (c, l, w) sound =
        Returns-bind (read_fd_lem c.m_input_buffer sound.received [] sound.input) λ input shows.
          close_Keeps (_, l, w)
            (record {
              pending = sound.pending;
              received = sound.received ++ [];
              placed = sound.placed;
              output = sound.output;
              input = shows;
              writing = sound.writing;
            })
    read_Keeps (byte ∷ bytes) (c, l, w) sound =
        Returns-bind (read_fd_lem c.m_input_buffer sound.received (byte ∷ bytes) sound.input)
          λ input shows.
            message (_, l, w)
              (record {
                pending = sound.pending;
                received = sound.received ++ (byte ∷ bytes);
                placed = sound.placed;
                output = sound.output;
                input = shows;
                writing = sound.writing;
              })

    -- A callback of the channel, called or not.
    call_Keeps :
        (test : Bool) (f : TcpConnection × Loop K × W → Outcome (TcpConnection × Loop K × W))
        → Keeps f
        → Keeps (call_if test (some f))
    call_Keeps false f keeps s sound = returns sound
    call_Keeps true f keeps s sound = keeps s sound

    guarded_Keeps :
        (received : Bytes) (n : ℕ) (happened : Events)
        → Keeps (
            handle_event_with_guard
              (channel_callbacks system callbacks (some received) (some n))
              happened)
    unfolding handle_event_with_guard channel_callbacks handle_error
    guarded_Keeps received n happened s sound =
        let hung_up = happened.epollhup && not happened.epollin in
        let readable = happened.epollin || happened.epollpri in
        Returns-bind (call_Keeps hung_up (handle_close system callbacks) close_Keeps s sound)
          λ s1 sound1.
            Returns-bind
              (call_Keeps happened.epollerr (handle_error system callbacks)
                (λ s' sound'. returns sound') s1 sound1)
              λ s2 sound2.
                Returns-bind
                  (call_Keeps readable (handle_read system callbacks (some received))
                    (read_Keeps received) s2 sound2)
                  λ s3 sound3.
                    call_Keeps happened.epollout
                      (λ (c, l, w). do
                        (c', l') ← handle_write system (some n) (c, l)
                        ok (c', l', w))
                      (write_Keeps n) s3 sound3

    -- When the callbacks of the user return and leave every sound connection sound, then an event of
    -- a sound connection, with whatever bits were reported, whatever bytes are read and any write that
    -- does not fail, returns and leaves the connection sound.
    pub connection_event_safe :
        (received : Bytes) (n : ℕ) (c : TcpConnection) (l : Loop K) (w : W)
        → Sound system c l
        → Returns IsSound (connection_event system callbacks (some received) (some n) (c, l, w))
    unfolding connection_event handle_event
    connection_event_safe received n c l w sound =
        elim (Bool-cases (c.m_channel.m_tied && not true)) [
          | inl e ↦ rw e (returns sound)
          | inr e ↦ rw e (guarded_Keeps received n c.m_channel.m_revents (c, l, w) sound)
        ]
