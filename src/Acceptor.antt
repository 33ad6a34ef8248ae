-- ===== src/Acceptor.antt =====
-- src/tcp/Acceptor.h and src/tcp/Acceptor.cpp: the listening socket. What `accept` returns is an
-- argument, and the callback of a new connection acts on a state `S` of its owner.
pub mod Listening
use dwt_src.Prelude.{ℕ, Bool, true, false, Option, none, some, Outcome, ok, ◌>>=◌}
use dwt_src.Channel.{Channel, new_channel}
use dwt_src.EpollPoller.{Epoll}
use dwt_src.EventLoop.{EventLoop, enable_reading, disable_all, remove_channel}

pub record Acceptor : Type 0 where
  pub m_accept_channel : Channel
  pub m_listening : Bool

unfoldable pub new_acceptor : ℕ → ℕ → Acceptor
unfolding new_channel
new_acceptor channel_address sockfd = record {
  m_accept_channel = new_channel channel_address sockfd;
  m_listening = false;
}

module _ {K F : Type 0} (system : Epoll K) where
  unfoldable pub listen : Acceptor × EventLoop K F → Outcome (Acceptor × EventLoop K F)
  listen (a, l) = do
    (channel, l') ← enable_reading system a.m_accept_channel l
    ok (record { m_accept_channel = channel; m_listening = true }, l')

  -- The destructor.
  unfoldable pub destroy : Acceptor × EventLoop K F → Outcome (Acceptor × EventLoop K F)
  destroy (a, l) = do
    (disabled, l') ← disable_all system a.m_accept_channel l
    (removed, l'') ← remove_channel system disabled l'
    ok (record a { m_accept_channel = removed }, l'')

-- `handleRead`: a descriptor that was accepted goes to the callback, or is closed when there is none; a
-- failure is logged.
unfoldable pub handle_read {ℓ} :
    {S : Type ℓ} → Option (ℕ → S → Outcome S) → (ℕ → S → S) → Option ℕ → S → Outcome S
handle_read callback close none s = ok s
handle_read none close (some connfd) s = ok (close connfd s)
handle_read (some callback) close (some connfd) s = callback connfd s
