-- ===== src/Acceptor/Listening.antt =====
-- The channel of the listening socket of src/tcp/Acceptor.cpp, from the constructor to the destructor.
use dwt_src.Prelude.{ℕ, ◌≡◌, refl, ap, subst, true, none, Returns, returns, Returns-bind}
use dwt_src.Channel.{new_channel, is_reading}
use dwt_src.EpollPoller.{Epoll}
use dwt_src.EpollPoller.Registration.{IsPlaced}
use dwt_src.EventLoop.{EventLoop}
use dwt_src.EventLoop.Channels.{
  Moved-IsPlaced, make, enables_reading, disables_all, removes, channel_call_lem,
}
use dwt_src.Acceptor.{new_acceptor, listen, destroy}

module _ {K F : Type 0} (system : Epoll K) where
  -- On a descriptor that neither the poller nor the system knows, a new acceptor listens, with its
  -- channel watched for reading, and its destructor then takes the channel out of the poller and of
  -- the system again, both without a refusal by the system.
  pub listen_lem :
      (channel_address sockfd : ℕ) (l : EventLoop K F)
      → l.m_poller.m_channels sockfd ≡ none
      → system.watched l.m_poller.kernel sockfd ≡ none
      → Returns
          (λ (a, l').
            (a.m_listening ≡ true)
            × (is_reading a.m_accept_channel ≡ true)
            × IsPlaced system a.m_accept_channel l'.m_poller
            × Returns
                (λ (a', l'').
                  (l''.m_poller.m_channels a.m_accept_channel.m_fd ≡ none)
                  × (system.watched l''.m_poller.kernel a.m_accept_channel.m_fd ≡ none))
                (destroy system (a, l')))
          (listen system (new_acceptor channel_address sockfd, l))
  unfolding listen new_acceptor new_channel make is_reading destroy
  listen_lem channel_address sockfd l unmapped unwatched =
      Returns-bind
        (channel_call_lem system enables_reading (new_channel channel_address sockfd) l
          (record { watch = unwatched; entry = unmapped }))
        λ (channel, l') moved.
          let placed =
            Moved-IsPlaced system (new_channel channel_address sockfd) l _ _ channel l' moved in
          returns (
            refl,
            ap is_reading moved.channel,
            placed,
            Returns-bind (channel_call_lem system disables_all channel l' placed)
                λ (disabled, l'') off.
                  Returns-bind
                    (channel_call_lem system removes disabled l''
                      (Moved-IsPlaced system channel l' _ _ disabled l'' off))
                    λ (removed, l3) gone. returns (
                      subst
                        (λ fd.
                          (l3.m_poller.m_channels fd ≡ none)
                          × (system.watched l3.m_poller.kernel fd ≡ none))
                        (ap (λ ch. ch.m_fd) off.channel) (gone.placed.entry, gone.placed.watch)),
          )
