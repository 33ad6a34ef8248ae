-- ===== src/EpollPoller/Polling.antt =====
-- `poll` of src/tcp/EpollPoller.cpp on what `epoll_wait` returns.
use mathlib.Core.List.{append_assoc}
use dwt_src.Prelude.{
  append_empty, ℕ, ◌*◌, ◌<◌, ◌≤◌, ◌≡◌, refl, sym, ap, ◌∙◌, true, Option, none, some, inl, inr,
  Bool-cases, List, [], ◌∷◌, ◌++◌, map, arith, ◌==◌, leb, if◌then◌else◌, length, Outcome, ok, fault,
  Returns, returns, Returns-if,
}
use dwt_src.Channel.{Events, Channel, set_revents}
use dwt_src.EpollPoller.{EpollPoller}

-- Each channel at its address.
abbrev pub Channels : Type 0
Channels = ℕ → Channel

-- `channel->set_revents`
abbrev pub set_at : ℕ → Events → Channels → Channels
unfolding set_revents
set_at address revents channels other =
    if other == address then set_revents revents (channels other) else channels other

-- `fillActiveChannels` on the events of the array, each the pointer of a channel and its bits.
unfoldable pub fill_active_channels : List (ℕ × Events) → Channels → List ℕ → Channels × List ℕ
fill_active_channels [] channels active = (channels, active)
fill_active_channels ((address, revents) ∷ events) channels active =
    fill_active_channels events (set_at address revents channels) (active ++ (address ∷ []))

-- `poll`, with the events that `epoll_wait` stored, or `none` for its -1. The system stores no more
-- than the size of the array that it is given; more would be a fault.
unfoldable pub poll :
    {K : Type 0}
    → Option (List (ℕ × Events))
    → Channels
    → List ℕ
    → EpollPoller K
    → Outcome (EpollPoller K × (Channels × List ℕ))
unfolding fill_active_channels
poll none channels active p = ok (p, (channels, active))
poll (some []) channels active p = ok (p, (channels, active))
poll (some (event ∷ events)) channels active p =
    let filled = fill_active_channels (event ∷ events) channels active in
    let num_events : ℕ = length (event ∷ events) in
    if leb num_events p.m_events_size
    then (if num_events == p.m_events_size
        then ok (record p { m_events_size = p.m_events_size * 2 }, filled)
        else ok (p, filled))
    else fault

-- What was reported last of the channel at `address`, if anything.
abbrev pub last_revents : ℕ → List (ℕ × Events) → Events → Events
last_revents address [] revents = revents
last_revents address ((other, reported) ∷ events) revents =
    last_revents address events (if address == other then reported else revents)

set_at-same :
    (other : ℕ) (reported : Events) (channels : Channels) (address : ℕ)
    → set_at other reported channels address
      ≡ set_revents
          (if address == other then reported else (channels address).m_revents)
          (channels address)
unfolding set_revents
set_at-same other reported channels address = elim (Bool-cases (address == other)) [
  | inl e ↦ rw e refl
  | inr e ↦ rw e refl
]

fill_lem :
    (events : List (ℕ × Events)) (channels : Channels) (active : List ℕ)
    → ((fill_active_channels events channels active).1
        ≡ active ++ map (λ (address, revents). address) events)
      × ((address : ℕ)
          → (fill_active_channels events channels active).0 address
            ≡ set_revents
                (last_revents address events (channels address).m_revents)
                (channels address))
unfolding fill_active_channels set_revents
fill_lem [] channels active = (sym (append_empty active), λ address. refl)
fill_lem ((other, reported) ∷ events) channels active =
    let (listed, filled) =
      fill_lem events (set_at other reported channels) (active ++ (other ∷ [])) in
    (
      listed ∙ append_assoc active (other ∷ []) (map (λ (address, revents). address) events),
      λ address.
          filled address
          ∙ ap (λ (c : Channel). set_revents (last_revents address events c.m_revents) c)
              (set_at-same other reported channels address),
    )

-- When the system stores no more events than the array of the poller has room for, `poll` returns; it
-- lists the channels of the events in order, gives each the bits that were reported of it last, leaves
-- the other channels alone, and its array has room for more events than there were.
pub poll_lem :
    {K : Type 0} (events : List (ℕ × Events)) (channels : Channels) (active : List ℕ)
    (p : EpollPoller K)
    → 0 < p.m_events_size
    → length events ≤ p.m_events_size
    → Returns
        (λ (p', (channels', active')).
          (active' ≡ active ++ map (λ (address, revents). address) events)
          × ((address : ℕ)
              → channels' address
                ≡ set_revents
                    (last_revents address events (channels address).m_revents)
                    (channels address))
          × (length events < p'.m_events_size))
        (poll (some events) channels active p)
unfolding poll
poll_lem [] channels active p sized room =
    let (listed, filled) = fill_lem [] channels active in returns (listed, filled, sized)
poll_lem (event ∷ events) channels active p sized room =
    let fits : leb (length (event ∷ events)) p.m_events_size ≡ true = ground arith in
    let (listed, filled) = fill_lem (event ∷ events) channels active in
    rw fits (
      Returns-if (length (event ∷ events) == p.m_events_size)
        (λ full. returns (listed, filled, ground arith))
        (λ not_full. returns (listed, filled, ground arith)))
