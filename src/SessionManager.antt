-- ===== src/SessionManager.antt =====
-- src/Session.h, src/Session.cpp and src/SessionManager.h: the sessions by id. An address is its
-- `toIpPort()` text. `m_mutex` makes each method one step.
use dwt_src.Prelude.{
  ℕ, ◌%◌, ◌≡◌, Bool, true, false, Option, none, some, [], ◌∷◌, ◌==◌, if◌then◌else◌, arith,
  Option-cases, inl, inr,
}
use dwt_src.Bytes.{Bytes, bytes_eq}
use dwt_src.IndexedHeap.{assign, erase}

pub record Session : Type 0 where
  pub m_session_id : ℕ
  pub m_tcp : Bytes

pub record SessionManager : Type 0 where
  pub m_tcp_id : Bytes → Option Bytes
  pub m_sessions : ℕ → Option Session

unfoldable pub empty : SessionManager
empty = record { m_tcp_id = λ _. none; m_sessions = λ _. none }

-- `m_TCP_Id` has strings for values, so that the assignment of a `size_t` converts it to one `char`.
unfoldable pub add : SessionManager → ℕ → Bytes → SessionManager × ℕ
add m session_id tcp = (
  record {
    m_tcp_id = λ key. if bytes_eq tcp key then some ((session_id % 256) ∷ []) else m.m_tcp_id key;
    m_sessions = assign m.m_sessions session_id (record { m_session_id = session_id; m_tcp = tcp });
  },
  session_id,
)

unfoldable pub exist : SessionManager → ℕ → Bool
exist m session_id = elim (m.m_sessions session_id) [ none ↦ false | some _ ↦ true ]

unfoldable pub remove : SessionManager → ℕ → SessionManager
remove m session_id = elim (m.m_sessions session_id) [
  | none ↦ m
  | some session ↦ record {
    m_tcp_id = λ key. if bytes_eq session.m_tcp key then none else m.m_tcp_id key;
    m_sessions = erase m.m_sessions session_id;
  }
]

-- A session exists from its `add` to its `remove`, and no call changes whether another one exists.
pub exist_lem :
    (m : SessionManager) (id k : ℕ) (tcp : Bytes)
    → (exist (add m id tcp).0 k ≡ (if id == k then true else exist m k))
      × (exist (remove m id) k ≡ (if id == k then false else exist m k))
unfolding exist add remove
exist_lem m id k tcp = (
  ground arith,
  elim (Option-cases (m.m_sessions id)) [ inl e ↦ ground arith | inr (s, e) ↦ ground arith ],
)
