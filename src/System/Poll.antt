-- ===== src/System/Poll.antt =====
-- src/net/EpollMgr.cpp: the descriptors that are watched, and the events of one call of `epoll_wait`.
use ttserver.Base.{
  ℕ, zero, suc, ◌+◌, List, [], ◌∷◌, Option, none, some, ltb, leb, if◌then◌else◌, length, ℤ, pos,
  negsuc, minus_one,
}
use ttserver.System.Calls.{epoll_add, epoll_mod, epoll_del, Os, Io, call}

-- One event: the descriptor and the bits that are set.
pub record Ready : Type 0 where
  pub fd : ℕ
  pub events : ℕ

-- `event_num` is -1 after an error; `events` is what `epoll_wait` left in the array.
pub record EpollMgr : Type 0 where
  pub event_idx : ℕ
  pub event_num : ℤ
  pub epoll_wait_time : ℕ
  pub events : List Ready

-- `EPOLL_WAIT_INTERVAL`, in milliseconds.
abbrev pub epoll_wait_interval : ℕ
epoll_wait_interval = 2

-- `Init`, by what `epoll_create` returns.
unfoldable pub init_poll : ℤ → ℤ × EpollMgr
init_poll fd =
    let m : EpollMgr = record {
      event_idx = 0;
      event_num = pos 0;
      epoll_wait_time = 0;
      events = [];
    } in
    elim fd [ pos n ↦ (if leb n 0 then minus_one else pos 0, m) | negsuc n ↦ (minus_one, m) ]

module _ (os : Os) where
  -- `PollAdd`, `PollMode`, `PollDel`: what `epoll_ctl` returns.
  unfoldable pub poll_add : ℕ → ℕ → Io ℤ
  poll_add fd mode = call os (epoll_add fd mode)

  unfoldable pub poll_mode : ℕ → ℕ → Io ℤ
  poll_mode fd mode = call os (epoll_mod fd mode)

  unfoldable pub poll_del : ℕ → Io ℤ
  poll_del fd = call os (epoll_del fd)

-- The event's number after `epoll_wait`, which gives a list of events or fails.
abbrev pub waited : EpollMgr → ℕ → Option (List Ready) → ℤ × EpollMgr
waited m now none =
    (minus_one, record m { epoll_wait_time = now; event_idx = 0; event_num = minus_one })
waited m now (some events) = (
  pos (length events),
  record m {
    epoll_wait_time = now;
    event_idx = 0;
    event_num = pos (length events);
    events = events;
  },
)

-- `PollWait`; `answer` is what `epoll_wait` gives if it is called.
unfoldable pub poll_wait : EpollMgr → ℕ → Option (List Ready) → ℤ × EpollMgr
poll_wait m now answer =
    if ltb now (m.epoll_wait_time + epoll_wait_interval) then (pos 0, m) else waited m now answer

-- `m_pstEpollEvent[i]`
unfoldable pub event_at : ℕ → List Ready → Option Ready
event_at i [] = none
event_at zero (e ∷ es) = some e
event_at (suc i) (e ∷ es) = event_at i es

abbrev next_event : EpollMgr → Option Ready → Option (Ready × EpollMgr)
next_event m none = none
next_event m (some e) = some (e, record m { event_idx = m.event_idx + 1 })

abbrev event_below : EpollMgr → ℤ → Option (Ready × EpollMgr)
event_below m (negsuc _) = none
event_below m (pos n) =
    if leb n m.event_idx then none else next_event m (event_at m.event_idx m.events)

-- `PollEvent`: the event at the cursor, or `none` for -1.
unfoldable pub poll_event : EpollMgr → Option (Ready × EpollMgr)
poll_event m = event_below m m.event_num
