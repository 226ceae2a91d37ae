-- ===== src/System/Events.antt =====
-- The loop over the events in src/net/NetWorkMgr.cpp handles each of them once, in order.
use ttserver.Base.{
  ℕ, ◌+◌, ◌<◌, ◌≤◌, zero, suc, ◌≡◌, refl, ap, false, List, [], ◌∷◌, Option, none, some, arith,
  length, drop, pos, ltb-false, Option-cases, inl, inr, leb,
}
use ttserver.Library.{Library}
use ttserver.System.Calls.{Os}
use ttserver.System.Poll.{EpollMgr, Ready, poll_wait, poll_event, event_at, epoll_wait_interval}
use ttserver.System.NetWorks.{NetWorkMgr}
use ttserver.System.Proc.{Running, SocketIo, handle_event, proc_events, proc}

event_at-drop :
    (i : ℕ) (events : List Ready) (e : Ready) (es : List Ready)
    → drop i events ≡ e ∷ es
    → event_at i events ≡ some e
unfolding event_at
event_at-drop zero [] e es h = absurd (ground arith)
event_at-drop zero (x ∷ events) e es h = ground arith
event_at-drop (suc i) [] e es h = absurd (ground arith)
event_at-drop (suc i) (x ∷ events) e es h = event_at-drop i events e es h

drop-suc :
    (i : ℕ) (events : List Ready) (e : Ready) (es : List Ready)
    → drop i events ≡ e ∷ es
    → drop (suc i) events ≡ es
drop-suc zero [] e es h = absurd (ground arith)
drop-suc zero (x ∷ events) e es h = ap (drop 1) h
drop-suc (suc i) [] e es h = absurd (ground arith)
drop-suc (suc i) (x ∷ events) e es h = drop-suc i events e es h

-- The manager in the middle of `n` events.
abbrev pub at_event : ℕ → ℕ → ℕ → List Ready → EpollMgr
at_event now i n events = record {
  event_idx = i;
  event_num = pos n;
  epoll_wait_time = now;
  events = events;
}

poll_event-last :
    (now i n : ℕ) (events : List Ready) → n ≡ i → poll_event (at_event now i n events) ≡ none
unfolding poll_event
poll_event-last now i n events h = ground arith

poll_event-next :
    (now i n : ℕ) (events : List Ready) (e : Ready) (es : List Ready)
    → n ≡ i + suc (length es)
    → drop i events ≡ e ∷ es
    → poll_event (at_event now i n events) ≡ some (e, at_event now (i + 1) n events)
unfolding poll_event
poll_event-next now i n events e es h rest =
    let below : leb n i ≡ false = ground arith in rw (below, event_at-drop i events e es rest) refl

module _ {K : Type 0} (lib : Library K) (os : Os) (m : NetWorkMgr) (io : ℕ → SocketIo) where
  -- Every event in turn, from the position `i` on.
  unfoldable pub handle_all : List Ready → ℕ → Running K → Option (Running K)
  handle_all [] i s = some s
  handle_all (e ∷ es) i s = elim (handle_event lib os m e (io i) s) [
    | none ↦ none
    | some s1 ↦ handle_all es (i + 1) s1
  ]

  abbrev pub polled_to : EpollMgr → Option (Running K) → Option (EpollMgr × Running K)
  polled_to p none = none
  polled_to p (some s) = some (p, s)

  proc_events-handle_all :
      (es : List Ready) (fuel now i n : ℕ) (events : List Ready) (s : Running K)
      → length es < fuel
      → n ≡ i + length es
      → drop i events ≡ es
      → proc_events lib os m fuel io (at_event now i n events) s
        ≡ polled_to (at_event now n n events) (handle_all es i s)
  unfolding proc_events handle_all
  proc_events-handle_all es zero now i n events s f num rest = absurd (omega arith)
  proc_events-handle_all [] (suc fuel) now i n events s f num rest =
      let same : n ≡ i = omega arith in
      rw (poll_event-last now i n events same, proc_events, same) refl
  proc_events-handle_all (e ∷ es) (suc fuel) now i n events s f num rest =
      let next = poll_event-next now i n events e es num rest in
      let one : i + 1 ≡ suc i = omega arith in
      let behind : drop (i + 1) events ≡ es = rw one (drop-suc i events e es rest) in
      elim (Option-cases (handle_event lib os m e (io i) s)) [
        | inl h ↦ rw (next, h, proc_events, handle_all) refl
        | inr (s1, h) ↦
            rw (next, h, proc_events, handle_all)
              (proc_events-handle_all es fuel now (i + 1) n events s1 (omega arith) (omega arith)
                behind)
      ]

  -- Proc, at least EPOLL_WAIT_INTERVAL after the last wait and with at least one event: the loop
  -- over PollEvent ends, and does what handling each event once, in order, does; behind it the
  -- cursor stands at the end of the events and the time of the wait is the present one.
  pub proc-handle_all :
      (now : ℕ) (e : Ready) (es : List Ready) (p : EpollMgr) (s : Running K)
      → p.epoll_wait_time + epoll_wait_interval ≤ now
      → let n = length (e ∷ es) in
        proc lib os m now (some (e ∷ es)) io p s
        ≡ polled_to (at_event now n n (e ∷ es)) (handle_all (e ∷ es) 0 s)
  unfolding proc poll_wait
  proc-handle_all now e es p s h =
      let n = length (e ∷ es) in
      rw (ltb-false now (p.epoll_wait_time + epoll_wait_interval) h) (
        proc_events-handle_all (e ∷ es) (suc n) now 0 n (e ∷ es) s (omega arith) (omega arith) refl)
