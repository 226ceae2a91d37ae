-- ===== src/Conn/Deadlines.antt =====
-- The deadlines that `Tick1S` enforces.
use ttserver.Base.{subst, ℕ, ◌+◌, leb, if◌then◌else◌, ◌≡◌, ◌≤◌, arith, ◌∙◌, ap, ◌⊎◌, inl, inr, sym}
use ttserver.Config.{
  heartbeat_timeout, reconnect_timeout, fin_wait_seconds, time_wait_seconds,
  close_disconnet_timeout, close_fin_timeout, close_none, close_bind_timeout, close_flow_control,
  disconnect_heartbeat,
}
use ttserver.Library.{Library}
use ttserver.Host.{Host}
use ttserver.Conn.{
  NetConnect, ConnState, closed, established, disconnet, fin_wait1, fin_wait2, time_wait,
}
use ttserver.Conn.Life.{
  dis_connect, sync_network, tick_in, tick_state, tick_bind, tick_stat, tick1s, after_call,
}
use ttserver.Conn.States.{Shutting-stays, tick_bind-Shutting, tick_stat-Shutting}
use ttserver.Conn.Traffic.{close_connect-closed}

-- The time at which a connection in this state is closed by a tick at the latest.
abbrev pub deadline : {K : Type 0} → ConnState → NetConnect K → ℕ
deadline disconnet c = c.disconnect_time + reconnect_timeout
deadline fin_wait1 c = c.fin_begin + fin_wait_seconds
deadline fin_wait2 c = c.fin_begin + fin_wait_seconds
deadline time_wait c = c.time_wait_time + time_wait_seconds
deadline _ c = 0

-- The states that have such a time.
pub data IsWaiting : ConnState → Type 0 where
  cut_off : IsWaiting disconnet
  fin_sent : IsWaiting fin_wait1
  fin_acked : IsWaiting fin_wait2
  fin_answered : IsWaiting time_wait
  ended : IsWaiting closed

module _ {K : Type 0} (lib : Library K) where
  tick_in-overdue :
      {s : ConnState} (c : NetConnect K) (h : Host)
      → c.state ≡ s
      → IsWaiting s
      → deadline s c ≤ h.now
      → (tick_in lib s c h).0.state ≡ closed
  unfolding tick_in
  tick_in-overdue c h e cut_off d =
      ground (arith, close_connect-closed lib c h close_disconnet_timeout)
  tick_in-overdue c h e fin_sent d = ground (arith, close_connect-closed lib c h close_fin_timeout)
  tick_in-overdue c h e fin_acked d = ground (arith, close_connect-closed lib c h close_fin_timeout)
  tick_in-overdue c h e fin_answered d = ground (arith, close_connect-closed lib c h close_none)
  tick_in-overdue c h e ended d = e

  -- The later parts of a tick keep a connection closed.
  rest-closed :
      (c : NetConnect K) (h : Host)
      → c.state ≡ closed
      → (tick_stat lib (tick_bind lib (c, h))).0.state ≡ closed
  rest-closed c h e =
      let (c1, h1) = tick_bind lib (c, h) in
      Shutting-stays (tick_stat-Shutting lib c1 h1) (Shutting-stays (tick_bind-Shutting lib c h) e)

  -- A tick at or after the deadline of the connection's state closes it, for the states
  -- disconnected, FIN_WAIT1, FIN_WAIT2 and TIME_WAIT; a closed one stays closed.
  pub tick1s-overdue :
      (c : NetConnect K) (h : Host) (s : ConnState)
      → c.state ≡ s
      → IsWaiting s
      → deadline s c ≤ h.now
      → (tick1s lib c h).0.state ≡ closed
  unfolding tick1s tick_state
  tick1s-overdue c h s e waiting due =
      let (c1, h1) = tick_in lib c.state c h in
      rest-closed c1 h1
        (ap (λ t. (tick_in lib t c h).0.state) e ∙ tick_in-overdue c h e waiting due)

  abbrev IsCutAt : ℕ → NetConnect K → Type 0
  IsCutAt t c = (c.state ≡ closed) ⊎ ((c.state ≡ disconnet) × (c.disconnect_time ≡ t))

  sync_network-IsCutAt :
      (w : NetConnect K × Host) (t : ℕ) → IsCutAt t w.0 → IsCutAt t (sync_network lib w).0
  sync_network-IsCutAt (c, h) t k = ground arith

  dis_connect-IsCutAt :
      (c : NetConnect K) (h : Host) (reason : ℕ)
      → c.state ≡ established
      → IsCutAt h.now (after_call (dis_connect c h reason)).0
  unfolding dis_connect
  dis_connect-IsCutAt c h reason e = ground arith

  tick_in-silent :
      (c : NetConnect K) (h : Host)
      → c.state ≡ established
      → c.last_heartbeat + heartbeat_timeout ≤ h.now
      → IsCutAt h.now (tick_in lib established c h).0
  unfolding tick_in
  tick_in-silent c h e due =
      let lost = leb (c.last_heartbeat + heartbeat_timeout) h.now in
      let w = if lost then after_call (dis_connect c h disconnect_heartbeat) else (c, h) in
      sync_network-IsCutAt w h.now (ground (arith, dis_connect-IsCutAt c h disconnect_heartbeat e))

  tick_bind-IsCutAt :
      (c : NetConnect K) (h : Host) (t : ℕ) → IsCutAt t c → IsCutAt t (tick_bind lib (c, h)).0
  unfolding tick_bind
  tick_bind-IsCutAt c h t k = ground (arith, close_connect-closed lib c h close_bind_timeout)

  tick_stat-IsCutAt :
      (c : NetConnect K) (h : Host) (t : ℕ) → IsCutAt t c → IsCutAt t (tick_stat lib (c, h)).0
  unfolding tick_stat
  tick_stat-IsCutAt c h t k = ground (arith, close_connect-closed lib c h close_flow_control)

  tick1s-IsCutAt :
      (c : NetConnect K) (h : Host)
      → c.state ≡ established
      → c.last_heartbeat + heartbeat_timeout ≤ h.now
      → IsCutAt h.now (tick1s lib c h).0
  unfolding tick1s tick_state
  tick1s-IsCutAt c h e due =
      let (c1, h1) = tick_in lib c.state c h in
      let (c2, h2) = tick_bind lib (c1, h1) in
      tick_stat-IsCutAt c2 h2 h.now (
        tick_bind-IsCutAt c1 h1 h.now
          (subst (λ s. IsCutAt h.now (tick_in lib s c h).0) (sym e) (tick_in-silent c h e due)))

  -- An established connection whose last heartbeat is at least HEARTBEAT_TIMEOUT old at one tick
  -- is closed by a second tick at least RECONNECT_TIMEOUT later.
  pub tick1s-lost :
      (c : NetConnect K) (h h' : Host)
      → c.state ≡ established
      → c.last_heartbeat + heartbeat_timeout ≤ h.now
      → h.now + reconnect_timeout ≤ h'.now
      → (tick1s lib (tick1s lib c h).0 h').0.state ≡ closed
  tick1s-lost c h h' e silent late =
      let c1 = (tick1s lib c h).0 in
      elim (tick1s-IsCutAt c h e silent) [
        | inl shut ↦ tick1s-overdue c1 h' closed shut ended (omega arith)
        | inr (cut, since) ↦ tick1s-overdue c1 h' disconnet cut cut_off (omega (arith, since))
      ]
