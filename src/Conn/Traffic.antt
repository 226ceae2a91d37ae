-- ===== src/Conn/Traffic.antt =====
-- The counters of the flow control.
use ttserver.Base.{
  ℕ, Option, none, some, ◌+◌, Bool, if◌then◌else◌, ◌≡◌, ◌<◌, ◌≤◌, refl, arith, ◌∙◌, leb, ◌⊎◌,
}
use ttserver.Config.{
  event_disconnect, event_close, event_network, close_disconnet_timeout, close_fin_timeout,
  close_none, close_bind_timeout, close_flow_control, disconnect_heartbeat, heartbeat_timeout,
  max_conn_recv_num, max_conn_recv_size, conn_state_interval,
}
use ttserver.Library.{Library}
use ttserver.Host.{Host}
use ttserver.Host.Events.{notify_conn_event, send_n2m_msg, pushed_n2m, move_to_closed_map}
use ttserver.Ring.Defs.{RingQueue}
use ttserver.Conn.{
  NetConnect, ConnState, closed, established, disconnet, fin_wait1, fin_wait2, time_wait,
}
use ttserver.Conn.Life.{
  after_call, notified, tick1s, tick_state, tick_in, tick_bind, tick_stat, dis_connect,
  close_connect, clear_conn_data, sync_network,
}

pushed_n2m-now : (h : Host) (o : Option (Bool × RingQueue)) → (pushed_n2m h o).1.now ≡ h.now
pushed_n2m-now h none = refl
pushed_n2m-now h (some (b, q)) = refl

module _ {K : Type 0} where
  -- What a timer leaves: the counters as they were, at the same time.
  abbrev pub IsSameTraffic : NetConnect K × Host → NetConnect K × Host → Type 0
  IsSameTraffic w v =
      (v.0.stat.recv_cnt ≡ w.0.stat.recv_cnt)
      × (v.0.stat.recv_size ≡ w.0.stat.recv_size)
      × (v.0.stat.refresh_time ≡ w.0.stat.refresh_time)
      × (v.1.now ≡ w.1.now)

  IsSameTraffic-trans :
      (u v w : NetConnect K × Host) → IsSameTraffic u v → IsSameTraffic v w → IsSameTraffic u w
  IsSameTraffic-trans u v w (a0, a1, a2, a3) (b0, b1, b2, b3) = (b0 ∙ a0, b1 ∙ a1, b2 ∙ a2, b3 ∙ a3)

  notified-now :
      (h : Host) (event_type : ℕ) (c : NetConnect K) (reason ull_data : ℕ)
      → (notified h event_type c reason ull_data).now ≡ h.now
  unfolding notify_conn_event send_n2m_msg
  notified-now h event_type c reason ull_data = pushed_n2m-now h _

  dis_connect-IsSameTraffic :
      (c : NetConnect K) (h : Host) (reason : ℕ)
      → IsSameTraffic (c, h) (after_call (dis_connect c h reason))
  unfolding dis_connect
  dis_connect-IsSameTraffic c h reason =
      ground (arith, notified-now h event_disconnect c reason c.bind_data)

module _ {K : Type 0} (lib : Library K) where
  close_connect-IsSameTraffic :
      (c : NetConnect K) (h : Host) (reason : ℕ)
      → IsSameTraffic (c, h) (after_call (close_connect lib c h reason))
  unfolding close_connect clear_conn_data move_to_closed_map
  close_connect-IsSameTraffic c h reason =
      ground (arith, notified-now h event_close c reason c.bind_data)

  sync_network-IsSameTraffic : (w : NetConnect K × Host) → IsSameTraffic w (sync_network lib w)
  sync_network-IsSameTraffic (c, h) =
      ground (arith, notified-now h event_network c 0 (lib.ikcp_srtt c.kcp.ikcp))

  tick_in-IsSameTraffic :
      (s : ConnState) (c : NetConnect K) (h : Host) → IsSameTraffic (c, h) (tick_in lib s c h)
  unfolding tick_in
  tick_in-IsSameTraffic established c h =
      let lost = leb (c.last_heartbeat + heartbeat_timeout) h.now in
      let w = if lost then after_call (dis_connect c h disconnect_heartbeat) else (c, h) in
      IsSameTraffic-trans (c, h) w (sync_network lib w)
        (ground (arith, dis_connect-IsSameTraffic c h disconnect_heartbeat))
        (sync_network-IsSameTraffic w)
  tick_in-IsSameTraffic disconnet c h =
      ground (arith, close_connect-IsSameTraffic c h close_disconnet_timeout)
  tick_in-IsSameTraffic fin_wait1 c h =
      ground (arith, close_connect-IsSameTraffic c h close_fin_timeout)
  tick_in-IsSameTraffic fin_wait2 c h =
      ground (arith, close_connect-IsSameTraffic c h close_fin_timeout)
  tick_in-IsSameTraffic time_wait c h = ground (arith, close_connect-IsSameTraffic c h close_none)
  tick_in-IsSameTraffic _ c h = (refl, refl, refl, refl)

  tick_bind-IsSameTraffic :
      (c : NetConnect K) (h : Host) → IsSameTraffic (c, h) (tick_bind lib (c, h))
  unfolding tick_bind
  tick_bind-IsSameTraffic c h = ground (arith, close_connect-IsSameTraffic c h close_bind_timeout)

  tick_stat-counters :
      (c : NetConnect K) (h : Host)
      → ((tick_stat lib (c, h)).0.stat.recv_cnt ≡ c.stat.recv_cnt)
        × ((tick_stat lib (c, h)).0.stat.recv_size ≡ c.stat.recv_size)
  unfolding tick_stat
  tick_stat-counters c h = ground (arith, close_connect-IsSameTraffic c h close_flow_control)

  -- What the check of the traffic finds at a tick is what it was before it.
  before_stat-IsSameTraffic :
      (c : NetConnect K) (h : Host) → IsSameTraffic (c, h) (tick_bind lib (tick_state lib c h))
  unfolding tick_state
  before_stat-IsSameTraffic c h =
      let w = tick_in lib c.state c h in
      IsSameTraffic-trans (c, h) w (tick_bind lib w) (tick_in-IsSameTraffic c.state c h)
        (tick_bind-IsSameTraffic w.0 w.1)

  -- A tick leaves the counters of received packets and received bytes of every connection as they
  -- were.
  tick1s-counters :
      (c : NetConnect K) (h : Host)
      → ((tick1s lib c h).0.stat.recv_cnt ≡ c.stat.recv_cnt)
        × ((tick1s lib c h).0.stat.recv_size ≡ c.stat.recv_size)
  unfolding tick1s
  tick1s-counters c h =
      let w = tick_bind lib (tick_state lib c h) in
      ground (arith, tick_stat-counters w.0 w.1, before_stat-IsSameTraffic c h)

  pub close_connect-closed :
      (c : NetConnect K) (h : Host) (reason : ℕ) → (close_connect lib c h reason).1.state ≡ closed
  unfolding close_connect
  close_connect-closed c h reason = ground arith

  -- A tick that checks the traffic, CONN_STATE_INTERVAL or more after the last check, closes a
  -- connection in any state whose counter of received packets or of received bytes is above its
  -- limit.
  tick1s-flood :
      (c : NetConnect K) (h : Host)
      → c.stat.refresh_time + conn_state_interval ≤ h.now
      → (max_conn_recv_num < c.stat.recv_cnt) ⊎ (max_conn_recv_size < c.stat.recv_size)
      → (tick1s lib c h).0.state ≡ closed
  unfolding tick1s tick_stat
  tick1s-flood c h due flood =
      let w = tick_bind lib (tick_state lib c h) in
      ground (arith, before_stat-IsSameTraffic c h, close_connect-closed w.0 w.1 close_flow_control)
