-- ===== src/Conn/Life.antt =====
-- The state machine: disconnection, closing, the timers of each second, binding, `InitConnect` and
-- `Reconnect`.
use mathlib.Core.Bool.{not}
use ttserver.Base.{ℕ, ◌+◌, ◌&&◌, ◌||◌, none, some, ltb, leb, ◌==◌, if◌then◌else◌}
use ttserver.Config.{
  disconnect_heartbeat, close_disconnet_timeout, close_fin_timeout, close_none, close_bind_timeout,
  close_flow_control, event_disconnect, event_close, event_network, event_bind, heartbeat_timeout,
  reconnect_timeout, fin_wait_seconds, time_wait_seconds, bind_timeout, conn_state_interval,
  max_conn_recv_num, max_conn_recv_size,
}
use ttserver.Library.{Library}
use ttserver.Kcp.{Kcp}
use ttserver.Kcp
use ttserver.Host.{Host, succ, fail}
use ttserver.Host.Events.{notify_conn_event, move_to_closed_map, BindConnMsg}
use ttserver.Conn.{
  NetConnect, ConnState, Result, closed, established, disconnet, fin_wait1, fin_wait2, time_wait,
  is_established, is_disconnect, is_closed,
}

module _ {K : Type 0} where
  abbrev pub notified : Host → ℕ → NetConnect K → ℕ → ℕ → Host
  notified h event_type c reason ull_data =
      (notify_conn_event h event_type c.conn_id reason ull_data none none).1

  -- The result of a call is ignored.
  abbrev pub after_call : Result K → NetConnect K × Host
  after_call (r, c, h) = (c, h)

  abbrev pub refreshed : ℕ → NetConnect K × Host → NetConnect K × Host
  refreshed now (c, h) = (record c { stat = record c.stat { refresh_time = now } }, h)

  -- `DisConnect`.
  unfoldable pub dis_connect : NetConnect K → Host → ℕ → Result K
  dis_connect c h reason =
      if is_established c.state
      then (
        succ,
        record c { state = disconnet; disconnect_time = h.now },
        notified h event_disconnect c reason c.bind_data,
      )
      else (fail, c, h)

  -- `BindConnect`.
  unfoldable pub bind_connect : NetConnect K → Host → BindConnMsg → Result K
  bind_connect c h m =
      if m.bind_data == 0 then (fail, c, h) else if not (c.bind_data == 0) then (fail, c, h) else (
        succ,
        record c { bind_data = m.bind_data },
        (notify_conn_event h event_bind c.conn_id 0 m.bind_data (some c.client_addr) (some m)).1,
      )

module _ {K : Type 0} (lib : Library K) where
  unfoldable pub clear_conn_data : NetConnect K → NetConnect K
  clear_conn_data c = record c { kcp = (Kcp.reset lib c.conn_id c.kcp).1; merge_packet = none }

  -- `CloseConnect`. A close without a reason is not reported.
  unfoldable pub close_connect : NetConnect K → Host → ℕ → Result K
  close_connect c h reason = if is_closed c.state then (succ, c, h) else (
    succ,
    record (clear_conn_data c) { state = closed; close_reason = reason; close_time = h.now },
    move_to_closed_map
        (if reason == close_none then h else notified h event_close c reason c.bind_data) c.conn_id
        c.self,
  )

  -- `FinConnect`.
  unfoldable pub fin_connect : NetConnect K → Host → ℕ → Result K
  fin_connect c h reason =
      if is_disconnect c.state
      then close_connect c h reason
      else if is_established c.state
      then (succ, record c { state = fin_wait1; close_reason = reason; fin_begin = h.now }, h)
      else (fail, c, h)

  -- The report of the round-trip time, every ten seconds once the connection is bound.
  abbrev pub sync_network : NetConnect K × Host → NetConnect K × Host
  sync_network (c, h) =
      if not (c.bind_data == 0) && leb (c.network_syn + 10) h.now
      then (
        record c { network_syn = h.now },
        notified h event_network c 0 (lib.ikcp_srtt c.kcp.ikcp),
      )
      else (c, h)

  -- `Tick1S`: the switch on the state.
  unfoldable pub tick_in : ConnState → NetConnect K → Host → NetConnect K × Host
  tick_in established c h = sync_network (
      if leb (c.last_heartbeat + heartbeat_timeout) h.now
      then after_call (dis_connect c h disconnect_heartbeat)
      else (c, h))
  tick_in disconnet c h =
      if leb (c.disconnect_time + reconnect_timeout) h.now
      then after_call (close_connect c h close_disconnet_timeout)
      else (c, h)
  tick_in fin_wait1 c h =
      if leb (c.fin_begin + fin_wait_seconds) h.now
      then after_call (close_connect c h close_fin_timeout)
      else (c, h)
  tick_in fin_wait2 c h =
      if leb (c.fin_begin + fin_wait_seconds) h.now
      then after_call (close_connect c h close_fin_timeout)
      else (c, h)
  tick_in time_wait c h =
      if leb (c.time_wait_time + time_wait_seconds) h.now
      then after_call (close_connect c h close_none)
      else (c, h)
  tick_in _ c h = (c, h)

  unfoldable pub tick_state : NetConnect K → Host → NetConnect K × Host
  tick_state c h = tick_in c.state c h

  -- The limit on the time without a binding.
  unfoldable pub tick_bind : NetConnect K × Host → NetConnect K × Host
  tick_bind (c, h) =
      if not (is_closed c.state) && c.bind_data == 0 && leb (c.create_time + bind_timeout) h.now
      then after_call (close_connect c h close_bind_timeout)
      else (c, h)

  -- The check of the traffic. Only the time of the refresh is written.
  unfoldable pub tick_stat : NetConnect K × Host → NetConnect K × Host
  tick_stat (c, h) =
      if leb (c.stat.refresh_time + conn_state_interval) h.now
      then refreshed h.now (
          if ltb max_conn_recv_num c.stat.recv_cnt || ltb max_conn_recv_size c.stat.recv_size
          then after_call (close_connect c h close_flow_control)
          else (c, h))
      else (c, h)

  unfoldable pub tick1s : NetConnect K → Host → NetConnect K × Host
  tick1s c h = tick_stat (tick_bind (tick_state c h))
