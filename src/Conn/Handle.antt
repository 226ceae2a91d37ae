-- ===== src/Conn/Handle.antt =====
-- `HandleNetMsg`: what a connection does with a packet of its client.
use mathlib.Core.Bool.{not}
use ttserver.Base.{ℕ, ◌+◌, ◌%◌, ◌^◌, ◌||◌, ◌==◌, if◌then◌else◌}
use ttserver.Config.{close_client_fin, event_close, rst_disconnect, rst_close}
use ttserver.Library.{Library}
use ttserver.Msg.PacketType
use ttserver.Msg.Packets.{Head, Body, HeartBeat, Fin, head_size, heartbeat_size}
use ttserver.Msg.Decode.{Msg}
use ttserver.Msg.Writer.{write_heartbeat}
use ttserver.Host.{Host, Ret, succ, fail}
use ttserver.Host.Packets.{
  new_packet, finish_packet, filled, written_packet, send_rst_msg, send_fin_msg,
}
use ttserver.Conn.{
  NetConnect, Result, fin_wait2, time_wait, is_closed, is_disconnect, is_established, is_fin_wait1,
  is_fin_wait2, is_time_wait,
}
use ttserver.Conn.Life.{notified, clear_conn_data, close_connect}
use ttserver.Conn.Packets.{addressed}
use ttserver.Conn.Receive.{recv_reliable, recv_unreliable}

module _ {K : Type 0} where
  abbrev heartbeat_reply : NetConnect K → Host → HeartBeat → HeartBeat
  heartbeat_reply c h b = record {
    conn_id = c.conn_id;
    client_time_ms = b.client_time_ms;
    server_time_ms = h.now_ms;
  }

  abbrev with_host : NetConnect K → Ret × Host → Result K
  with_host c (r, h) = (r, c, h)

  -- `HandleHeartBeat`.
  unfoldable pub handle_heartbeat : NetConnect K → Host → HeartBeat → Result K
  handle_heartbeat c h b =
      if not (b.conn_id == c.conn_id)
      then (fail, c, h)
      else with_host (record c { last_heartbeat = h.now })
          (finish_packet
            (λ p. addressed c (
              filled p (
                written_packet p (record { kind = PacketType.heartbeat_ack; is_reliable = 1 })
                  (λ w. write_heartbeat w (heartbeat_reply c h b)))))
            (new_packet h (head_size + heartbeat_size)))

  -- The answer to a Fin.
  abbrev fin_ack : NetConnect K × Host → Result K
  fin_ack (c, h) =
      (succ, c, (send_fin_msg h PacketType.fin_ack c.conn_id c.close_reason c.client_addr).1)

  -- `HandleFin`.
  unfoldable pub handle_fin : NetConnect K → Host → Fin → Result K
  handle_fin c h p =
      if is_established c.state
      then (succ, c, h)
      else if not (is_fin_wait2 c.state || is_time_wait c.state)
      then (fail, c, h)
      else if not (p.conn_id == c.conn_id)
      then (fail, c, h)
      else if is_fin_wait2 c.state
      then fin_ack (
        record c { state = time_wait; time_wait_time = h.now },
        notified h event_close c c.close_reason c.bind_data,
      )
      else fin_ack (c, h)

  abbrev pub counted : NetConnect K → ℕ → NetConnect K
  counted c size = record c {
    stat = record c.stat {
      recv_cnt = (c.stat.recv_cnt + 1) % 2 ^ 32;
      recv_size = (c.stat.recv_size + size) % 2 ^ 32;
    };
  }

module _ {K : Type 0} (lib : Library K) where
  abbrev after_close : Result K → Result K
  after_close (r, c, h) = (succ, c, h)

  -- The switch on the type of the packet, by the member of the union that the type stands for.
  unfoldable pub handle_body : NetConnect K → Host → Head → Body → Result K
  handle_body c h head (Body.payload d) =
      if head.is_reliable == 0
      then with_host c (recv_unreliable lib c h d.buff d.data_len)
      else recv_reliable lib c h d.buff d.data_len
  handle_body c h head (Body.heartbeat b) = handle_heartbeat c h b
  handle_body c h head (Body.fin p) =
      if head.kind == PacketType.close
      then (if p.conn_id == c.conn_id
          then after_close (close_connect lib c h close_client_fin)
          else (fail, c, h))
      else if head.kind == PacketType.fin
      then handle_fin c h p
      else (succ, (if is_fin_wait1 c.state then record c { state = fin_wait2 } else c), h)
  handle_body c h head (Body.handshake b) = (succ, c, h)
  handle_body c h head (Body.reconnect b) = (succ, c, h)
  handle_body c h head (Body.rst b) = (succ, c, h)

  -- `HandleNetMsg`.
  unfoldable pub handle_net_msg : NetConnect K → Host → Msg → Result K
  handle_net_msg c h m =
      if is_disconnect c.state
      then (succ, clear_conn_data lib c, (send_rst_msg h rst_disconnect c.conn_id c.client_addr).1)
      else if is_closed c.state
      then (succ, c, (send_rst_msg h rst_close c.conn_id c.client_addr).1)
      else handle_body (counted c m.net_size) h m.head m.body
