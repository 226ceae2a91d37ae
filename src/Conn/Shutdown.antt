-- ===== src/Conn/Shutdown.antt =====
-- The safe close that the server begins: `FinConnect`, the client's FinAck, its Fin, the last tick.
use ttserver.Base.{ℕ, ◌+◌, ◌≡◌, ◌≤◌, arith, ◌∙◌, sym}
use ttserver.Config.{time_wait_seconds}
use ttserver.Library.{Library}
use ttserver.Msg.PacketType
use ttserver.Msg.Packets.{Head, Body}
use ttserver.Msg.Decode.{Msg}
use ttserver.Host.{Host}
use ttserver.Conn.{NetConnect, closed, established, fin_wait1, fin_wait2, time_wait}
use ttserver.Conn.Life.{fin_connect, tick1s}
use ttserver.Conn.Handle.{handle_body, handle_fin, handle_net_msg}
use ttserver.Conn.Deadlines.{fin_answered, tick1s-overdue}

-- A decoded packet whose body is a Fin.
abbrev pub fin_message : Head → ℕ → ℕ → ℕ → Msg
fin_message head conn_id reason size = record {
  head = head;
  body = Body.fin (record { conn_id = conn_id; reason = reason });
  net_size = size;
}

module _ {K : Type 0} (lib : Library K) where
  fin_connect-left :
      (c : NetConnect K) (h : Host) (reason : ℕ)
      → c.state ≡ established
      → ((fin_connect lib c h reason).1.state ≡ fin_wait1)
        × ((fin_connect lib c h reason).1.close_reason ≡ reason)
        × ((fin_connect lib c h reason).1.conn_id ≡ c.conn_id)
  unfolding fin_connect
  fin_connect-left c h reason e = ground arith

  fin_ack-handled :
      (c : NetConnect K) (h : Host) (head : Head) (conn_id reason size : ℕ)
      → c.state ≡ fin_wait1
      → head.kind ≡ PacketType.fin_ack
      → ((handle_net_msg lib c h (fin_message head conn_id reason size)).1.state ≡ fin_wait2)
        × ((handle_net_msg lib c h (fin_message head conn_id reason size)).1.close_reason
            ≡ c.close_reason)
        × ((handle_net_msg lib c h (fin_message head conn_id reason size)).1.conn_id ≡ c.conn_id)
  unfolding handle_net_msg handle_body
  fin_ack-handled c h head conn_id reason size e k = ground arith

  fin-handled :
      (c : NetConnect K) (h : Host) (head : Head) (conn_id reason size : ℕ)
      → c.state ≡ fin_wait2
      → head.kind ≡ PacketType.fin
      → conn_id ≡ c.conn_id
      → ((handle_net_msg lib c h (fin_message head conn_id reason size)).1.state ≡ time_wait)
        × ((handle_net_msg lib c h (fin_message head conn_id reason size)).1.close_reason
            ≡ c.close_reason)
        × ((handle_net_msg lib c h (fin_message head conn_id reason size)).1.time_wait_time ≡ h.now)
  unfolding handle_net_msg handle_body handle_fin
  fin-handled c h head conn_id reason size e k i = ground arith

  -- The four calls of a safe close, each with a host of its own.
  abbrev pub left : NetConnect K → Host → ℕ → NetConnect K
  left c h1 reason = (fin_connect lib c h1 reason).1

  abbrev pub acknowledged : NetConnect K → Host → ℕ → Host → Msg → NetConnect K
  acknowledged c h1 reason h2 m2 = (handle_net_msg lib (left c h1 reason) h2 m2).1

  abbrev pub answered : NetConnect K → Host → ℕ → Host → Msg → Host → Msg → NetConnect K
  answered c h1 reason h2 m2 h3 m3 = (handle_net_msg lib (acknowledged c h1 reason h2 m2) h3 m3).1

  -- FinConnect on an established connection, a FinAck and a Fin of its client with the
  -- connection's id, and a tick at least TIME_WAIT_SECONDS after the Fin take the connection
  -- through FIN_WAIT1, FIN_WAIT2 and TIME_WAIT, where it still has the reason that FinConnect was
  -- given, to closed; each call may meet another host.
  pub shutdown-steps :
      (c : NetConnect K) (reason : ℕ) (h1 h2 h3 h4 : Host) (a b : Head) (i r s r' s' : ℕ)
      → c.state ≡ established
      → a.kind ≡ PacketType.fin_ack
      → b.kind ≡ PacketType.fin
      → h3.now + time_wait_seconds ≤ h4.now
      → let c1 = left c h1 reason in
        let c2 = acknowledged c h1 reason h2 (fin_message a i r s) in
        let c3 = answered c h1 reason h2 (fin_message a i r s) h3 (fin_message b c.conn_id r' s') in
        (c1.state ≡ fin_wait1)
        × (c2.state ≡ fin_wait2)
        × (c3.state ≡ time_wait)
        × (c3.close_reason ≡ reason)
        × ((tick1s lib c3 h4).0.state ≡ closed)
  shutdown-steps c reason h1 h2 h3 h4 a b i r s r' s' e ka kb due =
      let c1 = left c h1 reason in
      let c2 = acknowledged c h1 reason h2 (fin_message a i r s) in
      let c3 = answered c h1 reason h2 (fin_message a i r s) h3 (fin_message b c.conn_id r' s') in
      let (e1, q1, i1) = fin_connect-left c h1 reason e in
      let (e2, q2, i2) = fin_ack-handled c1 h2 a i r s e1 ka in
      let (e3, q3, t3) = fin-handled c2 h3 b c.conn_id r' s' e2 kb (sym (i2 ∙ i1)) in
      (
        e1,
        e2,
        e3,
        q3 ∙ q2 ∙ q1,
        tick1s-overdue lib c3 h4 time_wait e3 fin_answered (omega (arith, t3)),
      )
