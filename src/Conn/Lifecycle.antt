-- ===== src/Conn/Lifecycle.antt =====
-- The changes of state in the methods that handle packets, messages and `Proc`.
use ttserver.Base.{
  to_size, Option-cases, inl, inr, ℕ, zero, suc, true, false, List, some, if◌then◌else◌, ◌≡◌, arith,
  ◌==◌, take,
}
use ttserver.Library.{Library, SockAddr}
use ttserver.Config.{max_encode_buf_size, disconnect_dead_link, close_client_fin}
use ttserver.Msg.Packets.{Head, Body, Fin, HeartBeat}
use ttserver.Msg.Decode.{Msg}
use ttserver.Kcp.{Kcp}
use ttserver.Kcp
use ttserver.Host.{Host}
use ttserver.Conn.{NetConnect, ConnState, fin_wait2, time_wait, is_fin_wait1, is_fin_wait2}
use ttserver.Conn.Life.{clear_conn_data}
use ttserver.Conn.Setup.{reconnect}
use ttserver.Conn.Packets.{send_all, send_unreliable, get_cur_merge_packet}
use ttserver.Conn.Data.{MsgOpt, encode_msg_data, send_reliable, send_msg}
use ttserver.Conn.Receive.{
  recv_one_msg, recv_loop, recv_msg_from_kcp, proc_update, proc, recv_reliable, recv_unreliable,
}
use ttserver.Conn.Handle.{handle_heartbeat, handle_fin, handle_body, handle_net_msg, counted}
use ttserver.Conn.States.{
  back, acked, answered, Move, here, once, Move-from, of_eq, stay, if_disconnect, dis_connect-Move,
  close_connect-Move,
}

if_fin_wait1 : (s : ConnState) → is_fin_wait1 s ≡ true → Move s fin_wait2
if_fin_wait1 s e = ground (arith, once acked)

if_fin_wait2 : (s : ConnState) → is_fin_wait2 s ≡ true → Move s time_wait
if_fin_wait2 s e = ground (arith, once answered)

module _ {K : Type 0} where
  handle_heartbeat-state :
      (c : NetConnect K) (h : Host) (b : HeartBeat) → (handle_heartbeat c h b).1.state ≡ c.state
  unfolding handle_heartbeat
  handle_heartbeat-state c h b = ground arith

  handle_fin-Move :
      (c : NetConnect K) (h : Host) (p : Fin) → Move c.state (handle_fin c h p).1.state
  unfolding handle_fin
  handle_fin-Move c h p = ground (arith, stay c.state, if_fin_wait2 c.state)

  send_unreliable-state :
      (c : NetConnect K) (h : Host) (bytes : List ℕ) (len : ℕ)
      → (send_unreliable c h bytes len).1.state ≡ c.state
  unfolding send_unreliable get_cur_merge_packet
  send_unreliable-state c h bytes len = ground arith

module _ {K : Type 0} (lib : Library K) where
  recv_reliable-Move :
      (c : NetConnect K) (h : Host) (bytes : List ℕ) (len : ℕ)
      → Move c.state (recv_reliable lib c h bytes len).1.state
  unfolding recv_reliable clear_conn_data
  recv_reliable-Move c h bytes len =
      let (result, k) = Kcp.input lib c.kcp (take len bytes) in
      ground
        (arith, stay c.state, dis_connect-Move lib (record c { kcp = k }) h disconnect_dead_link)

  handle_body-Move :
      (c : NetConnect K) (h : Host) (head : Head) (body : Body)
      → Move c.state (handle_body lib c h head body).1.state
  unfolding handle_body recv_unreliable
  handle_body-Move c h head (Body.payload d) =
      ground (arith, stay c.state, recv_reliable-Move c h d.buff d.data_len)
  handle_body-Move c h head (Body.heartbeat b) = of_eq (handle_heartbeat-state c h b)
  handle_body-Move c h head (Body.fin p) = ground (
    arith,
    stay c.state,
    close_connect-Move lib c h close_client_fin,
    handle_fin-Move c h p,
    if_fin_wait1 c.state,
  )
  handle_body-Move c h head (Body.handshake b) = here
  handle_body-Move c h head (Body.reconnect b) = here
  handle_body-Move c h head (Body.rst b) = here

  pub handle_net_msg-Move :
      (c : NetConnect K) (h : Host) (m : Msg) → Move c.state (handle_net_msg lib c h m).1.state
  unfolding handle_net_msg clear_conn_data
  handle_net_msg-Move c h m =
      ground (arith, stay c.state, handle_body-Move (counted c m.net_size) h m.head m.body)

  send_reliable-state :
      (c : NetConnect K) (h : Host) (bytes : List ℕ) (len : ℕ)
      → (send_reliable lib c h bytes len).1.state ≡ c.state
  unfolding send_reliable
  send_reliable-state c h bytes len = ground arith

  pub send_msg-state :
      (c : NetConnect K) (h : Host) (bytes : List ℕ) (len : ℕ) (opt : MsgOpt)
      → (send_msg lib c h bytes len opt).1.state ≡ c.state
  unfolding send_msg
  send_msg-state c h bytes len opt =
      let (e, h1) =
        encode_msg_data lib c h bytes len max_encode_buf_size
          (if opt.is_encrypt == 0 then false else true) in
      ground (arith, send_unreliable-state c h1 e.buff e.len, send_reliable-state c h1 e.buff e.len)

  pub recv_loop-state :
      (fuel : ℕ) (c : NetConnect K) (h : Host) (w : NetConnect K × Host)
      → recv_loop lib fuel c h ≡ some w
      → w.0.state ≡ c.state
  unfolding recv_loop
  recv_loop-state zero c h w e = ground arith
  recv_loop-state (suc fuel) c h w e =
      let skipped = (Kcp.recv_null lib c.kcp (Kcp.peek_size lib c.kcp)).1 in
      let (result, msg, k) = Kcp.recv lib c.kcp max_encode_buf_size in
      let (ret, h1) = recv_one_msg lib (record c { kcp = k }) h msg (to_size result) in
      ground (
        arith,
        recv_loop-state fuel (record c { kcp = skipped }) h w,
        recv_loop-state fuel (record c { kcp = k }) h1 w,
      )

  pub proc_update-Move :
      (c : NetConnect K) (h : Host) (now : ℕ) → Move c.state (proc_update lib c h now).0.state
  unfolding proc_update
  proc_update-Move c h now =
      let (k, out) = Kcp.update lib c.kcp now in
      let c1 = record c { kcp = k } in
      ground (arith, stay c.state, dis_connect-Move lib c1 (send_all c1 h out) disconnect_dead_link)

  recv_msg_from_kcp-state :
      (fuel : ℕ) (c : NetConnect K) (h : Host) (w : NetConnect K × Host)
      → recv_msg_from_kcp lib fuel c h ≡ some w
      → w.0.state ≡ c.state
  unfolding recv_msg_from_kcp
  recv_msg_from_kcp-state fuel c h w = ground (arith, recv_loop-state fuel c h w)

  after_receive :
      (c c1 : NetConnect K) (h1 : Host) (now : ℕ)
      → c1.state ≡ c.state
      → Move c.state (proc_update lib c1 h1 now).0.state
  after_receive c c1 h1 now e = Move-from e (proc_update-Move c1 h1 now)

  pub proc-Move :
      (fuel : ℕ) (c : NetConnect K) (h : Host) (now : ℕ) (w : NetConnect K × Host)
      → proc lib fuel c h now ≡ some w
      → Move c.state w.0.state
  unfolding proc
  proc-Move fuel c h now w e = elim (Option-cases (recv_msg_from_kcp lib fuel c h)) [
    | inl n ↦ ground (arith, stay c.state)
    | inr ((c1, h1), m) ↦
        let r = after_receive c c1 h1 now (recv_msg_from_kcp-state fuel c h (c1, h1) m) in
        ground (arith, stay c.state, r)
  ]

  pub reconnect-Move :
      (c : NetConnect K) (h : Host) (addr : SockAddr)
      → Move c.state (reconnect lib c h addr).1.state
  unfolding reconnect
  reconnect-Move c h addr = ground (arith, stay c.state, if_disconnect c.state back)
