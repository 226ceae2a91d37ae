-- ===== src/Conn/Receive.antt =====
-- Receiving: KCP's messages, unreliable messages, and `Proc`.
use mathlib.Core.Bool.{not}
use ttserver.Base.{
  ℕ, zero, suc, ◌+◌, ◌%◌, ◌^◌, Bool, ◌&&◌, ◌||◌, List, Option, none, some, ltb, ◌==◌, if◌then◌else◌,
  take, ℤ, to_size, is_zero,
}
use ttserver.Config.{
  max_biz_msg_size, max_encode_buf_size, max_unreliable_msg_size, msg_proto, disconnect_dead_link,
  rst_disconnect,
}
use ttserver.Library.{Library}
use ttserver.Msg.PacketType
use ttserver.Msg.Reader.{Reader, read_data_head, peek_unreliable}
use ttserver.Security.{set_enc_key, decrypt_data}
use ttserver.Kcp.{Kcp}
use ttserver.Kcp
use ttserver.Host.{Host, Ret, copy_into, succ, fail}
use ttserver.Host.Packets.{send_fin_msg, send_rst_msg}
use ttserver.Host.Events.{RecvMsgHead, send_n2m_msg}
use ttserver.Conn.{NetConnect, Result, is_established, is_fin_wait1, is_fin_wait2}
use ttserver.Conn.Life.{dis_connect, clear_conn_data, after_call}
use ttserver.Conn.Packets.{send_all}

module _ {K : Type 0} (lib : Library K) where
  abbrev recv_head : NetConnect K → ℕ → RecvMsgHead
  recv_head c len = record {
    msg_type = msg_proto;
    is_proc = 0;
    conn_id = c.conn_id;
    data_len = len % 2 ^ 32;
  }

  -- What is left behind the data head goes to the main thread, decrypted where its flag says so, in a
  -- buffer of MAX_BIZ_MSG_SIZE bytes. `DecryptData` reads the last byte.
  abbrev deliver : NetConnect K → Host → Bool → Reader → Ret × Host
  deliver c h encrypted r =
      let h0 = copy_into (copy_into h max_biz_msg_size r.size) r.size 1 in
      let h1 = set_enc_key h0 c.encypt_data.key c.encypt_data.key_len in
      let (bytes, len) = decrypt_data lib h1.security_key r.buff (r.size % 2 ^ 32) in
      if encrypted
      then send_n2m_msg h1 (recv_head c len) bytes
      else send_n2m_msg h (recv_head c r.size) r.buff

  -- `RecvOneMsg`.
  unfoldable pub recv_one_msg : NetConnect K → Host → List ℕ → ℕ → Ret × Host
  recv_one_msg c h msg len =
      if ltb len 1
      then (fail, h)
      else let (head, r) = read_data_head (record { buff = msg; size = len }) in
        deliver c h (not (head.is_encrypt == 0)) r

  -- The loop of `RecvMsgFromKcp`. The lengths are `size_t`, so the test `0 > iPeekLen` never holds
  -- and is left out. `none`: the fuel is used up.
  unfoldable pub recv_loop : ℕ → NetConnect K → Host → Option (NetConnect K × Host)
  recv_loop zero c h = none
  recv_loop (suc fuel) c h =
      let peek = to_size (Kcp.peek_size lib c.kcp) in
      let skipped = (Kcp.recv_null lib c.kcp (Kcp.peek_size lib c.kcp)).1 in
      let skip = recv_loop fuel (record c { kcp = skipped }) h in
      let (result, msg, k) = Kcp.recv lib c.kcp max_encode_buf_size in
      let (ret, h1) = recv_one_msg (record c { kcp = k }) h msg (to_size result) in
      let next = recv_loop fuel (record c { kcp = k }) h1 in
      if ltb max_encode_buf_size peek || peek == 0
      then skip
      else if not (to_size result == peek)
      then some (record c { kcp = k }, h)
      else next

  -- `RecvMsgFromKcp`, which returns 0.
  unfoldable pub recv_msg_from_kcp : ℕ → NetConnect K → Host → Option (NetConnect K × Host)
  recv_msg_from_kcp fuel c h = if c.kcp.need_recv then recv_loop fuel c h else some (c, h)

  -- The Fin of the safe close: once nothing waits in KCP, and not within 200 ms of the last one.
  abbrev pub proc_fin : NetConnect K → Host → ℕ → NetConnect K × Host
  proc_fin c h now =
      if is_fin_wait1 c.state && Kcp.get_wait_snd lib c.kcp == 0 && ltb (c.send_fin_time + 200) now
      then (
        record c { send_fin_time = now },
        (send_fin_msg h PacketType.fin c.conn_id c.close_reason c.client_addr).1,
      )
      else (c, h)

  -- `Proc` behind the receiving of messages.
  unfoldable pub proc_update : NetConnect K → Host → ℕ → NetConnect K × Host
  proc_update c h now =
      let (k, out) = Kcp.update lib c.kcp now in
      let c1 = record c { kcp = k } in
      let h1 = send_all c1 h out in
      if Kcp.is_dead_link lib k && is_established c.state
      then after_call (dis_connect c1 h1 disconnect_dead_link)
      else proc_fin c1 h1 now

  -- `Proc`, but for the number 0 that it returns.
  unfoldable pub proc : ℕ → NetConnect K → Host → ℕ → Option (NetConnect K × Host)
  proc fuel c h now =
      if is_established c.state || is_fin_wait1 c.state || is_fin_wait2 c.state
      then elim (recv_msg_from_kcp fuel c h) [
        | none ↦ none
        | some (c1, h1) ↦ some (proc_update c1 h1 now)
      ]
      else some (c, h)

  -- A broken sequence of KCP: the connection is cut and its client told.
  abbrev broken : NetConnect K → Result K → Result K
  broken c (r, c2, h2) =
      (fail, clear_conn_data lib c2, (send_rst_msg h2 rst_disconnect c.conn_id c.client_addr).1)

  abbrev input_done : NetConnect K → Host → ℤ × Kcp K → Result K
  input_done c h (result, k) =
      let c1 = record c { kcp = k } in
      if not (is_zero result)
      then (fail, c1, h)
      else if Kcp.is_sn_broken lib k
      then broken c (dis_connect c1 h disconnect_dead_link)
      else (succ, c1, h)

  -- `RecvReliable`.
  unfoldable pub recv_reliable : NetConnect K → Host → List ℕ → ℕ → Result K
  recv_reliable c h bytes len = input_done c h (Kcp.input lib c.kcp (take len bytes))

  -- One round of the loop of `RecvUnreliable`: the reader after it, or `none` for a `break`.
  abbrev pub recv_round : NetConnect K → Host → ℤ × Option (List ℕ) × Reader → Option Reader × Host
  recv_round c h (result, none, r) = (none, h)
  recv_round c h (result, some msg, r) =
      let (ret, h1) = recv_one_msg c h msg (to_size result) in
      if to_size result == 0 || ltb max_unreliable_msg_size (to_size result)
      then (none, h)
      else elim ret [ succ ↦ (some r, h1) | fail ↦ (none, h1) ]

  abbrev pub next_round : (Host → Reader → Host) → Option Reader × Host → Host
  next_round rest (none, h) = h
  next_round rest (some r, h) = rest h r

  -- The loop of `RecvUnreliable`; the fuel counts its rounds.
  unfoldable pub recv_unreliable_loop : ℕ → NetConnect K → Host → Reader → Host
  recv_unreliable_loop zero c h r = h
  recv_unreliable_loop (suc fuel) c h r =
      if r.size == 0
      then h
      else next_round (recv_unreliable_loop fuel c) (recv_round c h (peek_unreliable r))

  unfoldable pub recv_unreliable : NetConnect K → Host → List ℕ → ℕ → Ret × Host
  recv_unreliable c h bytes len =
      (succ, recv_unreliable_loop (suc len) c h (record { buff = bytes; size = len }))
