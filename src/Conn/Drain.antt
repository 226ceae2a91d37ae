-- ===== src/Conn/Drain.antt =====
-- The loop of `RecvMsgFromKcp` on an empty queue, and `SendMsg` without encryption.
use ttserver.Base.{
  ℕ, zero, suc, true, none, ◌≡◌, ◌≤◌, ◌^◌, lt→ltb, refl, arith, negsuc, to_size, List,
}
use ttserver.Config.{max_encode_buf_size}
use ttserver.Library.{Library}
use ttserver.Kcp.{Kcp}
use ttserver.Kcp
use ttserver.Host.{Host, fail}
use ttserver.Conn.{NetConnect, established}
use ttserver.Conn.Receive.{recv_loop, recv_msg_from_kcp, proc}
use ttserver.Conn.Data.{MsgOpt, encode_msg_data, send_reliable, send_msg}
use ttserver.Conn.Packets.{send_unreliable}

module _ {K : Type 0} (lib : Library K) where
  recv_loop-empty :
      (fuel : ℕ) (c : NetConnect K) (h : Host) (e n : ℕ)
      → lib.ikcp_peeksize c.kcp.ikcp ≡ negsuc e
      → e ≤ 2 ^ 31
      → lib.ikcp_recv_null c.kcp.ikcp (negsuc e) ≡ (negsuc n, c.kcp.ikcp)
      → recv_loop lib fuel c h ≡ none
  unfolding recv_loop Kcp.peek_size Kcp.recv_null
  recv_loop-empty zero c h e n p b q = refl
  recv_loop-empty (suc fuel) c h e n p b q =
      rw (p, q, lt→ltb max_encode_buf_size (to_size (negsuc e)) (omega arith))
        (recv_loop-empty fuel c h e n p b q)

  -- For an established connection that has received data, while KCP's peek gives a negative int
  -- and its receive call for that length then changes nothing: Proc does not return, whatever the
  -- fuel.
  pub proc-empty :
      (fuel : ℕ) (c : NetConnect K) (h : Host) (now e n : ℕ)
      → c.state ≡ established
      → c.kcp.need_recv ≡ true
      → lib.ikcp_peeksize c.kcp.ikcp ≡ negsuc e
      → e ≤ 2 ^ 31
      → lib.ikcp_recv_null c.kcp.ikcp (negsuc e) ≡ (negsuc n, c.kcp.ikcp)
      → proc lib fuel c h now ≡ none
  unfolding proc recv_msg_from_kcp
  proc-empty fuel c h now e n s r p b q = ground (arith, recv_loop-empty fuel c h e n p b q)

  -- SendMsg without encryption fails, for every connection, message and length, and leaves the
  -- connection and the host as they were.
  pub send_msg-plain :
      (c : NetConnect K) (h : Host) (bytes : List ℕ) (len : ℕ) (opt : MsgOpt)
      → opt.is_encrypt ≡ 0
      → send_msg lib c h bytes len opt ≡ (fail, c, h)
  unfolding send_msg encode_msg_data send_reliable send_unreliable
  send_msg-plain c h bytes len opt e = ground arith
