-- ===== src/Conn/Data.antt =====
-- Sending business data: `SendMsg`, `EncodeMsgData`, `SendReliable`.
use ttserver.Base.{
  ℕ, ◌+◌, Bool, true, false, List, [], ◌++◌, ltb, ◌==◌, if◌then◌else◌, take, ℤ, is_zero,
}
use ttserver.Bytes.{encode8u}
use ttserver.Config.{max_encode_buf_size, max_reliable_msg_size}
use ttserver.Library.{Library}
use ttserver.Security.{set_enc_key, encrypt_data}
use ttserver.Kcp.{Kcp}
use ttserver.Kcp
use ttserver.Host.{Host, Ret, succ, fail}
use ttserver.Conn.{NetConnect, Result, is_established}
use ttserver.Conn.Packets.{send_unreliable}

-- `MsgOpt`.
pub record MsgOpt : Type 0 where
  pub is_reliable : ℕ
  pub is_encrypt : ℕ

-- The result of `EncodeMsgData`: the bytes that it put at the start of the buffer, and the length
-- that it leaves in `iEncodeDataLen`.
pub record Encoded : Type 0 where
  pub ret : Ret
  pub buff : List ℕ
  pub len : ℕ

module _ {K : Type 0} (lib : Library K) where
  -- `EncodeMsgData`; `encode_len` is the size of the buffer at the call. The static buffer's old
  -- bytes behind the new ones are not kept: the calls below do not read them.
  unfoldable pub encode_msg_data : NetConnect K → Host → List ℕ → ℕ → ℕ → Bool → Encoded × Host
  encode_msg_data c h bytes len encode_len true =
      let h1 = set_enc_key h c.encypt_data.key c.encypt_data.key_len in
      let (cipher, cipher_len) = encrypt_data lib h1.security_key bytes len in
      (record { ret = succ; buff = encode8u 1 ++ cipher; len = cipher_len }, h1)
  encode_msg_data c h bytes len encode_len false =
      if ltb encode_len (1 + len)
      then (record { ret = fail; buff = []; len = encode_len }, h)
      else (record { ret = succ; buff = encode8u 0 ++ take len bytes; len = encode_len }, h)

  -- The longest queue of waiting packets.
  abbrev count_waiting : NetConnect K → NetConnect K
  count_waiting c =
      let waiting = Kcp.get_wait_snd lib c.kcp in
      if ltb c.stat.max_wait_send waiting
      then record c { stat = record c.stat { max_wait_send = waiting } }
      else c

  abbrev sent_to_kcp : NetConnect K → Host → ℤ × Kcp K → Result K
  sent_to_kcp c h (result, k) =
      if is_zero result
      then (succ, count_waiting (record c { kcp = k }), h)
      else (fail, record c { kcp = k }, h)

  -- `SendReliable`.
  unfoldable pub send_reliable : NetConnect K → Host → List ℕ → ℕ → Result K
  send_reliable c h bytes len =
      if ltb max_reliable_msg_size len
      then (fail, c, h)
      else sent_to_kcp c h (Kcp.send lib c.kcp (take len bytes))

  abbrev send_encoded : NetConnect K → MsgOpt → Encoded × Host → Result K
  send_encoded c opt (e, h) = elim e.ret [
    | fail ↦ (fail, c, h)
    | succ ↦
        if opt.is_reliable == 0
        then send_unreliable c h e.buff e.len
        else send_reliable c h e.buff e.len
  ]

  -- `SendMsg`: the whole static buffer is offered to `EncodeMsgData`.
  unfoldable pub send_msg : NetConnect K → Host → List ℕ → ℕ → MsgOpt → Result K
  send_msg c h bytes len opt =
      if is_established c.state
      then send_encoded c opt (
          encode_msg_data c h bytes len max_encode_buf_size
            (if opt.is_encrypt == 0 then false else true))
      else (fail, c, h)
