-- ===== src/Net/Client.antt =====
-- The client's half of the handshake, and its heartbeat, in src/net/NetWork.cpp.
use ttserver.Base.{
  ℕ, ◌+◌, ◌%◌, ◌^◌, [], Option, none, some, ltb, ◌==◌, if◌then◌else◌, replicate, take, memcpy,
}
use ttserver.Library.{Library, SockAddr}
use ttserver.Msg.PacketType
use ttserver.Msg.Packets.{HandShake, max_encrypt_data_len, head_size, heartbeat_size}
use ttserver.Msg.Writer.{write_heartbeat}
use ttserver.Host.{Ptr, Host, Ret, copy_into, succ, fail}
use ttserver.Host.Packets.{send_packet, send_handshake_msg}
use ttserver.Security.Dh.{Exchange}
use ttserver.Security.Dh
use ttserver.Conn.{NetConnect}
use ttserver.Net.{World, conn_at, put_conn, get_conn_by_id, on_host}
use ttserver.Net.Manager.{create_new_conn}

abbrev zero_handshake : HandShake
zero_handshake = record {
  time_stamp = 0;
  screte_key = 0;
  conn_id = 0;
  is_key = 0;
  encrypt_data_len = 0;
  ext_data = 0;
  encrypt_data = replicate 16 0;
  cookies = replicate 20 0;
}

module _ {K : Type 0} where
  -- `SendHandShake1Msg`.
  unfoldable pub send_handshake1_msg : World K → SockAddr → Ret × World K
  send_handshake1_msg w server = on_host w (
      send_handshake_msg w.host (record { kind = PacketType.handshake1; is_reliable = 0 })
        zero_handshake server)

  abbrev beat : ℕ → Option (NetConnect K) → Option (NetConnect K)
  beat now none = none
  beat now (some c) = some (record c { last_heartbeat = now })

  abbrev beat_found : World K → Option (Option Ptr) → Option (Ret × World K)
  beat_found w none = none
  beat_found w (some none) = some (succ, w)
  beat_found w (some (some p)) = elim (beat w.host.now (conn_at p w.conns)) [
    | none ↦ none
    | some c ↦ some (succ, record w { conns = put_conn p c w.conns })
  ]

  abbrev after_beat : World K → Ret × Host → Option (Ret × World K)
  after_beat w (fail, h) = some (fail, record w { host = h })
  after_beat w (succ, h) =
      let w1 = record w { host = h } in beat_found w1 (get_conn_by_id w1 w1.conn_id)

  -- `SendHeartBeat`; its time is in seconds.
  unfoldable pub send_heart_beat : World K → SockAddr → Option (Ret × World K)
  send_heart_beat w server = after_beat w (
      send_packet w.host (head_size + heartbeat_size)
        (record { kind = PacketType.heartbeat; is_reliable = 0 })
        (λ b.
          write_heartbeat b
            (record { conn_id = w.conn_id; client_time_ms = w.host.now; server_time_ms = 0 }))
        server)

module _ {K : Type 0} (lib : Library K) where
  -- The private number and its length are in place whether the call succeeds or not.
  abbrev ack1_done : World K → HandShake → SockAddr → Exchange → Ret × World K
  ack1_done w rsp server e =
      let drawn = record w {
        draws = w.draws + 1;
        encypt_data = record w.encypt_data { num_b = e.key; num_b_len = e.key_len };
      } in
      elim e.ret [
        | fail ↦ (fail, drawn)
        | succ ↦
            on_host
              (record drawn {
                encypt_data = record drawn.encypt_data {
                  num_a = memcpy w.encypt_data.num_a 0 (take e.num_len e.num);
                  num_a_len = e.num_len % 2 ^ 8;
                };
              })
              (send_handshake_msg w.host (record { kind = PacketType.handshake2; is_reliable = 0 })
                (record rsp {
                  is_key = 1;
                  encrypt_data_len = e.num_len % 2 ^ 8;
                  encrypt_data = e.num;
                })
                server)
      ]

  -- `HandleHandShake1Ack`.
  unfoldable pub handle_handshake1_ack : World K → HandShake → SockAddr → Ret × World K
  handle_handshake1_ack w rsp server = ack1_done w rsp server (
      Dh.handle_handshake1_ack lib w.draws (record {
        ret = fail;
        num = rsp.encrypt_data;
        num_len = 16;
        key = w.encypt_data.num_b;
        key_len = 16;
      }))

  abbrev pub client_created : Option (Ptr × NetConnect K) × World K → Ret × World K
  client_created (none, w) = (fail, w)
  client_created (some (p, c), w) = (succ, record w { conn_id = c.conn_id })

  abbrev pub keyed : World K → HandShake → SockAddr → Exchange → Ret × World K
  keyed w rsp server e =
      let secret = record w.encypt_data { key = e.key; key_len = e.key_len } in
      let w1 = record w { encypt_data = secret } in
      elim e.ret [
        | fail ↦ (fail, w1)
        | succ ↦ client_created (create_new_conn lib w1 server rsp.cookies secret)
      ]

  -- The key of the answer: as it is, or from the exchange. The caller notes when there are more than
  -- the 16 bytes of the fields.
  abbrev pub answer_key : World K → HandShake → Exchange
  answer_key w rsp =
      let e = w.encypt_data in
      if rsp.is_key == 0
      then Dh.handle_handshake2_ack lib rsp.encrypt_data rsp.encrypt_data_len e.num_a e.num_a_len
          e.num_b e.num_b_len
          (record { ret = fail; num = []; num_len = 0; key = e.key; key_len = 16 })
      else record {
        ret = succ;
        num = [];
        num_len = 0;
        key = memcpy e.key 0 (take rsp.encrypt_data_len rsp.encrypt_data);
        key_len = rsp.encrypt_data_len;
      }

  -- `HandleHandShake2Ack`. The connection's id is the client's own; the server's is only compared
  -- with 0.
  unfoldable pub handle_handshake2_ack : World K → HandShake → SockAddr → Ret × World K
  handle_handshake2_ack w rsp server =
      if ltb 0 w.conn_id
      then (succ, w)
      else if rsp.conn_id == 0
      then (succ, w)
      else keyed (record w { host = copy_into w.host max_encrypt_data_len rsp.encrypt_data_len })
          rsp server (answer_key w rsp)
