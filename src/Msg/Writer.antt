-- ===== src/Msg/Writer.antt =====
-- `NetWriter`: appends to a buffer of fixed size. `-1` is `none`, which leaves the writer.
use ttserver.Base.{
  ℕ, ◌+◌, ◌-◌, ◌*◌, ◌%◌, ◌^◌, Bool, List, [], ◌∷◌, ◌++◌, Option, none, some, leb, if◌then◌else◌,
  take, memcpy,
}
use ttserver.Bytes.{encode8u, encode16u, encode32u, encode64u}
use ttserver.Msg.Packets.{
  Head, HandShake, HeartBeat, Reconnect, Rst, Fin, DataHead, head_size, handshake_size,
  heartbeat_size, reconnect_size, rst_size, fin_size,
}

pub record Writer : Type 0 where
  pub buff : List ℕ
  pub max_size : ℕ
  pub size : ℕ

abbrev pub new_writer : List ℕ → ℕ → Writer
new_writer buff max_size = record { buff = buff; max_size = max_size; size = 0 }

-- `size_t` subtraction goes round.
unfoldable pub check_buff : Writer → ℕ → Bool
check_buff w n = leb n ((2 ^ 64 + w.max_size - w.size) % 2 ^ 64)

-- Bytes written at `m_ptrBuff + m_ulSize`, which then advances by `n`. Every caller has checked
-- the room for `n` bytes, so the sum does not go round.
unfoldable pub put : Writer → List ℕ → ℕ → Writer
put w bytes n = record w { buff = memcpy w.buff w.size bytes; size = w.size + n }

abbrev pub write_checked : Writer → List ℕ → ℕ → Option Writer
write_checked w bytes n = if check_buff w n then some (put w bytes n) else none

unfoldable pub byte_of_head : Head → ℕ
byte_of_head h = h.kind % 2 ^ 7 + 2 ^ 7 * (h.is_reliable % 2)

unfoldable pub handshake_bytes : HandShake → List ℕ
handshake_bytes p =
    encode32u p.time_stamp
    ++ (encode8u p.screte_key
        ++ (encode32u p.conn_id
            ++ (encode8u p.is_key
                ++ (encode8u p.encrypt_data_len
                    ++ (encode64u p.ext_data ++ (p.encrypt_data ++ p.cookies))))))

unfoldable pub heartbeat_bytes : HeartBeat → List ℕ
heartbeat_bytes p =
    encode32u p.conn_id ++ (encode64u p.client_time_ms ++ encode64u p.server_time_ms)

unfoldable pub reconnect_bytes : Reconnect → List ℕ
reconnect_bytes p = encode32u p.conn_id ++ p.cookies

unfoldable pub rst_bytes : Rst → List ℕ
rst_bytes p = encode32u p.conn_id ++ encode8u p.rst_type

unfoldable pub fin_bytes : Fin → List ℕ
fin_bytes p = encode32u p.conn_id ++ encode8u p.reason

unfoldable pub write_head : Writer → Head → Option Writer
write_head w h = write_checked w (byte_of_head h ∷ []) head_size

unfoldable pub write_handshake : Writer → HandShake → Option Writer
write_handshake w p = write_checked w (handshake_bytes p) handshake_size

unfoldable pub write_heartbeat : Writer → HeartBeat → Option Writer
write_heartbeat w p = write_checked w (heartbeat_bytes p) heartbeat_size

unfoldable pub write_reconnect : Writer → Reconnect → Option Writer
write_reconnect w p = write_checked w (reconnect_bytes p) reconnect_size

unfoldable pub write_rst : Writer → Rst → Option Writer
write_rst w p = write_checked w (rst_bytes p) rst_size

unfoldable pub write_fin : Writer → Fin → Option Writer
write_fin w p = write_checked w (fin_bytes p) fin_size

unfoldable pub write_data_head : Writer → DataHead → Option Writer
write_data_head w h = write_checked w (encode8u h.is_encrypt) 1

-- The length goes in front of the data as a `uint16_t`; `src` holds at least `len` bytes.
unfoldable pub write_unreliable : Writer → List ℕ → ℕ → Option Writer
write_unreliable w src len = write_checked w (encode16u (len % 2 ^ 16) ++ take len src) (2 + len)

unfoldable pub write_raw_data : Writer → List ℕ → ℕ → Option Writer
write_raw_data w src len = write_checked w (take len src) len

-- A call whose result the caller ignores leaves the writer as it was when it fails.
abbrev pub after_write : Writer → Option Writer → Writer
after_write w none = w
after_write w (some w') = w'
