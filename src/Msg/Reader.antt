-- ===== src/Msg/Reader.antt =====
-- `NetReader`: a cursor over the bytes of a datagram. `-1` is `none`, which leaves the reader.
use ttserver.Base.{
  ℕ, ◌+◌, ◌-◌, ◌/◌, ◌%◌, ◌^◌, List, Option, none, some, ltb, if◌then◌else◌, take, drop, head_or, ℤ,
  pos, minus_one,
}
use ttserver.Bytes.{decode8u, decode16u, decode32u, decode64u}
use ttserver.Msg.Packets.{
  Head, HandShake, HeartBeat, Reconnect, Rst, Fin, DataHead, head_size, handshake_size,
  heartbeat_size, reconnect_size, rst_size, fin_size, data_head_size, max_encrypt_data_len,
  max_handshake_cookies_size,
}

-- `m_ptrBuff` is the list of the bytes from the pointer on, `m_ullSize` is kept beside it.
pub record Reader : Type 0 where
  pub buff : List ℕ
  pub size : ℕ

-- The bit fields of the head byte: the first declared field takes the low bits.
unfoldable pub head_of_byte : ℕ → Head
head_of_byte b = record { kind = b % 2 ^ 7; is_reliable = b / 2 ^ 7 % 2 }

unfoldable pub read_head : Reader → Option (Head × Reader)
read_head r =
    if ltb r.size head_size
    then none
    else some (
      head_of_byte (head_or r.buff 0),
      record { buff = drop head_size r.buff; size = r.size - head_size },
    )

-- No check: the size goes round on an empty buffer.
unfoldable pub read_data_head : Reader → DataHead × Reader
read_data_head r = (
  record { is_encrypt = head_or r.buff 0 % 2 },
  record { buff = drop data_head_size r.buff; size = (r.size + 2 ^ 64 - data_head_size) % 2 ^ 64 },
)

unfoldable pub parse_handshake : List ℕ → HandShake × List ℕ
parse_handshake p0 =
    let (time_stamp, p1) = decode32u p0 in
    let (screte_key, p2) = decode8u p1 in
    let (conn_id, p3) = decode32u p2 in
    let (is_key, p4) = decode8u p3 in
    let (encrypt_data_len, p5) = decode8u p4 in
    let (ext_data, p6) = decode64u p5 in
    let p7 = drop max_encrypt_data_len p6 in
    (
      record {
        time_stamp = time_stamp;
        screte_key = screte_key;
        conn_id = conn_id;
        is_key = is_key;
        encrypt_data_len = encrypt_data_len;
        ext_data = ext_data;
        encrypt_data = take max_encrypt_data_len p6;
        cookies = take max_handshake_cookies_size p7;
      },
      drop max_handshake_cookies_size p7,
    )

unfoldable pub parse_heartbeat : List ℕ → HeartBeat × List ℕ
parse_heartbeat p0 =
    let (conn_id, p1) = decode32u p0 in
    let (client_time_ms, p2) = decode64u p1 in
    let (server_time_ms, p3) = decode64u p2 in
    (
      record {
        conn_id = conn_id;
        client_time_ms = client_time_ms;
        server_time_ms = server_time_ms;
      },
      p3,
    )

unfoldable pub parse_reconnect : List ℕ → Reconnect × List ℕ
parse_reconnect p0 =
    let (conn_id, p1) = decode32u p0 in
    (
      record { conn_id = conn_id; cookies = take max_handshake_cookies_size p1 },
      drop max_handshake_cookies_size p1,
    )

unfoldable pub parse_rst : List ℕ → Rst × List ℕ
parse_rst p0 =
    let (conn_id, p1) = decode32u p0 in
    let (rst_type, p2) = decode8u p1 in (record { conn_id = conn_id; rst_type = rst_type }, p2)

unfoldable pub parse_fin : List ℕ → Fin × List ℕ
parse_fin p0 =
    let (conn_id, p1) = decode32u p0 in
    let (reason, p2) = decode8u p1 in (record { conn_id = conn_id; reason = reason }, p2)

-- The frame that the five `Read` of a packet share: the size check, the fields, the size left.
abbrev pub read_sized {ℓ} : {P : Type ℓ} → ℕ → (List ℕ → P × List ℕ) → Reader → Option (P × Reader)
read_sized size parse r =
    if ltb r.size size
    then none
    else some ((parse r.buff).0, record { buff = (parse r.buff).1; size = r.size - size })

unfoldable pub read_handshake : Reader → Option (HandShake × Reader)
read_handshake r = read_sized handshake_size parse_handshake r

unfoldable pub read_heartbeat : Reader → Option (HeartBeat × Reader)
read_heartbeat r = read_sized heartbeat_size parse_heartbeat r

unfoldable pub read_reconnect : Reader → Option (Reconnect × Reader)
read_reconnect r = read_sized reconnect_size parse_reconnect r

unfoldable pub read_rst : Reader → Option (Rst × Reader)
read_rst r = read_sized rst_size parse_rst r

unfoldable pub read_fin : Reader → Option (Fin × Reader)
read_fin r = read_sized fin_size parse_fin r

-- `PeekUnreliable`: its result, the message that `szOutBuff` points to (`none`: not set), and the
-- reader after it.
unfoldable pub peek_unreliable : Reader → ℤ × Option (List ℕ) × Reader
peek_unreliable r =
    if ltb r.size 2
    then (minus_one, none, r)
    else let len = (decode16u r.buff).0 in
      if ltb r.size (len + 2) then (minus_one, none, r) else (
        pos len,
        some (drop 2 r.buff),
        record { buff = drop (2 + len) r.buff; size = r.size - (2 + len) },
      )
