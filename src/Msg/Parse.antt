-- ===== src/Msg/Parse.antt =====
-- Each packet's bytes, followed by anything, are taken apart into the packet and what follows.
use ttserver.Base.{
  ℕ, ◌≡◌, refl, List, ◌++◌, append_assoc, arith, length, take-append, drop-append, length-append,
}
use ttserver.Bytes.{encode8u, encode32u, encode64u}
use ttserver.Bytes.Laws.{
  decode8u-encode8u, decode32u-encode32u, decode64u-encode64u, length-le_bytes,
}
use ttserver.Msg.Packets.{
  Head, HandShake, HeartBeat, Reconnect, Rst, Fin, HeadRange, HandShakeRange, HeartBeatRange,
  ReconnectRange, RstRange, FinRange, handshake_size, heartbeat_size, reconnect_size, rst_size,
  fin_size,
}
use ttserver.Msg.Reader.{
  head_of_byte, parse_handshake, parse_heartbeat, parse_reconnect, parse_rst, parse_fin,
}
use ttserver.Msg.Writer.{
  byte_of_head, handshake_bytes, heartbeat_bytes, reconnect_bytes, rst_bytes, fin_bytes,
}

pub head_of_byte-byte_of_head : {h : Head} → HeadRange h → head_of_byte (byte_of_head h) ≡ h
unfolding head_of_byte byte_of_head
head_of_byte-byte_of_head v = ground arith

pub length-encode8u : (l : ℕ) → length (encode8u l) ≡ 1
unfolding encode8u
length-encode8u l = refl

pub length-encode32u : (l : ℕ) → length (encode32u l) ≡ 4
unfolding encode32u
length-encode32u l = length-le_bytes 4 l

pub length-encode64u : (l : ℕ) → length (encode64u l) ≡ 8
unfolding encode64u
length-encode64u l = length-le_bytes 8 l

pub length-fin_bytes : (p : Fin) → length (fin_bytes p) ≡ fin_size
unfolding fin_bytes
length-fin_bytes p = simp (length-append, length-encode32u, length-encode8u)

pub parse_fin-fin_bytes :
    {p : Fin} (rest : List ℕ) → FinRange p → parse_fin (fin_bytes p ++ rest) ≡ (p, rest)
unfolding parse_fin fin_bytes
parse_fin-fin_bytes {p} rest v = rw (
  append_assoc (encode32u p.conn_id) (encode8u p.reason) rest,
  decode32u-encode32u p.conn_id (encode8u p.reason ++ rest) v.conn_id,
  decode8u-encode8u p.reason rest v.reason,
)

pub length-rst_bytes : (p : Rst) → length (rst_bytes p) ≡ rst_size
unfolding rst_bytes
length-rst_bytes p = simp (length-append, length-encode32u, length-encode8u)

pub parse_rst-rst_bytes :
    {p : Rst} (rest : List ℕ) → RstRange p → parse_rst (rst_bytes p ++ rest) ≡ (p, rest)
unfolding parse_rst rst_bytes
parse_rst-rst_bytes {p} rest v = rw (
  append_assoc (encode32u p.conn_id) (encode8u p.rst_type) rest,
  decode32u-encode32u p.conn_id (encode8u p.rst_type ++ rest) v.conn_id,
  decode8u-encode8u p.rst_type rest v.rst_type,
)

pub length-reconnect_bytes :
    (p : Reconnect) → ReconnectRange p → length (reconnect_bytes p) ≡ reconnect_size
unfolding reconnect_bytes
length-reconnect_bytes p v = simp (length-append, length-encode32u, v.cookies)

pub parse_reconnect-reconnect_bytes :
    {p : Reconnect} (rest : List ℕ)
    → ReconnectRange p
    → parse_reconnect (reconnect_bytes p ++ rest) ≡ (p, rest)
unfolding parse_reconnect reconnect_bytes
parse_reconnect-reconnect_bytes {p} rest v = rw (
  append_assoc (encode32u p.conn_id) p.cookies rest,
  decode32u-encode32u p.conn_id (p.cookies ++ rest) v.conn_id,
  take-append p.cookies rest 20 v.cookies,
  drop-append p.cookies rest 20 v.cookies,
)

pub length-heartbeat_bytes : (p : HeartBeat) → length (heartbeat_bytes p) ≡ heartbeat_size
unfolding heartbeat_bytes
length-heartbeat_bytes p = simp (length-append, length-encode32u, length-encode64u)

pub parse_heartbeat-heartbeat_bytes :
    {p : HeartBeat} (rest : List ℕ)
    → HeartBeatRange p
    → parse_heartbeat (heartbeat_bytes p ++ rest) ≡ (p, rest)
unfolding parse_heartbeat heartbeat_bytes
parse_heartbeat-heartbeat_bytes {p} rest v = rw (
  append_assoc (encode32u p.conn_id) (encode64u client_time_ms ++ encode64u server_time_ms) rest,
  append_assoc (encode64u client_time_ms) (encode64u server_time_ms) rest,
  decode32u-encode32u p.conn_id (encode64u client_time_ms ++ (encode64u server_time_ms ++ rest))
      v.conn_id,
  decode64u-encode64u client_time_ms (encode64u server_time_ms ++ rest) v.client_time_ms,
  decode64u-encode64u server_time_ms rest v.server_time_ms,
)
  where
    open p use {client_time_ms, server_time_ms}

pub length-handshake_bytes :
    (p : HandShake) → HandShakeRange p → length (handshake_bytes p) ≡ handshake_size
unfolding handshake_bytes
length-handshake_bytes p v =
    simp (
      length-append, length-encode32u, length-encode8u, length-encode64u, v.encrypt_data, v.cookies,
    )

pub parse_handshake-handshake_bytes :
    {p : HandShake} (rest : List ℕ)
    → HandShakeRange p
    → parse_handshake (handshake_bytes p ++ rest) ≡ (p, rest)
unfolding parse_handshake handshake_bytes
parse_handshake-handshake_bytes {p} rest v = simp append_assoc (
    rw (
      decode32u-encode32u p.time_stamp _ v.time_stamp,
      decode8u-encode8u p.screte_key _ v.screte_key,
      decode32u-encode32u p.conn_id _ v.conn_id,
      decode8u-encode8u p.is_key _ v.is_key,
      decode8u-encode8u p.encrypt_data_len _ v.encrypt_data_len,
      decode64u-encode64u p.ext_data _ v.ext_data,
      take-append p.encrypt_data (p.cookies ++ rest) 16 v.encrypt_data,
      drop-append p.encrypt_data (p.cookies ++ rest) 16 v.encrypt_data,
      take-append p.cookies rest 20 v.cookies,
      drop-append p.cookies rest 20 v.cookies,
    ))
