-- ===== src/Msg/RoundTrip.antt =====
-- What `NetWriter` writes, `NetReader` reads.
use ttserver.Base.{
  ℕ, ◌+◌, ◌-◌, ◌^◌, ◌≤◌, ◌<◌, ◌≡◌, refl, true, List, ◌∷◌, [], ◌++◌, Option, some, arith, length,
  take, drop, length-memcpy, drop-memcpy, take-memcpy, drop-memcpy_after, ltb-false, head_or,
  le→leb,
}
use ttserver.Msg.Packets.{
  Head, HandShake, HeartBeat, Reconnect, Rst, Fin, HeadRange, HandShakeRange, HeartBeatRange,
  ReconnectRange, RstRange, FinRange, head_size, handshake_size, heartbeat_size, reconnect_size,
  rst_size, fin_size,
}
use ttserver.Msg.Reader.{
  Reader, read_sized, read_head, read_handshake, read_heartbeat, read_reconnect, read_rst, read_fin,
  head_of_byte, parse_handshake, parse_heartbeat, parse_reconnect, parse_rst, parse_fin,
}
use ttserver.Msg.Writer.{
  Writer, check_buff, put, write_checked, write_head, write_handshake, write_heartbeat,
  write_reconnect, write_rst, write_fin, byte_of_head, handshake_bytes, heartbeat_bytes,
  reconnect_bytes, rst_bytes, fin_bytes,
}
use ttserver.Msg.Parse.{
  head_of_byte-byte_of_head, length-fin_bytes, parse_fin-fin_bytes, length-rst_bytes,
  parse_rst-rst_bytes, length-reconnect_bytes, parse_reconnect-reconnect_bytes,
  length-heartbeat_bytes, parse_heartbeat-heartbeat_bytes, length-handshake_bytes,
  parse_handshake-handshake_bytes,
}

-- A writer inside its buffer.
pub record IsValid (w : Writer) : Type 0 where
  pub used : w.size ≤ w.max_size
  pub held : w.max_size ≤ length w.buff
  pub small : w.max_size < 2 ^ 64

-- A reader over the bytes that a writer has written, from the offset `off` on.
abbrev pub reader_at : Writer → ℕ → Reader
reader_at w off = record { buff = drop off w.buff; size = w.size - off }

-- A write of `n` bytes that succeeds, moves on by exactly `n`, spoils nothing written before, and
-- is read back by `read`.
pub record Written {ℓ} {P : Type ℓ} (w : Writer) (out : Option Writer) (n : ℕ)
    (read : Reader → Option (P × Reader)) (p : P) : Type ℓ where
  pub w' : Writer
  pub success : out ≡ some w'
  pub advanced : w'.size ≡ w.size + n
  pub valid : IsValid w'
  pub before : take w.size w'.buff ≡ take w.size w.buff
  pub read_back : read (reader_at w' w.size) ≡ some (p, reader_at w' w'.size)

pub check_buff_room :
    (w : Writer) (n : ℕ) → IsValid w → w.size + n ≤ w.max_size → check_buff w n ≡ true
unfolding check_buff
check_buff_room w n v h = le→leb n _ (omega arith)

module _ (w : Writer) (v : IsValid w) where
  pub put-IsValid :
      (bytes : List ℕ) (n : ℕ)
      → length bytes ≡ n
      → w.size + n ≤ w.max_size
      → IsValid (put w bytes n)
  unfolding put
  put-IsValid bytes n e h = record {
    used = h;
    held = omega (arith, length-memcpy w.buff w.size bytes);
    small = v.small;
  }

  -- The frame of every write of a packet.
  written {ℓ} :
      {P : Type ℓ} (bytes : List ℕ) (n : ℕ) (parse : List ℕ → P × List ℕ) (p : P)
      → length bytes ≡ n
      → ((rest : List ℕ) → parse (bytes ++ rest) ≡ (p, rest))
      → w.size + n ≤ w.max_size
      → Written w (write_checked w bytes n) n (read_sized n parse) p
  unfolding put
  written bytes n parse p e back h = record {
    w' = put w bytes n;
    success = rw (check_buff_room w n v h);
    advanced = refl;
    valid = put-IsValid bytes n e h;
    before = take-memcpy w.buff w.size bytes (omega arith);
    read_back =
        rw
          (
            ltb-false (w.size + n - w.size) n (omega arith),
            drop-memcpy w.buff w.size bytes (omega arith),
            back (drop (w.size + length bytes) w.buff),
            drop-memcpy_after w.buff w.size (w.size + n) bytes (omega arith) (omega arith),
          )
          (ground (arith, e));
  }

-- Each packet is written whole, and read back as it was.
module _ (w : Writer) (v : IsValid w) where
  -- A handshake packet whose fields are in range, written where the buffer has room for it, is
  -- written whole: the writer moves on by its size and stays valid, the bytes before it are as
  -- they were, and a reader at its place reads the same packet and stops behind it.
  write_handshake-read :
      (p : HandShake)
      → HandShakeRange p
      → w.size + handshake_size ≤ w.max_size
      → Written w (write_handshake w p) handshake_size read_handshake p
  unfolding write_handshake read_handshake
  write_handshake-read p r h =
      written w v (handshake_bytes p) handshake_size parse_handshake p (length-handshake_bytes p r)
        (λ rest. parse_handshake-handshake_bytes rest r) h

  -- A heartbeat packet whose fields are in range, written where the buffer has room for it, is
  -- written whole, spoils no byte before it, and is read back as it was.
  pub write_heartbeat-read :
      (p : HeartBeat)
      → HeartBeatRange p
      → w.size + heartbeat_size ≤ w.max_size
      → Written w (write_heartbeat w p) heartbeat_size read_heartbeat p
  unfolding write_heartbeat read_heartbeat
  write_heartbeat-read p r h =
      written w v (heartbeat_bytes p) heartbeat_size parse_heartbeat p (length-heartbeat_bytes p)
        (λ rest. parse_heartbeat-heartbeat_bytes rest r) h

  -- A reconnect packet whose fields are in range, written where the buffer has room for it, is
  -- written whole, spoils no byte before it, and is read back as it was.
  pub write_reconnect-read :
      (p : Reconnect)
      → ReconnectRange p
      → w.size + reconnect_size ≤ w.max_size
      → Written w (write_reconnect w p) reconnect_size read_reconnect p
  unfolding write_reconnect read_reconnect
  write_reconnect-read p r h =
      written w v (reconnect_bytes p) reconnect_size parse_reconnect p (length-reconnect_bytes p r)
        (λ rest. parse_reconnect-reconnect_bytes rest r) h

  -- A Rst packet whose fields are in range, written where the buffer has room for it, is written
  -- whole, spoils no byte before it, and is read back as it was.
  pub write_rst-read :
      (p : Rst)
      → RstRange p
      → w.size + rst_size ≤ w.max_size
      → Written w (write_rst w p) rst_size read_rst p
  unfolding write_rst read_rst
  write_rst-read p r h =
      written w v (rst_bytes p) rst_size parse_rst p (length-rst_bytes p)
        (λ rest. parse_rst-rst_bytes rest r) h

  -- A Fin packet whose fields are in range, written where the buffer has room for it, is written
  -- whole, spoils no byte before it, and is read back as it was.
  pub write_fin-read :
      (p : Fin)
      → FinRange p
      → w.size + fin_size ≤ w.max_size
      → Written w (write_fin w p) fin_size read_fin p
  unfolding write_fin read_fin
  write_fin-read p r h =
      written w v (fin_bytes p) fin_size parse_fin p (length-fin_bytes p)
        (λ rest. parse_fin-fin_bytes rest r) h

  -- A head whose type fits 7 bits and whose flag fits one, written where the buffer has room for
  -- it, is written whole, spoils no byte before it, and is read back as it was.
  pub write_head-read :
      (p : Head)
      → HeadRange p
      → w.size + head_size ≤ w.max_size
      → Written w (write_head w p) head_size read_head p
  unfolding write_head read_head
  write_head-read p r h =
      written w v (byte_of_head p ∷ []) head_size (λ l. (head_of_byte (head_or l 0), drop 1 l)) p
        refl (λ rest. rw (head_of_byte-byte_of_head r)) h
