-- ===== src/Host/Packets.antt =====
-- Packets on the send queue, and the `Send…` functions of src/net/NetWork.cpp.
use ttserver.Base.{
  ℕ, ◌+◌, List, [], ◌∷◌, ◌++◌, Option, none, some, ◌==◌, ◌||◌, if◌then◌else◌, replicate,
}
use ttserver.Library.{SockAddr}
use ttserver.Host.{Ptr, Packet, Host, Ret, succ, fail}
use ttserver.Msg.PacketType
use ttserver.Msg.Packets.{
  Head, HandShake, Reconnect, head_size, handshake_size, reconnect_size, rst_size, fin_size,
}
use ttserver.Msg.Writer.{
  Writer, new_writer, after_write, write_head, write_handshake, write_reconnect, write_rst,
  write_fin,
}

-- All bytes are zero after `memset`.
abbrev pub zero_addr : SockAddr
zero_addr = record { family = 0; port = 0; ip = 0 }

abbrev pub zero_packet : Ptr → ℕ → Packet
zero_packet i buffer_size = record {
  id = i;
  client_addr = zero_addr;
  connect_id = 0;
  conn = none;
  data_len = 0;
  buff_len = buffer_size;
  buff = replicate buffer_size 0;
}

-- `NewPacket`: the new packet stands last on the send queue. A failed allocation is counted too.
unfoldable pub new_packet : Host → ℕ → Option Packet × Host
new_packet h buffer_size =
    if h.malloc h.next_packet
    then (
      some (zero_packet h.next_packet buffer_size),
      record h {
        next_packet = h.next_packet + 1;
        send_queue = h.send_queue ++ zero_packet h.next_packet buffer_size ∷ [];
      },
    )
    else (none, record h { next_packet = h.next_packet + 1 })

-- A write through a pointer to a packet on the queue.
unfoldable pub store_packet : Packet → List Packet → List Packet
store_packet p [] = []
store_packet p (q ∷ qs) = if q.id == p.id then p ∷ qs else q ∷ store_packet p qs

unfoldable pub find_packet : Ptr → List Packet → Option Packet
find_packet i [] = none
find_packet i (q ∷ qs) = if q.id == i then some q else find_packet i qs

abbrev pub set_packet : Host → Packet → Host
set_packet h p = record h { send_queue = store_packet p h.send_queue }

-- The head and the body that a `Send…` writes; it ignores both results.
abbrev pub written_packet : Packet → Head → (Writer → Option Writer) → Writer
written_packet p head body =
    let w0 = new_writer p.buff p.buff_len in
    let w1 = after_write w0 (write_head w0 head) in after_write w1 (body w1)

-- What the packet holds after that, before its other fields are set.
abbrev pub filled : Packet → Writer → Packet
filled p w = record p { buff = w.buff; data_len = w.size }

-- The end of a `Send…`: without memory it returns -1.
abbrev pub finish_packet : (Packet → Packet) → Option Packet × Host → Ret × Host
finish_packet fill (none, h) = (fail, h)
finish_packet fill (some p, h) = (succ, set_packet h (fill p))

-- The frame of the `Send…` functions that answer a client.
abbrev pub send_packet : Host → ℕ → Head → (Writer → Option Writer) → SockAddr → Ret × Host
send_packet h size head body client =
    finish_packet (λ p. record (filled p (written_packet p head body)) { client_addr = client })
      (new_packet h size)

unfoldable pub send_handshake_msg : Host → Head → HandShake → SockAddr → Ret × Host
send_handshake_msg h head packet client =
    send_packet h (head_size + handshake_size) head (λ w. write_handshake w packet) client

unfoldable pub send_rst_msg : Host → ℕ → ℕ → SockAddr → Ret × Host
send_rst_msg h rst_type conn_id client =
    send_packet h (head_size + rst_size) (record { kind = PacketType.rst; is_reliable = 0 })
      (λ w. write_rst w (record { conn_id = conn_id; rst_type = rst_type })) client

-- Only the two Fin types are sent.
unfoldable pub send_fin_msg : Host → ℕ → ℕ → ℕ → SockAddr → Ret × Host
send_fin_msg h kind conn_id reason client =
    if kind == PacketType.fin || kind == PacketType.fin_ack
    then send_packet h (head_size + fin_size) (record { kind = kind; is_reliable = 0 })
        (λ w. write_fin w (record { conn_id = conn_id; reason = reason })) client
    else (fail, h)

-- The reply of `SendReconnctAck`: the connection's id and cookie, or zeros for a null pointer.
abbrev pub reconnect_reply : Option (ℕ × List ℕ) → Reconnect
reconnect_reply none = record { conn_id = 0; cookies = replicate 20 0 }
reconnect_reply (some (conn_id, cookie)) = record { conn_id = conn_id; cookies = cookie }

unfoldable pub send_reconnect_ack : Host → SockAddr → Option (ℕ × List ℕ) → Ret × Host
send_reconnect_ack h client conn =
    send_packet h (head_size + reconnect_size)
      (record { kind = PacketType.reconnect_ack; is_reliable = 0 })
      (λ w. write_reconnect w (reconnect_reply conn)) client
