-- ===== src/Host/Sent.antt =====
-- What the `Send…` functions put on the send queue, decoded as its receiver does.
use ttserver.Base.{
  ℕ, ◌+◌, ◌^◌, ◌<◌, ◌≡◌, refl, arith, true, List, [], ◌∷◌, ◌++◌, Option, some, ◌==◌, ◌||◌, ◌⊎◌,
  memcpy,
}
use ttserver.Bytes.{le_bytes, le_word, encode8u, decode8u, encode32u, decode32u}
use ttserver.Library.{SockAddr}
use ttserver.Msg.PacketType
use ttserver.Msg.Packets.{Head, Body, head_size, rst_size, fin_size}
use ttserver.Msg.Reader.{read_head, read_rst, read_fin, head_of_byte, parse_rst, parse_fin}
use ttserver.Msg.Writer.{
  Writer, check_buff, put, write_head, write_rst, write_fin, byte_of_head, rst_bytes, fin_bytes,
}
use ttserver.Msg.Decode.{decode_body, decode_msg}
use ttserver.Host.{Host, Packet, Ptr, succ}
use ttserver.Host.Packets.{
  send_packet, new_packet, store_packet, zero_packet, written_packet, filled, send_rst_msg,
  send_fin_msg,
}

-- Every packet on the queue has an address that was allocated before.
abbrev pub IsOld : Ptr → List Packet → Type 0
IsOld n [] = Unit
IsOld n (q ∷ qs) = (q.id < n) × IsOld n qs

store_packet-append :
    (p p0 : Packet) (qs : List Packet)
    → p0.id ≡ p.id
    → IsOld p.id qs
    → store_packet p (qs ++ p0 ∷ []) ≡ qs ++ p ∷ []
unfolding store_packet
store_packet-append p p0 [] e o = ground arith
store_packet-append p p0 (q ∷ qs) e o = ground (arith, store_packet-append p p0 qs e o.1)

rst_writer : ℕ → ℕ → Ptr → Writer
rst_writer rst_type conn_id i =
    written_packet (zero_packet i (head_size + rst_size))
      (record { kind = PacketType.rst; is_reliable = 0 })
      (λ w. write_rst w (record { conn_id = conn_id; rst_type = rst_type }))

rst_writer-decoded :
    (rst_type conn_id : ℕ) (i : Ptr)
    → conn_id < 2 ^ 32
    → rst_type < 256
    → decode_msg (rst_writer rst_type conn_id i).buff (rst_writer rst_type conn_id i).size
      ≡ some (record {
        head = record { kind = PacketType.rst; is_reliable = 0 };
        body = Body.rst (record { conn_id = conn_id; rst_type = rst_type });
        net_size = 6;
      })
unfolding rst_writer write_head write_rst check_buff put memcpy byte_of_head rst_bytes encode32u
    encode8u le_bytes le_word decode_msg decode_body read_head read_rst head_of_byte parse_rst
    decode32u decode8u
rst_writer-decoded rst_type conn_id i a b = ground arith

fin_writer : ℕ → ℕ → ℕ → Ptr → Writer
fin_writer kind reason conn_id i =
    written_packet (zero_packet i (head_size + fin_size)) (record { kind = kind; is_reliable = 0 })
      (λ w. write_fin w (record { conn_id = conn_id; reason = reason }))

-- The packet that a sender leaves: addressed to the client, with what the writer wrote.
sent : Ptr → ℕ → SockAddr → Writer → Packet
sent i size client w = record (filled (zero_packet i size) w) { client_addr = client }

-- A sender that finds memory appends its packet to the queue.
send_packet-queue :
    (h : Host) (size : ℕ) (head : Head) (body : Writer → Option Writer) (client : SockAddr)
    → h.malloc h.next_packet ≡ true
    → IsOld h.next_packet h.send_queue
    → ((send_packet h size head body client).0 ≡ succ)
      × ((send_packet h size head body client).1.send_queue
          ≡ h.send_queue
            ++ sent h.next_packet size client
                (written_packet (zero_packet h.next_packet size) head body)
              ∷ [])
unfolding new_packet sent
send_packet-queue h size head body client m o =
    let p =
      sent h.next_packet size client (written_packet (zero_packet h.next_packet size) head body) in
    rw m (refl, store_packet-append p (zero_packet h.next_packet size) h.send_queue refl o)

-- With memory for a packet, on a queue of packets allocated before, and for an id and a type of
-- Rst in range: SendRstMsg returns 0 and appends one packet, addressed to the client, whose bytes
-- DecodeMsg decodes to a Rst with the same id and type.
send_rst_msg-decode_msg :
    (h : Host) (rst_type conn_id : ℕ) (client : SockAddr)
    → h.malloc h.next_packet ≡ true
    → IsOld h.next_packet h.send_queue
    → conn_id < 2 ^ 32
    → rst_type < 256
    → ((send_rst_msg h rst_type conn_id client).0 ≡ succ)
      × (p : Packet) × ((send_rst_msg h rst_type conn_id client).1.send_queue
          ≡ h.send_queue ++ p ∷ [])
      × (p.client_addr ≡ client)
      × (decode_msg p.buff p.data_len
          ≡ some (record {
            head = record { kind = PacketType.rst; is_reliable = 0 };
            body = Body.rst (record { conn_id = conn_id; rst_type = rst_type });
            net_size = 6;
          }))
unfolding send_rst_msg rst_writer sent
send_rst_msg-decode_msg h rst_type conn_id client m o a b =
    let i = h.next_packet in
    let head : Head = record { kind = PacketType.rst; is_reliable = 0 } in
    let body : Writer → Option Writer =
      λ w. write_rst w (record { conn_id = conn_id; rst_type = rst_type }) in
    let (done, queue) = send_packet-queue h (head_size + rst_size) head body client m o in
    (
      done,
      sent i (head_size + rst_size) client (rst_writer rst_type conn_id i),
      queue,
      refl,
      rst_writer-decoded rst_type conn_id i a b,
    )

fin_writer-decoded :
    (kind reason conn_id : ℕ) (i : Ptr)
    → (kind ≡ PacketType.fin) ⊎ (kind ≡ PacketType.fin_ack)
    → conn_id < 2 ^ 32
    → reason < 256
    → decode_msg (fin_writer kind reason conn_id i).buff (fin_writer kind reason conn_id i).size
      ≡ some (record {
        head = record { kind = kind; is_reliable = 0 };
        body = Body.fin (record { conn_id = conn_id; reason = reason });
        net_size = 6;
      })
unfolding fin_writer write_head write_fin check_buff put memcpy byte_of_head fin_bytes encode32u
    encode8u le_bytes le_word decode_msg decode_body read_head read_fin head_of_byte parse_fin
    decode32u decode8u
fin_writer-decoded kind reason conn_id i k a b = ground arith

-- With memory for a packet, on a queue of packets allocated before, and for the type Fin or
-- FinAck, an id and a reason in range: SendFinMsg returns 0 and appends one packet, addressed to
-- the client, whose bytes DecodeMsg decodes to a Fin with the same type, id and reason.
pub send_fin_msg-decode_msg :
    (h : Host) (kind conn_id reason : ℕ) (client : SockAddr)
    → h.malloc h.next_packet ≡ true
    → IsOld h.next_packet h.send_queue
    → (kind ≡ PacketType.fin) ⊎ (kind ≡ PacketType.fin_ack)
    → conn_id < 2 ^ 32
    → reason < 256
    → ((send_fin_msg h kind conn_id reason client).0 ≡ succ)
      × (p : Packet) × ((send_fin_msg h kind conn_id reason client).1.send_queue
          ≡ h.send_queue ++ p ∷ [])
      × (p.client_addr ≡ client)
      × (decode_msg p.buff p.data_len
          ≡ some (record {
            head = record { kind = kind; is_reliable = 0 };
            body = Body.fin (record { conn_id = conn_id; reason = reason });
            net_size = 6;
          }))
unfolding send_fin_msg fin_writer sent
send_fin_msg-decode_msg h kind conn_id reason client m o k a b =
    let i = h.next_packet in
    let head : Head = record { kind = kind; is_reliable = 0 } in
    let body : Writer → Option Writer =
      λ w. write_fin w (record { conn_id = conn_id; reason = reason }) in
    let (done, queue) = send_packet-queue h (head_size + fin_size) head body client m o in
    let allowed : (kind == PacketType.fin || kind == PacketType.fin_ack) ≡ true = ground arith in
    rw allowed (
      done,
      sent i (head_size + fin_size) client (fin_writer kind reason conn_id i),
      queue,
      refl,
      fin_writer-decoded kind reason conn_id i k a b,
    )
