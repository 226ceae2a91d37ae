-- ===== src/Conn/Packets.antt =====
-- Packets that a connection puts on the send queue: those of KCP, and the merge packet that
-- collects unreliable messages.
use ttserver.Base.{
  ℕ, ◌+◌, ◌-◌, ◌%◌, ◌^◌, Bool, true, false, List, [], ◌∷◌, ◌++◌, Option, none, some, ltb, ◌==◌,
  if◌then◌else◌, drop, take, length,
}
use ttserver.Config.{max_packet_size, max_unreliable_msg_size}
use ttserver.Msg.PacketType
use ttserver.Msg.Packets.{head_size}
use ttserver.Msg.Writer.{new_writer, after_write, write_head, write_raw_data, write_unreliable}
use ttserver.Host.{Host, Packet, Ret, succ, fail, Ptr}
use ttserver.Host.Packets.{
  new_packet, find_packet, set_packet, finish_packet, filled, written_packet,
}
use ttserver.Conn.{NetConnect, Result}

abbrev reliable_bit : Bool → ℕ
reliable_bit true = 1
reliable_bit false = 0

-- The message behind what the packet has.
abbrev appended : List ℕ → ℕ → Packet → Packet
appended bytes len p =
    let w0 = new_writer (drop p.data_len p.buff) (p.buff_len - p.data_len) in
    let w = after_write w0 (write_unreliable w0 bytes len) in
    record p { buff = take p.data_len p.buff ++ w.buff; data_len = p.data_len + w.size }

abbrev points_to : Option Ptr → Ptr → Bool
points_to none i = false
points_to (some j) i = j == i

module _ {K : Type 0} where
  -- The fields that name the connection.
  abbrev pub addressed : NetConnect K → Packet → Packet
  addressed c p = record p {
    connect_id = c.conn_id;
    client_addr = c.client_addr;
    conn = some c.self;
  }

  -- `Send2NetWork`: a datagram of KCP behind a head.
  unfoldable pub send2network : NetConnect K → Host → List ℕ → ℕ → Bool → Ret × Host
  send2network c h bytes len reliable =
      finish_packet
        (λ p. addressed c (
          filled p (
            written_packet p
              (record { kind = PacketType.data_packet; is_reliable = reliable_bit reliable })
              (λ w. write_raw_data w bytes len))))
        (new_packet h (len + head_size))

  -- The datagrams that KCP hands to its output callback, in order; the results are not used.
  unfoldable pub send_all : NetConnect K → Host → List (List ℕ) → Host
  send_all c h [] = h
  send_all c h (d ∷ ds) = send_all c (send2network c h d (length d) true).1 ds

  -- A new merge packet, with its head written.
  abbrev start_merge : NetConnect K → Option Packet × Host → Option Packet × NetConnect K × Host
  start_merge c (none, h) = (none, record c { merge_packet = none }, h)
  start_merge c (some p, h) =
      let w0 = new_writer p.buff p.buff_len in
      let w =
        after_write w0
          (write_head w0 (record { kind = PacketType.data_packet; is_reliable = 0 })) in
      let p' = filled (addressed c p) w in
      (some p', record c { merge_packet = some p.id }, set_packet h p')

  abbrev merge_into : ℕ → NetConnect K → Host → Option Packet → Option Packet × NetConnect K × Host
  merge_into len c h none = start_merge c (new_packet h max_packet_size)
  merge_into len c h (some p) =
      let fresh = start_merge c (new_packet h max_packet_size) in
      if ltb (len + 2) (p.buff_len - p.data_len) then (some p, c, h) else fresh

  -- The packet that `m_poMergePacket` points to. A pointer to a packet that has left the queue would
  -- be read by the code all the same; here there is no packet then.
  abbrev pub current_merge : NetConnect K → Host → Option Packet
  current_merge c h = elim c.merge_packet [ none ↦ none | some i ↦ find_packet i h.send_queue ]

  -- `GetCurMergePacket`: the present one if the message and its length fit with a byte to spare.
  unfoldable pub get_cur_merge_packet :
      NetConnect K → Host → ℕ → Option Packet × NetConnect K × Host
  get_cur_merge_packet c h len = merge_into len c h (current_merge c h)

  abbrev append_message : List ℕ → ℕ → Option Packet × NetConnect K × Host → Result K
  append_message bytes len (none, c, h) = (fail, c, h)
  append_message bytes len (some p, c, h) = (succ, c, set_packet h (appended bytes len p))

  -- `SendUnreliable`.
  unfoldable pub send_unreliable : NetConnect K → Host → List ℕ → ℕ → Result K
  send_unreliable c h bytes len =
      if ltb max_unreliable_msg_size len
      then (fail, c, h)
      else append_message bytes len (get_cur_merge_packet c h len)

  abbrev count_sent : Packet → NetConnect K → NetConnect K
  count_sent p c = record c {
    stat = record c.stat {
      send_cnt = (c.stat.send_cnt + 1) % 2 ^ 32;
      send_size = (c.stat.send_size + p.data_len) % 2 ^ 32;
    };
  }

  -- `OnIOWrite`: the packet has left the queue, so it is no merge packet any more.
  unfoldable pub on_io_write : NetConnect K → Packet → NetConnect K
  on_io_write c p =
      count_sent p (if points_to c.merge_packet p.id then record c { merge_packet = none } else c)
