-- ===== src/Msg/Decode.antt =====
-- `NetMsg::DecodeMsg`: a received datagram, taken apart by the type in its head.
use mathlib.Core.Option
use ttserver.Base.{ℕ, Bool, ◌||◌, List, Option, none, some, ◌==◌, if◌then◌else◌}
use ttserver.Msg.PacketType
use ttserver.Msg.Packets.{Head, Body}
use ttserver.Msg.Reader.{
  Reader, read_head, read_handshake, read_heartbeat, read_reconnect, read_rst, read_fin,
}

pub record Msg : Type 0 where
  pub head : Head
  pub body : Body
  pub net_size : ℕ

-- The types whose body is a handshake packet, and those whose body is a Fin packet.
abbrev pub is_handshake : ℕ → Bool
is_handshake t =
    t == PacketType.handshake1
    || t == PacketType.handshake2
    || t == PacketType.handshake1_ack
    || t == PacketType.handshake2_ack

abbrev pub is_fin : ℕ → Bool
is_fin t = t == PacketType.close || t == PacketType.fin || t == PacketType.fin_ack

-- The packet that a `Read` gave, as a member of the union.
abbrev body_of {ℓ} : {P : Type ℓ} → (P → Body) → Option (P × Reader) → Option Body
body_of member none = none
body_of member (some (p, _)) = some (member p)

-- The switch on the type of the head.
unfoldable pub decode_body : ℕ → Reader → Option Body
decode_body t r =
    if is_handshake t
    then body_of Body.handshake (read_handshake r)
    else if t == PacketType.data_packet
    then some (Body.payload (record { buff = r.buff; data_len = r.size }))
    else if t == PacketType.heartbeat
    then body_of Body.heartbeat (read_heartbeat r)
    else if t == PacketType.reconnect
    then body_of Body.reconnect (read_reconnect r)
    else if is_fin t
    then body_of Body.fin (read_fin r)
    else if t == PacketType.rst
    then body_of Body.rst (read_rst r)
    else none

abbrev decode_with : ℕ → Option (Head × Reader) → Option Msg
decode_with len none = none
decode_with len (some (h, r)) =
    Option.map (λ b. record { head = h; body = b; net_size = len }) (decode_body h.kind r)

-- `none` is the result -1: the message is not used then.
unfoldable pub decode_msg : List ℕ → ℕ → Option Msg
decode_msg buff len = decode_with len (read_head (record { buff = buff; size = len }))
