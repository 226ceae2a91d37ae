-- ===== src/Msg/PacketType.antt =====
-- `EnmNetPacketType` of src/net/NetCommDef.h, as it stands in the 7-bit field `bType`.
use ttserver.Base.{ℕ}

abbrev pub handshake1 : ℕ
handshake1 = 1

abbrev pub handshake1_ack : ℕ
handshake1_ack = 2

abbrev pub handshake2 : ℕ
handshake2 = 3

abbrev pub handshake2_ack : ℕ
handshake2_ack = 4

abbrev pub data_packet : ℕ
data_packet = 5

abbrev pub heartbeat : ℕ
heartbeat = 6

abbrev pub heartbeat_ack : ℕ
heartbeat_ack = 7

abbrev pub reconnect : ℕ
reconnect = 8

abbrev pub reconnect_ack : ℕ
reconnect_ack = 9

abbrev pub encrypt : ℕ
encrypt = 10

abbrev pub close : ℕ
close = 11

abbrev pub close_ack : ℕ
close_ack = 12

abbrev pub fin : ℕ
fin = 13

abbrev pub fin_ack : ℕ
fin_ack = 14

abbrev pub rst : ℕ
rst = 15
