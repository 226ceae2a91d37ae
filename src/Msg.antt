-- ===== src/Msg.antt =====
-- src/net/NetMsg.h and src/net/NetMsg.cpp: the packets of the protocol and their codecs.
pub mod PacketType
pub mod Packets
pub mod Reader
pub mod Writer
pub mod Decode
pub mod Parse
pub mod RoundTrip
