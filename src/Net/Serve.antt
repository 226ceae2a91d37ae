-- ===== src/Net/Serve.antt =====
-- What the server does with the other packets, in src/net/NetWork.cpp.
use ttserver.Base.{ℕ, Option, none, some, ◌==◌, if◌then◌else◌}
use ttserver.Config.{rst_unknown_peer}
use ttserver.Library.{Library, SockAddr}
use ttserver.Msg.PacketType
use ttserver.Msg.Packets.{Body, Reconnect, HandShake}
use ttserver.Msg.Decode.{Msg}
use ttserver.Host.{Ptr, Ret, succ, fail}
use ttserver.Host.Packets.{send_reconnect_ack, send_rst_msg}
use ttserver.Conn.{NetConnect, Result}
use ttserver.Conn.Handle
use ttserver.Conn.Setup
use ttserver.Net.{World, conn_at, kept, with_conn, get_conn_by_addr, get_conn_by_id}
use ttserver.Net.Handshake.{is_same, handle_handshake1, handle_handshake2}
use ttserver.Net.Client.{handle_handshake1_ack, handle_handshake2_ack}

module _ {K : Type 0} where
  -- The answer to a reconnection: with the connection's data, or with zeros. The result is not used.
  abbrev pub accepted : World K → SockAddr → NetConnect K → World K
  accepted w addr c = record w {
    host = (send_reconnect_ack w.host addr (some (c.conn_id, c.cookies))).1;
  }

  abbrev pub rejected : World K → SockAddr → Ret × World K
  rejected w addr = (fail, record w { host = (send_reconnect_ack w.host addr none).1 })

  -- A request from an address that has a connection.
  abbrev pub known_addr : World K → Reconnect → SockAddr → NetConnect K → Ret × World K
  known_addr w req addr c =
      if req.conn_id == c.conn_id then (succ, accepted w addr c) else rejected w addr

module _ {K : Type 0} (lib : Library K) where
  abbrev pub resumed : World K → SockAddr → Ptr → Result K → Ret × World K
  resumed w addr p (succ, c, h) = (succ, accepted (kept w p (succ, c, h)).1 addr c)
  resumed w addr p (fail, c, h) = rejected (kept w p (fail, c, h)).1 addr

  -- A request for a connection that was found by its id.
  unfoldable pub reconnect_at : World K → Reconnect → SockAddr → Ptr → NetConnect K → Ret × World K
  reconnect_at w req addr p c =
      if is_same req.cookies c.cookies
      then resumed w addr p (Setup.reconnect lib c w.host addr)
      else rejected w addr

  abbrev pub found_id :
      World K → Reconnect → SockAddr → Option (Option Ptr) → Option (Ret × World K)
  found_id w req addr none = none
  found_id w req addr (some none) = some (rejected w addr)
  found_id w req addr (some (some p)) = elim (conn_at p w.conns) [
    | none ↦ none
    | some c ↦ some (reconnect_at w req addr p c)
  ]

  -- `HandleReconnect`.
  unfoldable pub handle_reconnect : World K → Reconnect → SockAddr → Option (Ret × World K)
  handle_reconnect w req addr = elim (get_conn_by_addr w addr) [
    | none ↦ found_id w req addr (get_conn_by_id w req.conn_id)
    | some p ↦ elim (conn_at p w.conns) [ none ↦ none | some c ↦ some (known_addr w req addr c) ]
  ]

  -- `HandleNetData`.
  unfoldable pub handle_net_data : World K → Msg → SockAddr → Option (Ret × World K)
  handle_net_data w m addr = elim (get_conn_by_addr w addr) [
    | none ↦ some (fail, record w { host = (send_rst_msg w.host rst_unknown_peer 0 addr).1 })
    | some p ↦ with_conn w p (λ c h. Handle.handle_net_msg lib c h m)
  ]

  -- The four types of handshake packets.
  abbrev pub handle_handshake : World K → ℕ → HandShake → SockAddr → Option (Ret × World K)
  handle_handshake w kind req addr =
      if kind == PacketType.handshake1
      then some (handle_handshake1 lib w req addr)
      else if kind == PacketType.handshake2
      then handle_handshake2 lib w req addr
      else if kind == PacketType.handshake1_ack
      then some (handle_handshake1_ack lib w req addr)
      else some (handle_handshake2_ack lib w req addr)

  abbrev pub handle_body : World K → Msg → SockAddr → Body → Option (Ret × World K)
  handle_body w m addr (Body.handshake req) = handle_handshake w m.head.kind req addr
  handle_body w m addr (Body.reconnect req) = handle_reconnect w req addr
  handle_body w m addr _ = handle_net_data w m addr

  -- `HandleNetMsg`, by the member of the union that the type stands for.
  unfoldable pub handle_net_msg : World K → Msg → SockAddr → Option (Ret × World K)
  handle_net_msg w m addr = handle_body w m addr m.body
