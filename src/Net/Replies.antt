-- ===== src/Net/Replies.antt =====
-- What the handlers of the client, and those of data, do to the maps and the objects.
use ttserver.Base.{◌≡◌, arith, true, Option, none, some}
use ttserver.Config.{rst_unknown_peer}
use ttserver.Security.Dh.{Exchange}
use ttserver.Library.{Library, SockAddr}
use ttserver.Msg.Packets.{HandShake, max_encrypt_data_len}
use ttserver.Msg.Decode.{Msg}
use ttserver.Host.{Ptr, fail, copy_into}
use ttserver.Host.Packets.{send_rst_msg, send_handshake_msg, new_packet}
use ttserver.Host.Kept.{send_rst_msg-map_conn}
use ttserver.Conn.{NetConnect, EncyptData}
use ttserver.Conn.Hosts.{handle_net_msg-IsHeld}
use ttserver.Conn.Handle
use ttserver.Net.{World, with_conn}
use ttserver.Net.Manager.{create_new_conn}
use ttserver.Net.Live.{IsLive}
use ttserver.Net.Serve.{handle_net_data}
use ttserver.Net.Client.{
  client_created, keyed, answer_key, handle_handshake1_ack, handle_handshake2_ack,
}
use ttserver.Net.Stays.{
  live_world, stays_live, same_map, by_addr-live, with_conn-live, create_new_conn-live,
}

module _ {K : Type 0} (lib : Library K) where
  pub handle_handshake1_ack-live :
      (w : World K) (rsp : HandShake) (addr : SockAddr)
      → IsLive w
      → live_world (handle_handshake1_ack lib w rsp addr).1 ≡ true
  unfolding handle_handshake1_ack send_handshake_msg new_packet
  handle_handshake1_ack-live w rsp addr l = ground arith

  client_created-live :
      (o : Option (Ptr × NetConnect K) × World K)
      → IsLive o.1
      → live_world (client_created lib o).1 ≡ true
  client_created-live (none, w) l = l
  client_created-live (some (p, c), w) l = l

  keyed-live :
      (w : World K) (rsp : HandShake) (addr : SockAddr) (e : Exchange)
      → IsLive w
      → live_world (keyed lib w rsp addr e).1 ≡ true
  keyed-live w rsp addr e l =
      let secret : EncyptData = record w.encypt_data { key = e.key; key_len = e.key_len } in
      let w1 : World K = record w { encypt_data = secret } in
      let made =
        client_created-live (create_new_conn lib w1 addr rsp.cookies secret)
          (create_new_conn-live lib w1 addr rsp.cookies secret l) in
      ground (arith, made)

  pub handle_handshake2_ack-live :
      (w : World K) (rsp : HandShake) (addr : SockAddr)
      → IsLive w
      → live_world (handle_handshake2_ack lib w rsp addr).1 ≡ true
  unfolding handle_handshake2_ack
  handle_handshake2_ack-live w rsp addr l =
      let copied : World K = record w {
        host = copy_into w.host max_encrypt_data_len rsp.encrypt_data_len;
      } in
      ground (arith, keyed-live copied rsp addr (answer_key lib w rsp) l)

  pub handle_net_data-live :
      (w : World K) (m : Msg) (addr : SockAddr)
      → IsLive w
      → stays_live (handle_net_data lib w m addr) ≡ true
  unfolding handle_net_data
  handle_net_data-live w m addr l =
      by_addr-live w addr
        (some (fail, record w { host = (send_rst_msg w.host rst_unknown_peer 0 addr).1 }))
        (λ p. with_conn w p (λ c h. Handle.handle_net_msg lib c h m)) l
        (same_map _ (send_rst_msg-map_conn w.host rst_unknown_peer 0 addr) l)
        (λ p e.
          with_conn-live w p (λ c h. Handle.handle_net_msg lib c h m)
            (λ c. handle_net_msg-IsHeld lib c w.host m) e l)
