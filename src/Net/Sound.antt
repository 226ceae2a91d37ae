-- ===== src/Net/Sound.antt =====
-- The network thread on whatever packet it receives.
use ttserver.Base.{ℕ, ◌≡◌, arith, Bool, true, false, Option, none, some, ◌∙◌, ap}
use ttserver.Library.{Library, SockAddr}
use ttserver.Kcp.{Kcp}
use ttserver.Kcp
use ttserver.Msg.Packets.{Reconnect, Body, HandShake}
use ttserver.Msg.Decode.{Msg}
use ttserver.Host.{Ptr, Ret, succ, fail}
use ttserver.Host.Kept.{notify_conn_event-map_conn, send_reconnect_ack-map_conn}
use ttserver.Conn.{NetConnect, Result}
use ttserver.Conn.Setup.{reconnect, reconnected}
use ttserver.Net.{World, conn_at, put_conn, get_conn_by_id}
use ttserver.Net.Live.{
  IsLive, all_live, has_conn, is_found, has_conn-conn_at, all_live-put_conn, has_conn-put_conn,
  all_live-set_conn_addr, scan_id-is_found,
}
use ttserver.Net.Stays.{
  stays_live, stays_live-some, live_world, same_map, by_addr-live, handle_handshake1-live,
  handle_handshake2-live,
}
use ttserver.Net.Replies.{
  handle_handshake1_ack-live, handle_handshake2_ack-live, handle_net_data-live,
}
use ttserver.Net.Serve.{
  reconnect_at, handle_reconnect, handle_net_msg, rejected, resumed, known_addr, found_id,
  handle_handshake, handle_body,
}

module _ {K : Type 0} (lib : Library K) where
  rejected-live : (w : World K) (addr : SockAddr) → IsLive w → live_world (rejected w addr).1 ≡ true
  rejected-live w addr l = same_map w.conns (send_reconnect_ack-map_conn w.host addr none) l

  -- What a result of `Reconnect` leaves in the world.
  IsReturned : World K → Ptr → Result K → Type 0
  IsReturned w p x = (x.1.self ≡ p) × (all_live x.2.map_conn (put_conn p x.1 w.conns) ≡ true)

  reconnected-IsReturned :
      (w : World K) (p : Ptr) (c : NetConnect K) (addr : SockAddr) (o : Bool × Kcp K)
      → c.self ≡ p
      → has_conn p w.conns ≡ true
      → IsLive w
      → IsReturned w p (reconnected lib c w.host addr o)
  unfolding IsReturned
  reconnected-IsReturned w p c addr (false, k) s e l =
      (s, all_live-put_conn w.host.map_conn p (record c { kcp = k }) w.conns s l)
  reconnected-IsReturned w p c addr (true, k) s e l =
      let c1 = (reconnected lib c w.host addr (true, k)).1 in
      (
        s,
        same_map (put_conn p c1 w.conns) (notify_conn_event-map_conn _ _ _ _ _ _ _) (
            all_live-set_conn_addr w.host c.self addr (some addr) (put_conn p c1 w.conns)
              (ap (λ q. has_conn q (put_conn p c1 w.conns)) s
                ∙ has_conn-put_conn p p c1 w.conns s e)
              (all_live-put_conn w.host.map_conn p c1 w.conns s l)),
      )

  reconnect-IsReturned :
      (w : World K) (p : Ptr) (c : NetConnect K) (addr : SockAddr)
      → c.self ≡ p
      → has_conn p w.conns ≡ true
      → IsLive w
      → IsReturned w p (reconnect lib c w.host addr)
  unfolding reconnect IsReturned
  reconnect-IsReturned w p c addr s e l =
      let (s1, l1) = reconnected-IsReturned w p c addr (Kcp.reconnect lib c.conn_id c.kcp) s e l in
      let l0 = all_live-put_conn w.host.map_conn p c w.conns s l in ground (arith, s1, l1, l0, s)

  resumed-live :
      (w : World K) (addr : SockAddr) (p : Ptr) (x : Result K)
      → IsReturned w p x
      → live_world (resumed lib w addr p x).1 ≡ true
  unfolding IsReturned
  resumed-live w addr p (succ, c, h) r = same_map _ (send_reconnect_ack-map_conn h addr _) r.1
  resumed-live w addr p (fail, c, h) r = same_map _ (send_reconnect_ack-map_conn h addr none) r.1

  reconnect_at-live :
      (w : World K) (req : Reconnect) (addr : SockAddr) (p : Ptr) (c : NetConnect K)
      → c.self ≡ p
      → has_conn p w.conns ≡ true
      → IsLive w
      → live_world (reconnect_at lib w req addr p c).1 ≡ true
  unfolding reconnect_at
  reconnect_at-live w req addr p c s e l =
      let no = rejected-live w addr l in
      let yes =
        resumed-live w addr p (reconnect lib c w.host addr)
          (reconnect-IsReturned w p c addr s e l) in
      ground (arith, no, yes)

  found_id-live :
      (w : World K) (req : Reconnect) (addr : SockAddr) (o : Option (Option Ptr))
      → is_found o w.conns ≡ true
      → IsLive w
      → stays_live (found_id lib w req addr o) ≡ true
  found_id-live w req addr none f l = absurd (ground arith)
  found_id-live w req addr (some none) f l = rejected-live w addr l
  found_id-live w req addr (some (some p)) f l =
      let (c, at, s) = has_conn-conn_at p w.conns f in
      rw (at, stays_live) (reconnect_at-live w req addr p c s f l)

  known_addr-live :
      (w : World K) (req : Reconnect) (addr : SockAddr) (c : NetConnect K)
      → IsLive w
      → live_world (known_addr w req addr c).1 ≡ true
  known_addr-live w req addr c l =
      let no = rejected-live w addr l in
      let yes =
        same_map w.conns (send_reconnect_ack-map_conn w.host addr (some (c.conn_id, c.cookies)))
          l in
      ground (arith, no, yes)

  handle_reconnect-live :
      (w : World K) (req : Reconnect) (addr : SockAddr)
      → IsLive w
      → stays_live (handle_reconnect lib w req addr) ≡ true
  unfolding handle_reconnect get_conn_by_id
  handle_reconnect-live w req addr l =
      by_addr-live w addr (found_id lib w req addr (get_conn_by_id w req.conn_id))
        (λ p. elim (conn_at p w.conns) [ none ↦ none | some c ↦ some (known_addr w req addr c) ]) l
        (found_id-live w req addr (get_conn_by_id w req.conn_id)
          (scan_id-is_found req.conn_id w.host.map_conn w.conns l) l)
        (λ p e.
          let (c, at, s) = has_conn-conn_at p w.conns e in
          rw (at, stays_live) (known_addr-live w req addr c l))

  handle_handshake-live :
      (w : World K) (kind : ℕ) (req : HandShake) (addr : SockAddr)
      → IsLive w
      → stays_live (handle_handshake lib w kind req addr) ≡ true
  handle_handshake-live w kind req addr l = ground (
    arith,
    handle_handshake1-live lib w req addr l,
    handle_handshake2-live lib w req addr l,
    handle_handshake1_ack-live lib w req addr l,
    handle_handshake2_ack-live lib w req addr l,
  )

  handle_body-live :
      (w : World K) (m : Msg) (addr : SockAddr) (b : Body)
      → IsLive w
      → stays_live (handle_body lib w m addr b) ≡ true
  handle_body-live w m addr (Body.handshake req) l = handle_handshake-live w m.head.kind req addr l
  handle_body-live w m addr (Body.reconnect req) l = handle_reconnect-live w req addr l
  handle_body-live w m addr (Body.payload d) l = handle_net_data-live lib w m addr l
  handle_body-live w m addr (Body.heartbeat d) l = handle_net_data-live lib w m addr l
  handle_body-live w m addr (Body.fin d) l = handle_net_data-live lib w m addr l
  handle_body-live w m addr (Body.rst d) l = handle_net_data-live lib w m addr l

  -- HandleNetMsg ends, and leaves a map of live pointers, from a map of live pointers.
  pub handle_net_msg-IsLive :
      (w : World K) (m : Msg) (addr : SockAddr)
      → IsLive w
      → (r : Ret) × (w1 : World K) × (handle_net_msg lib w m addr ≡ some (r, w1)) × IsLive w1
  unfolding handle_net_msg
  handle_net_msg-IsLive w m addr l = stays_live-some _ (handle_body-live w m addr m.body l)
