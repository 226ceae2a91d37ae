-- ===== src/Conn/Address.antt =====
-- The addresses under which a connection is found, before and after `Reconnect`.
use ttserver.Base.{Bool, true, false, ◌≡◌, ◌≢◌, ◌⊎◌, refl, arith, ap, ◌∙◌, some, ◌||◌}
use ttserver.Library.{Library, SockAddr}
use ttserver.Kcp.{Kcp}
use ttserver.Kcp
use ttserver.Host.{Host, succ, sockaddr_to_id, map_find, map_erase}
use ttserver.Host.Events.{set_conn_addr}
use ttserver.Host.Kept.{notify_conn_event-map_conn}
use ttserver.Host.Maps.{map_find-map_set, map_find-map_set_other, map_find-map_erase_other}
use ttserver.Conn.{NetConnect, Result, established, disconnet, is_established, is_disconnect}
use ttserver.Conn.Setup.{reconnect, reconnected}

can_return :
    {K : Type 0} (c : NetConnect K)
    → (c.state ≡ established) ⊎ (c.state ≡ disconnet)
    → is_disconnect c.state || is_established c.state ≡ true
can_return c s = ground arith

module _ {K : Type 0} (lib : Library K) where
  -- A connection that has come back from `addr`, and its host.
  abbrev pub IsMoved : NetConnect K → Host → SockAddr → Result K → Type 0
  IsMoved c h addr (r, c1, h1) =
      (r ≡ succ)
      × (c1.state ≡ established)
      × (c1.client_addr ≡ addr)
      × (h1.map_conn ≡ (set_conn_addr h c.self addr (some addr)).map_conn)

  reconnected-IsMoved :
      (c : NetConnect K) (h : Host) (addr : SockAddr) (o : Bool × Kcp K)
      → o.0 ≡ true
      → IsMoved c h addr (reconnected lib c h addr o)
  reconnected-IsMoved c h addr (true, k) e =
      (refl, refl, refl, notify_conn_event-map_conn _ _ _ _ _ _ _)
  reconnected-IsMoved c h addr (false, k) e = absurd (ground arith)

  reconnect-IsMoved :
      (c : NetConnect K) (h : Host) (addr : SockAddr)
      → (c.state ≡ established) ⊎ (c.state ≡ disconnet)
      → (Kcp.reconnect lib c.conn_id c.kcp).0 ≡ true
      → IsMoved c h addr (reconnect lib c h addr)
  unfolding reconnect
  reconnect-IsMoved c h addr s k =
      rw (can_return c s) (reconnected-IsMoved c h addr (Kcp.reconnect lib c.conn_id c.kcp) k)

  -- When an established or disconnected connection whose KCP can be resumed comes back from
  -- another address, it is established with that address and found under it, and what the map of
  -- connections has under its old address stays as it was.
  pub reconnect-map_conn :
      (c : NetConnect K) (h : Host) (addr : SockAddr)
      → (c.state ≡ established) ⊎ (c.state ≡ disconnet)
      → (Kcp.reconnect lib c.conn_id c.kcp).0 ≡ true
      → sockaddr_to_id addr ≢ sockaddr_to_id c.client_addr
      → ((reconnect lib c h addr).1.state ≡ established)
        × ((reconnect lib c h addr).1.client_addr ≡ addr)
        × (map_find (sockaddr_to_id addr) (reconnect lib c h addr).2.map_conn ≡ some c.self)
        × (map_find (sockaddr_to_id c.client_addr) (reconnect lib c h addr).2.map_conn
            ≡ map_find (sockaddr_to_id c.client_addr) h.map_conn)
  unfolding set_conn_addr
  reconnect-map_conn c h addr s k n =
      let (r, st, a, m) = reconnect-IsMoved c h addr s k in
      let new_id = sockaddr_to_id addr in
      let old_id = sockaddr_to_id c.client_addr in
      let erased = map_erase new_id h.map_conn in
      (
        st,
        a,
        ap (map_find new_id) m ∙ map_find-map_set new_id c.self erased,
        ap (map_find old_id) m
            ∙ map_find-map_set_other new_id old_id c.self erased n
            ∙ map_find-map_erase_other new_id old_id h.map_conn n,
      )
