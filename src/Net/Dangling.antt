-- ===== src/Net/Dangling.antt =====
-- What is left of a connection that has moved to another address and ends.
use ttserver.Base.{ℕ, ◌≡◌, ◌≢◌, ◌⊎◌, refl, arith, true, List, [], ◌∷◌, none, some, ◌∙◌, ap, sym}
use ttserver.Library.{Library, SockAddr}
use ttserver.Kcp
use ttserver.Msg.Decode.{Msg}
use ttserver.Host.{Ptr, sockaddr_to_id, map_find}
use ttserver.Host.Maps.{map_find-map_erase_other}
use ttserver.Conn.{NetConnect, established, disconnet}
use ttserver.Conn.Life
use ttserver.Conn.Setup.{reconnect}
use ttserver.Conn.Address.{reconnect-map_conn}
use ttserver.Net.{World, conn_at, put_conn, kept, with_conn, get_conn_by_addr}
use ttserver.Net.Manager.{free_conn, freed, tick_all, tick1s, store}
use ttserver.Net.Serve.{handle_net_data}
use ttserver.Net.Ends.{conn_at-delete_conn}

module _ {K : Type 0} where
  pub conn_at-put_conn-none :
      (p q : Ptr) (c : NetConnect K) (cs : List (Ptr × NetConnect K))
      → conn_at p cs ≡ none
      → conn_at p (put_conn q c cs) ≡ none
  unfolding conn_at put_conn
  conn_at-put_conn-none p q c [] e = refl
  conn_at-put_conn-none p q c ((r, d) ∷ cs) e = ground (arith, conn_at-put_conn-none p q c cs)

  conn_at-put_conn :
      (p : Ptr) (c d : NetConnect K) (cs : List (Ptr × NetConnect K))
      → conn_at p cs ≡ some c
      → conn_at p (put_conn p d cs) ≡ some d
  unfolding conn_at put_conn
  conn_at-put_conn p c d [] e = absurd (ground arith)
  conn_at-put_conn p c d ((r, x) ∷ cs) e = ground (arith, conn_at-put_conn p c d cs)

  free_conn-freed :
      (w : World K) (p : Ptr) (c : NetConnect K)
      → conn_at p w.conns ≡ some c
      → free_conn w p ≡ some (freed w p c)
  unfolding free_conn
  free_conn-freed w p c e = rw (e, free_conn) refl

module _ {K : Type 0} (lib : Library K) where
  -- A packet goes to the object that is gone.
  handle_net_data-dangling :
      (w : World K) (p : Ptr) (m : Msg) (addr : SockAddr)
      → map_find (sockaddr_to_id addr) w.host.map_conn ≡ some p
      → conn_at p w.conns ≡ none
      → handle_net_data lib w m addr ≡ none
  unfolding handle_net_data get_conn_by_addr with_conn
  handle_net_data-dangling w p m addr e d = rw (e, handle_net_data, d, with_conn) refl

  -- The loop of `Tick1S` reads a pointer to an object that is gone.
  tick_all-dangling :
      (k : ℕ) (p : Ptr) (m : List (ℕ × Ptr)) (w : World K)
      → map_find k m ≡ some p
      → conn_at p w.conns ≡ none
      → tick_all lib m w ≡ none
  unfolding map_find tick_all
  tick_all-dangling k p [] w e d = absurd (ground arith)
  tick_all-dangling k p ((j, q) ∷ m) w e d =
      elim (conn_at q w.conns)
          as (λ o.
            conn_at q w.conns ≡ o
            → (elim o [
              | none ↦ none
              | some c ↦ tick_all lib m (store lib w q (Life.tick1s lib c w.host))
            ])
              ≡ none) [
                | none ↦ λ at. refl
                | some c ↦ λ at.
                    tick_all-dangling k p m (store lib w q (Life.tick1s lib c w.host))
                      (ground (arith, e, d, at))
                      (conn_at-put_conn-none p q (Life.tick1s lib c w.host).0 w.conns d)
              ]
        refl

  -- If an established or disconnected connection found under its address, whose KCP can be
  -- resumed, comes back from another address by Reconnect and is freed by FreeConn: the next
  -- Tick1S reads the freed object, and so does every packet from the old address that
  -- HandleNetData gets.
  pub reconnect-dangling :
      (w : World K) (p : Ptr) (c : NetConnect K) (addr : SockAddr) (m : Msg)
      → conn_at p w.conns ≡ some c
      → c.self ≡ p
      → (c.state ≡ established) ⊎ (c.state ≡ disconnet)
      → (Kcp.reconnect lib c.conn_id c.kcp).0 ≡ true
      → sockaddr_to_id addr ≢ sockaddr_to_id c.client_addr
      → map_find (sockaddr_to_id c.client_addr) w.host.map_conn ≡ some p
      → (w1 : World K) × (free_conn (kept w p (reconnect lib c w.host addr)).1 p ≡ some w1)
        × (tick1s lib w1 ≡ none)
        × (handle_net_data lib w1 m c.client_addr ≡ none)
  unfolding tick1s
  reconnect-dangling w p c addr m at own s k n f =
      let x = reconnect lib c w.host addr in
      let (st, moved, new, old) = reconnect-map_conn lib c w.host addr s k n in
      let w0 : World K = (kept w p x).1 in
      let w1 : World K = freed w0 p x.1 in
      let old_id = sockaddr_to_id c.client_addr in
      let gone : conn_at p w1.conns ≡ none = conn_at-delete_conn p w0.conns in
      let kept_entry : map_find old_id w1.host.map_conn ≡ some p =
        map_find-map_erase_other (sockaddr_to_id x.1.client_addr) old_id x.2.map_conn
          (λ e. n (sym (ap sockaddr_to_id moved) ∙ e))
        ∙ old
        ∙ f in
      (
        w1,
        free_conn-freed w0 p x.1 (conn_at-put_conn p c x.1 w.conns at),
        tick_all-dangling old_id p w1.host.map_conn w1 kept_entry gone,
        handle_net_data-dangling w1 p m c.client_addr kept_entry gone,
      )
