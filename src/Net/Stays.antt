-- ===== src/Net/Stays.antt =====
-- What each handler of the network thread does to the maps and the objects.
use ttserver.Base.{ℕ, ◌≡◌, refl, arith, Bool, true, false, List, ◌∷◌, Option, none, some, ◌∙◌, ap}
use ttserver.Library.{Library, SockAddr}
use ttserver.Msg.PacketType
use ttserver.Msg.Packets.{HandShake}
use ttserver.Ids.{Ids, alloc_id}
use ttserver.Host.{Ptr, Host, Ret, succ, fail, map_find, sockaddr_to_id}
use ttserver.Host.Packets.{send_handshake_msg, new_packet}
use ttserver.Host.Kept.{send_handshake_msg-map_conn, notify_conn_event-map_conn}
use ttserver.Conn.{NetConnect, Result, EncyptData}
use ttserver.Conn.Setup.{new_connect, init_connect}
use ttserver.Conn.Hosts.{IsHeld}
use ttserver.Net.{World, conn_at, put_conn, with_conn, get_conn_by_addr}
use ttserver.Net.Manager.{create_new_conn, create_with, started}
use ttserver.Net.Live.{
  IsLive, all_live, has_conn, map_find-has_conn, has_conn-conn_at, all_live-put_conn, all_live-new,
  all_live-set_conn_addr,
}
use ttserver.Net.Handshake.{
  handle_handshake1, handle_handshake2, new_handshake2, repeat_handshake2, accept_handshake2,
  send_handshake_succ, send_handshake_fail, ack_head, echo, new_secrets, connected, exchanged,
}

module _ {K : Type 0} where
  abbrev pub live_world : World K → Bool
  live_world w = all_live w.host.map_conn w.conns

  -- The run ends, in a sound world.
  abbrev pub stays_live : Option (Ret × World K) → Bool
  stays_live none = false
  stays_live (some (r, w)) = live_world w

  pub stays_live-some :
      (o : Option (Ret × World K))
      → stays_live o ≡ true
      → (r : Ret) × (w : World K) × (o ≡ some (r, w)) × IsLive w
  stays_live-some none l = absurd (ground arith)
  stays_live-some (some (r, w)) l = (r, w, refl, l)

  -- The same map and the same objects.
  pub same_map :
      {m m1 : List (ℕ × Ptr)} (cs : List (Ptr × NetConnect K))
      → m1 ≡ m
      → all_live m cs ≡ true
      → all_live m1 cs ≡ true
  same_map cs e l = ap (λ m. all_live m cs) e ∙ l

  by_found :
      (o : Option Ptr) (f : Option (Ret × World K)) (g : Ptr → Option (Ret × World K))
      → stays_live f ≡ true
      → ((p : Ptr) → o ≡ some p → stays_live (g p) ≡ true)
      → stays_live (elim o [ none ↦ f | some p ↦ g p ]) ≡ true
  by_found none f g lf lg = lf
  by_found (some p) f g lf lg = lg p refl

  -- A handler that goes by the address of the client.
  pub by_addr-live :
      (w : World K) (addr : SockAddr) (f : Option (Ret × World K))
      (g : Ptr → Option (Ret × World K))
      → IsLive w
      → stays_live f ≡ true
      → ((p : Ptr) → has_conn p w.conns ≡ true → stays_live (g p) ≡ true)
      → stays_live (elim (get_conn_by_addr w addr) [ none ↦ f | some p ↦ g p ]) ≡ true
  unfolding get_conn_by_addr
  by_addr-live w addr f g l lf lg =
      by_found (map_find (sockaddr_to_id addr) w.host.map_conn) f g lf
        (λ p e. lg p (map_find-has_conn (sockaddr_to_id addr) p w.host.map_conn w.conns l e))

  -- A method through a live pointer.
  pub with_conn-live :
      (w : World K) (p : Ptr) (method : NetConnect K → Host → Result K)
      → ((c : NetConnect K) → IsHeld c w.host (method c w.host))
      → has_conn p w.conns ≡ true
      → IsLive w
      → stays_live (with_conn w p method) ≡ true
  unfolding with_conn IsHeld
  with_conn-live w p method f e l =
      let (c, at, s) = has_conn-conn_at p w.conns e in
      let (s1, a1, m1) = f c in
      rw (at, stays_live)
        (ap (λ m. all_live m (put_conn p (method c w.host).1 w.conns)) m1
          ∙ all_live-put_conn w.host.map_conn p (method c w.host).1 w.conns (s1 ∙ s) l)

module _ {K : Type 0} (lib : Library K) where
  own_conn :
      (p : Ptr) (c : NetConnect K) (cs : List (Ptr × NetConnect K))
      → c.self ≡ p
      → has_conn p ((p, c) ∷ cs) ≡ true
  unfolding has_conn conn_at
  own_conn p c cs s = ground arith

  init_connect-self :
      (c : NetConnect K) (h : Host) (i : ℕ) (addr : SockAddr) (cookie : List ℕ) (e : EncyptData)
      → (init_connect lib c h i addr cookie e).1.self ≡ c.self
  unfolding init_connect
  init_connect-self c h i addr cookie e = ground arith

  started-live :
      (w : World K) (ids : Ids) (o : Ret × NetConnect K)
      → o.1.self ≡ w.next_conn
      → IsLive w
      → live_world (started lib w ids o).1 ≡ true
  started-live w ids (fail, c) s l = l
  started-live w ids (succ, c) s l =
      all_live-set_conn_addr w.host w.next_conn c.client_addr none ((w.next_conn, c) ∷ w.conns)
        (own_conn w.next_conn c w.conns s) (all_live-new w.host.map_conn w.next_conn c w.conns s l)

  create_with-live :
      (w : World K) (addr : SockAddr) (cookie : List ℕ) (e : EncyptData) (o : Option ℕ × Ids)
      → IsLive w
      → live_world (create_with lib w addr cookie e o).1 ≡ true
  unfolding new_connect
  create_with-live w addr cookie e (none, ids) l = l
  create_with-live w addr cookie e (some i, ids) l =
      let c = new_connect w.next_conn (w.memory w.next_conn) in
      started-live w ids (init_connect lib c w.host i addr cookie e)
        (init_connect-self c w.host i addr cookie e) l

  pub create_new_conn-live :
      (w : World K) (addr : SockAddr) (cookie : List ℕ) (e : EncyptData)
      → IsLive w
      → live_world (create_new_conn lib w addr cookie e).1 ≡ true
  unfolding create_new_conn
  create_new_conn-live w addr cookie e l = create_with-live w addr cookie e (alloc_id w.ids) l

  pub handle_handshake1-live :
      (w : World K) (req : HandShake) (addr : SockAddr)
      → IsLive w
      → live_world (handle_handshake1 lib w req addr).1 ≡ true
  unfolding handle_handshake1 send_handshake_msg new_packet
  handle_handshake1-live w req addr l = ground arith

  connected-live :
      (req : HandShake) (addr : SockAddr) (o : Option (Ptr × NetConnect K) × World K)
      → IsLive o.1
      → live_world (connected lib req addr o).1 ≡ true
  unfolding send_handshake_fail send_handshake_succ
  connected-live req addr (none, w) l = same_map _ (send_handshake_msg-map_conn w.host _ _ addr) l
  connected-live req addr (some (p, c), w) l =
      same_map _ (notify_conn_event-map_conn _ _ _ _ _ _ _ ∙ send_handshake_msg-map_conn _ _ _ _) l

  new_handshake2-live :
      (w : World K) (req : HandShake) (addr : SockAddr)
      → IsLive w
      → live_world (new_handshake2 lib w req addr).1 ≡ true
  unfolding new_handshake2 accept_handshake2 send_handshake_fail
  new_handshake2-live w req addr l =
      let failed =
        same_map _
          (send_handshake_msg-map_conn w.host (ack_head PacketType.handshake2_ack) (echo req) addr)
          l in
      let o = create_new_conn lib (exchanged lib w req) addr req.cookies (new_secrets lib w req) in
      let made =
        connected-live req addr o
          (create_new_conn-live (exchanged lib w req) addr req.cookies (new_secrets lib w req) l) in
      ground (arith, failed, made)

  repeat_handshake2-live :
      (w : World K) (req : HandShake) (addr : SockAddr) (p : Ptr)
      → has_conn p w.conns ≡ true
      → IsLive w
      → stays_live (repeat_handshake2 lib w req addr p) ≡ true
  unfolding repeat_handshake2 send_handshake_succ send_handshake_msg new_packet
  repeat_handshake2-live w req addr p e l =
      let (c, at, s) = has_conn-conn_at p w.conns e in rw (at, stays_live) (ground arith)

  pub handle_handshake2-live :
      (w : World K) (req : HandShake) (addr : SockAddr)
      → IsLive w
      → stays_live (handle_handshake2 lib w req addr) ≡ true
  unfolding handle_handshake2
  handle_handshake2-live w req addr l =
      by_addr-live w addr (some (new_handshake2 lib w req addr)) (repeat_handshake2 lib w req addr)
        l (new_handshake2-live w req addr l) (λ p e. repeat_handshake2-live w req addr p e l)
