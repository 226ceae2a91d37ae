-- ===== src/Net/Welcome.antt =====
-- The connection that a second handshake makes.
use ttserver.Base.{
  ℕ, ◌≡◌, refl, ap, ◌∙◌, arith, Bool, true, false, List, [], ◌∷◌, Option, none, some, ◌≤◌, take,
  sym, ◌==◌, if◌then◌else◌,
}
use ttserver.Library.{Library, SockAddr}
use ttserver.Kcp.{Kcp}
use ttserver.Kcp
use ttserver.Msg.Packets.{HandShake}
use ttserver.Ids.{Ids, alloc_id}
use ttserver.Host.{Ret, succ, fail, map_find, sockaddr_to_id}
use ttserver.Host.Events.{set_conn_addr}
use ttserver.Host.Maps.{map_find-map_set}
use ttserver.Host.Inside.{notify_conn_event-overrun, send_handshake_msg-overrun, copy_into-fits}
use ttserver.Security.Dh.{Exchange}
use ttserver.Security.Dh
use ttserver.Host.Kept.{send_handshake_msg-map_conn, notify_conn_event-map_conn}
use ttserver.Conn.{NetConnect, EncyptData, established}
use ttserver.Conn.Setup.{new_connect, init_connect, prepared, with_kcp}
use ttserver.Net.{World, conn_at, get_conn_by_addr}
use ttserver.Net.Manager.{create_new_conn, create_with, started}
use ttserver.Net.Handshake.{
  is_same, connected, accept_handshake2, new_handshake2, handle_handshake2, new_secrets,
  send_handshake_succ, exchanged, copied, empty_exchange, secrets, secret_len,
}
use ttserver.Net.Admission.{IsGenuine}

is_same_refl : (a : List ℕ) → is_same a a ≡ true
unfolding is_same
is_same_refl [] = refl
is_same_refl (a ∷ xs) = ground (arith, is_same_refl xs)

module _ {K : Type 0} (lib : Library K) where
  with_kcp-succ :
      (c : NetConnect K) (o : Bool × Kcp K)
      → o.0 ≡ true
      → with_kcp lib c o ≡ (succ, record c { kcp = o.1 })
  with_kcp-succ c (true, k) e = refl
  with_kcp-succ c (false, k) e = absurd (ground arith)

  -- The new connection, with what `ikcp_create` leaves.
  abbrev pub welcomed : World K → ℕ → SockAddr → List ℕ → EncyptData → NetConnect K
  welcomed w i addr cookie e =
      let c = new_connect w.next_conn (w.memory w.next_conn) in
      record (prepared lib c w.host i addr cookie e) {
        kcp = (Kcp.init lib i (Kcp.mem_init lib (w.memory w.next_conn))).1;
      }

  init_connect-succ :
      (w : World K) (addr : SockAddr) (cookie : List ℕ) (e : EncyptData) (i : ℕ)
      → e.key_len ≡ 16
      → (Kcp.init lib i (Kcp.mem_init lib (w.memory w.next_conn))).0 ≡ true
      → init_connect lib (new_connect w.next_conn (w.memory w.next_conn)) w.host i addr cookie e
        ≡ (succ, welcomed w i addr cookie e)
  unfolding init_connect new_connect
  init_connect-succ w addr cookie e i l k =
      let c = new_connect w.next_conn (w.memory w.next_conn) in
      let c1 = prepared lib c w.host i addr cookie e in
      let o = Kcp.init lib i (Kcp.mem_init lib (w.memory w.next_conn)) in
      let f : (e.key_len == 16) ≡ true = ground (arith, l) in
      ap (λ b. let x : Ret × NetConnect K = if b then with_kcp lib c1 o else (fail, c1) in x) f
      ∙ with_kcp-succ c1 o k

  create_new_conn-started :
      (w : World K) (addr : SockAddr) (cookie : List ℕ) (e : EncyptData) (i : ℕ) (ids : Ids)
      → alloc_id w.ids ≡ (some i, ids)
      → e.key_len ≡ 16
      → (Kcp.init lib i (Kcp.mem_init lib (w.memory w.next_conn))).0 ≡ true
      → create_new_conn lib w addr cookie e ≡ started lib w ids (succ, welcomed w i addr cookie e)
  unfolding create_new_conn
  create_new_conn-started w addr cookie e i ids a l k =
      ap (create_with lib w addr cookie e) a
      ∙ ap (started lib w ids) (init_connect-succ w addr cookie e i l k)

  new_handshake2-accepted :
      (w : World K) (req : HandShake) (addr : SockAddr)
      → IsGenuine lib w req addr
      → new_handshake2 lib w req addr ≡ accept_handshake2 lib w req addr
  unfolding new_handshake2
  new_handshake2-accepted w req addr g =
      let n = g.has_number in rw (g.in_time, g.own, is_same_refl req.cookies) (ground (arith, n))

  key_of_num_len :
      (e : Exchange) (o : Option ℕ) (priv : ℕ) → (Dh.key_of lib e o priv).num_len ≡ e.num_len
  key_of_num_len e none priv = refl
  key_of_num_len e (some a) priv = refl

  server_pair-fits :
      (a : List ℕ) (a_len : ℕ) (o : Option (ℕ × ℕ))
      → (Dh.server_pair lib a a_len empty_exchange o).num_len ≤ 16
  server_pair-fits a a_len none = omega arith
  server_pair-fits a a_len (some (public, priv)) =
      let same =
        key_of_num_len (Dh.put_num lib empty_exchange public) (lib.bn_bin2bn (take a_len a)) priv in
      ground (arith, same)

  secrets-fits :
      (req : HandShake) (draw : ℕ) (e : Exchange)
      → e.num_len ≤ 16
      → e.key_len ≡ 16
      → secret_len (secrets lib req draw e) ≤ 16
  secrets-fits req draw e n k = ground (arith, n, k)

  secrets_key_len :
      (req : HandShake) (draw : ℕ) (e : Exchange) → (secrets lib req draw e).key_len ≡ e.key_len
  secrets_key_len req draw e = ground arith

  new_secrets-fits :
      (w : World K) (req : HandShake)
      → (new_secrets lib w req).key_len ≡ 16
      → secret_len (new_secrets lib w req) ≤ 16
  unfolding new_secrets Dh.handle_handshake2
  new_secrets-fits w req k =
      let a = copied req.encrypt_data_len req.encrypt_data in
      let e =
        Dh.server_pair lib a req.encrypt_data_len empty_exchange (lib.dh_generate_key w.draws) in
      secrets-fits req w.draws e
        (server_pair-fits a req.encrypt_data_len (lib.dh_generate_key w.draws))
        (sym (secrets_key_len req w.draws e) ∙ k)

  -- For a genuine second handshake whose public number has 16 bytes at most, if the exchange
  -- leaves a key of 16 bytes, AllocID gives an id and KCP can start with it: HandleHandShake2
  -- returns 0, the id is in use, under the address there is a new established connection with
  -- that id, that address and the secrets of the exchange, and no copy has left its buffer.
  pub handle_handshake2-established :
      (w : World K) (req : HandShake) (addr : SockAddr) (i : ℕ) (ids : Ids)
      → IsGenuine lib w req addr
      → req.encrypt_data_len ≤ 16
      → (new_secrets lib w req).key_len ≡ 16
      → alloc_id w.ids ≡ (some i, ids)
      → (Kcp.init lib i (Kcp.mem_init lib (w.memory w.next_conn))).0 ≡ true
      → (w1 : World K) × (c : NetConnect K) × (handle_handshake2 lib w req addr ≡ some (succ, w1))
        × (get_conn_by_addr w1 addr ≡ some w.next_conn)
        × (conn_at w.next_conn w1.conns ≡ some c)
        × (c.state ≡ established)
        × (c.conn_id ≡ i)
        × (c.client_addr ≡ addr)
        × (c.encypt_data ≡ new_secrets lib w req)
        × (w1.ids ≡ ids)
        × (w1.host.overrun ≡ w.host.overrun)
  unfolding handle_handshake2 get_conn_by_addr accept_handshake2 conn_at send_handshake_succ
      set_conn_addr
  handle_handshake2-established w req addr i ids g n l a k =
      let w0 : World K = exchanged lib w req in
      let e = new_secrets lib w req in
      let c = welcomed w0 i addr req.cookies e in
      let made = started lib w0 ids (succ, c) in
      (
        (connected lib req addr made).1,
        c,
        rw (g.new_addr, handle_handshake2)
            (ap some (
              new_handshake2-accepted w req addr g
              ∙ ap (connected lib req addr)
                  (create_new_conn-started w0 addr req.cookies e i ids a l k))),
        ap (map_find (sockaddr_to_id addr))
              (notify_conn_event-map_conn _ _ _ _ _ _ _ ∙ send_handshake_msg-map_conn _ _ _ _)
            ∙ map_find-map_set (sockaddr_to_id addr) w.next_conn w.host.map_conn,
        ground arith,
        refl,
        refl,
        refl,
        refl,
        refl,
        notify_conn_event-overrun _ _ _ _ _ _ _
            ∙ send_handshake_msg-overrun _ _ _ _
            ∙ copy_into-fits made.1.host 16 (secret_len e) (new_secrets-fits w req l)
            ∙ copy_into-fits w.host 16 req.encrypt_data_len n,
      )
