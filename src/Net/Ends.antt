-- ===== src/Net/Ends.antt =====
-- The timers of all connections, and the end of one.
use ttserver.Base.{
  ℕ, ◌≡◌, ◌≢◌, refl, arith, Bool, true, List, [], ◌∷◌, none, some, ◌∙◌, ◌==◌, ◌&&◌, if◌then◌else◌,
}
use ttserver.Library.{Library}
use ttserver.Host.{Ptr, map_erase, map_find, sockaddr_to_id}
use ttserver.Host.Maps.{map_find-map_erase}
use ttserver.Conn.{NetConnect}
use ttserver.Conn.Life
use ttserver.Conn.Hosts.{IsKept, tick1s-IsKept}
use ttserver.Net.{World, conn_at, put_conn, delete_conn}
use ttserver.Net.Manager.{free_conn, freed, tick_all, tick1s, store}
use ttserver.Net.Live.{IsLive, all_live, has_conn, has_conn-conn_at, all_live-put_conn}
use ttserver.Net.Stays.{same_map}

module _ {K : Type 0} (lib : Library K) where
  tick_all-IsLive :
      (m : List (ℕ × Ptr)) (w : World K)
      → all_live m w.conns ≡ true
      → IsLive w
      → (w1 : World K) × (tick_all lib m w ≡ some w1) × IsLive w1
  unfolding tick_all all_live IsKept
  tick_all-IsLive [] w a l = (w, refl, l)
  tick_all-IsLive ((k, p) ∷ m) w a l =
      let (c, at, own) = has_conn-conn_at p w.conns (ground (arith, a)) in
      let x = Life.tick1s lib c w.host in
      let (s, e) = tick1s-IsKept lib c w.host in
      let (w1, r, l1) =
        tick_all-IsLive m (store lib w p x)
          (all_live-put_conn m p x.0 w.conns (s ∙ own) (ground (arith, a)))
          (same_map (put_conn p x.0 w.conns) e
            (all_live-put_conn w.host.map_conn p x.0 w.conns (s ∙ own) l)) in
      (w1, rw (at, tick_all) r, l1)

  -- Tick1S over all connections of the map, in a world whose map has only live pointers, ends
  -- without reading a freed connection, and the pointers of the map are live after it.
  pub tick1s-IsLive :
      (w : World K) → IsLive w → (w1 : World K) × (tick1s lib w ≡ some w1) × IsLive w1
  unfolding tick1s
  tick1s-IsLive w l = tick_all-IsLive w.host.map_conn w l l

-- Every entry for the object has this key.
unfoldable pub all_keyed : ℕ → Ptr → List (ℕ × Ptr) → Bool
all_keyed k p [] = true
all_keyed k p ((j, q) ∷ m) = let rest = all_keyed k p m in if q == p then j == k && rest else rest

module _ {K : Type 0} where
  pub conn_at-delete_conn :
      (p : Ptr) (cs : List (Ptr × NetConnect K)) → conn_at p (delete_conn p cs) ≡ none
  unfolding conn_at delete_conn
  conn_at-delete_conn p [] = refl
  conn_at-delete_conn p ((q, c) ∷ cs) = ground (arith, conn_at-delete_conn p cs)

  has_conn-delete_conn :
      (p q : Ptr) (cs : List (Ptr × NetConnect K))
      → q ≢ p
      → has_conn q cs ≡ true
      → has_conn q (delete_conn p cs) ≡ true
  unfolding has_conn conn_at delete_conn
  has_conn-delete_conn p q [] n l = ground arith
  has_conn-delete_conn p q ((r, c) ∷ cs) n l = ground (arith, has_conn-delete_conn p q cs n)

  pub all_live-delete_conn :
      (k : ℕ) (p : Ptr) (m : List (ℕ × Ptr)) (cs : List (Ptr × NetConnect K))
      → all_keyed k p m ≡ true
      → all_live m cs ≡ true
      → all_live (map_erase k m) (delete_conn p cs) ≡ true
  unfolding all_keyed all_live map_erase
  all_live-delete_conn k p [] cs a l = refl
  all_live-delete_conn k p ((j, q) ∷ m) cs a l =
      ground (arith, λ (n : q ≢ p). has_conn-delete_conn p q cs n, all_live-delete_conn k p m cs)

  -- If all entries that the map has for a connection are under its present address, and the
  -- pointers of the map are live: FreeConn deletes the object, nothing is found under its address
  -- any more, and the pointers of the map are live.
  pub free_conn-IsLive :
      (w : World K) (p : Ptr) (c : NetConnect K)
      → conn_at p w.conns ≡ some c
      → all_keyed (sockaddr_to_id c.client_addr) p w.host.map_conn ≡ true
      → IsLive w
      → (w1 : World K) × (free_conn w p ≡ some w1)
        × (conn_at p w1.conns ≡ none)
        × (map_find (sockaddr_to_id c.client_addr) w1.host.map_conn ≡ none)
        × IsLive w1
  unfolding free_conn
  free_conn-IsLive w p c at a l =
      let k = sockaddr_to_id c.client_addr in
      (
        freed w p c,
        rw (at, free_conn) refl,
        conn_at-delete_conn p w.conns,
        map_find-map_erase k w.host.map_conn,
        all_live-delete_conn k p w.host.map_conn w.conns a l,
      )
