-- ===== src/Net/Closing.antt =====
-- `ProcClosedConn` of src/net/NetConnectMgr.cpp: the closed connections all go.
use ttserver.Base.{
  ℕ, ◌≡◌, ◌≢◌, refl, arith, Bool, true, false, not, List, [], ◌∷◌, Option, none, some, ◌∙◌, ◌==◌,
  ◌&&◌,
}
use ttserver.Host.{Ptr, map_erase, sockaddr_to_id}
use ttserver.Conn.{NetConnect}
use ttserver.Net.{World, conn_at, delete_conn}
use ttserver.Net.Manager.{free_conn, freed, free_all, proc_closed_conn}
use ttserver.Net.Live.{IsLive}
use ttserver.Net.Ends.{all_keyed, all_live-delete_conn, conn_at-delete_conn}

-- The pointer is not in a map.
unfoldable pub is_absent : Ptr → List (ℕ × Ptr) → Bool
is_absent p [] = true
is_absent p ((i, q) ∷ m) = not (q == p) && is_absent p m

-- The map is unchanged for other objects.
all_keyed-map_erase :
    (k j : ℕ) (p : Ptr) (m : List (ℕ × Ptr))
    → all_keyed k p m ≡ true
    → all_keyed k p (map_erase j m) ≡ true
unfolding all_keyed map_erase
all_keyed-map_erase k j p [] h = refl
all_keyed-map_erase k j p ((i, q) ∷ m) h = ground (arith, all_keyed-map_erase k j p m)

module _ {K : Type 0} where
  abbrev pub is_keyed : Ptr → List (ℕ × Ptr) → Option (NetConnect K) → Bool
  is_keyed p m none = false
  is_keyed p m (some c) = all_keyed (sockaddr_to_id c.client_addr) p m

  -- Each closed connection stands once in the map of closed ones, is in memory, and has entries under
  -- its present address only.
  unfoldable pub all_closed : List (ℕ × Ptr) → List (ℕ × Ptr) → List (Ptr × NetConnect K) → Bool
  all_closed [] m cs = true
  all_closed ((i, p) ∷ closed) m cs =
      is_absent p closed && (is_keyed p m (conn_at p cs) && all_closed closed m cs)

  -- None of the objects is in memory.
  unfoldable pub all_gone : List (ℕ × Ptr) → List (Ptr × NetConnect K) → Bool
  all_gone [] cs = true
  all_gone ((i, p) ∷ closed) cs = elim (conn_at p cs) [ none ↦ all_gone closed cs | some c ↦ false ]

  conn_at-delete_conn_other :
      (p q : Ptr) (cs : List (Ptr × NetConnect K))
      → q ≢ p
      → conn_at q (delete_conn p cs) ≡ conn_at q cs
  unfolding conn_at delete_conn
  conn_at-delete_conn_other p q [] n = refl
  conn_at-delete_conn_other p q ((r, c) ∷ cs) n = ground (arith, conn_at-delete_conn_other p q cs)

  is_keyed-map_erase :
      (k : ℕ) (p : Ptr) (m : List (ℕ × Ptr)) (o : Option (NetConnect K))
      → is_keyed p m o ≡ true
      → is_keyed p (map_erase k m) o ≡ true
  is_keyed-map_erase k p m none h = h
  is_keyed-map_erase k p m (some c) h = all_keyed-map_erase (sockaddr_to_id c.client_addr) k p m h

  all_closed-delete_conn :
      (k : ℕ) (p : Ptr) (closed m : List (ℕ × Ptr)) (cs : List (Ptr × NetConnect K))
      → is_absent p closed ≡ true
      → all_closed closed m cs ≡ true
      → all_closed closed (map_erase k m) (delete_conn p cs) ≡ true
  unfolding is_absent all_closed
  all_closed-delete_conn k p [] m cs a h = refl
  all_closed-delete_conn k p ((i, q) ∷ closed) m cs a h =
      let other : q ≢ p = ground arith in
      let same = conn_at-delete_conn_other p q cs other in
      let keyed : is_keyed q m (conn_at q cs) ≡ true = ground arith in
      let erased = is_keyed-map_erase k q m (conn_at q cs) keyed in
      let rest = all_closed-delete_conn k p closed m cs (ground arith) (ground arith) in
      let absent : is_absent q closed ≡ true = ground arith in rw (same, absent, erased, rest) refl

  conn_at-gone :
      (p q : Ptr) (cs : List (Ptr × NetConnect K))
      → conn_at p cs ≡ none
      → conn_at p (delete_conn q cs) ≡ none
  unfolding conn_at delete_conn
  conn_at-gone p q [] h = refl
  conn_at-gone p q ((r, c) ∷ cs) h = ground (arith, conn_at-gone p q cs)

  is_keyed-some :
      (p : Ptr) (m : List (ℕ × Ptr)) (o : Option (NetConnect K))
      → is_keyed p m o ≡ true
      → (c : NetConnect K) × (o ≡ some c) × (all_keyed (sockaddr_to_id c.client_addr) p m ≡ true)
  is_keyed-some p m none h = absurd (ground arith)
  is_keyed-some p m (some c) h = (c, refl, h)

  free_all-freed :
      (i : ℕ) (p : Ptr) (closed : List (ℕ × Ptr)) (w : World K) (c : NetConnect K)
      → conn_at p w.conns ≡ some c
      → free_all ((i, p) ∷ closed) w ≡ free_all closed (freed w p c)
  unfolding free_all free_conn
  free_all-freed i p closed w c at = rw (at, free_all) refl

  all_gone-cons :
      (i : ℕ) (p : Ptr) (closed : List (ℕ × Ptr)) (cs : List (Ptr × NetConnect K))
      → conn_at p cs ≡ none
      → all_gone closed cs ≡ true
      → all_gone ((i, p) ∷ closed) cs ≡ true
  unfolding all_gone
  all_gone-cons i p closed cs n h = rw (n, all_gone) h

  free_all-IsLive :
      (closed : List (ℕ × Ptr)) (w : World K)
      → all_closed closed w.host.map_conn w.conns ≡ true
      → IsLive w
      → (w1 : World K) × (free_all closed w ≡ some w1)
        × (all_gone closed w1.conns ≡ true)
        × ((q : Ptr) → conn_at q w.conns ≡ none → conn_at q w1.conns ≡ none)
        × (w1.host.send_queue ≡ w.host.send_queue)
        × IsLive w1
  unfolding free_all all_closed all_gone
  free_all-IsLive [] w h l = (w, refl, refl, λ q n. n, refl, l)
  free_all-IsLive ((i, p) ∷ closed) w h l =
      let m = w.host.map_conn in
      let keyed : is_keyed p m (conn_at p w.conns) ≡ true = ground arith in
      let (c, at, own) = is_keyed-some p m (conn_at p w.conns) keyed in
      let k = sockaddr_to_id c.client_addr in
      let rest = all_closed-delete_conn k p closed m w.conns (ground arith) (ground arith) in
      let (w1, r, gone, stays, unsent, l1) =
        free_all-IsLive closed (freed w p c) rest (all_live-delete_conn k p m w.conns own l) in
      (
        w1,
        free_all-freed i p closed w c at ∙ r,
        all_gone-cons i p closed w1.conns (stays p (conn_at-delete_conn p w.conns)) gone,
        λ q n. stays q (conn_at-gone q p w.conns n),
        unsent,
        l1,
      )

  -- The packets of a closed connection stay on the send queue.
  pub proc_closed_conn-gone :
      (w : World K)
      → all_closed w.host.map_closed w.host.map_conn w.conns ≡ true
      → IsLive w
      → (w1 : World K) × (proc_closed_conn w ≡ some w1)
        × (w1.host.map_closed ≡ [])
        × (all_gone w.host.map_closed w1.conns ≡ true)
        × (w1.host.send_queue ≡ w.host.send_queue)
        × IsLive w1
  unfolding proc_closed_conn
  proc_closed_conn-gone w h l =
      let (w1, r, gone, stays, unsent, l1) = free_all-IsLive w.host.map_closed w h l in
      let emptied = record w1 { host = record w1.host { map_closed = [] } } in
      (emptied, rw (r) refl, refl, gone, unsent, l1)

  -- If each closed connection stands once in the map of closed ones, is in memory and has entries
  -- of the map of addresses under its present address only, and the pointers of that map are
  -- live: ProcClosedConn returns, reads no freed connection, leaves none of the closed
  -- connections in memory and empties the map of closed ones, and the pointers of the map of
  -- addresses are live.
  pub proc_closed_conn-IsLive :
      (w : World K)
      → all_closed w.host.map_closed w.host.map_conn w.conns ≡ true
      → IsLive w
      → (w1 : World K) × (proc_closed_conn w ≡ some w1)
        × (w1.host.map_closed ≡ [])
        × (all_gone w.host.map_closed w1.conns ≡ true)
        × IsLive w1
  proc_closed_conn-IsLive w h l =
      let (w1, r, empty, gone, unsent, l1) = proc_closed_conn-gone w h l in (w1, r, empty, gone, l1)
