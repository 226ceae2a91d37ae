-- ===== src/Net/Live.antt =====
-- The pointers that the maps hold.
use ttserver.Base.{
  ℕ, ◌≡◌, refl, arith, Bool, true, false, List, [], ◌∷◌, Option, none, some, ◌==◌, if◌then◌else◌,
}
use ttserver.Library.{SockAddr}
use ttserver.Host.{Ptr, Host, map_set, map_erase, map_find}
use ttserver.Host.Events.{set_conn_addr}
use ttserver.Conn.{NetConnect}
use ttserver.Net.{World, conn_at, put_conn, scan_id}

module _ {K : Type 0} where
  abbrev pub is_own : Ptr → Option (NetConnect K) → Bool
  is_own p none = false
  is_own p (some c) = c.self == p

  -- There is an object at the address, which knows its own address.
  unfoldable pub has_conn : Ptr → List (Ptr × NetConnect K) → Bool
  has_conn p cs = is_own p (conn_at p cs)

  -- Every pointer of a map points to such an object.
  unfoldable pub all_live : List (ℕ × Ptr) → List (Ptr × NetConnect K) → Bool
  all_live [] cs = true
  all_live ((k, p) ∷ m) cs = if has_conn p cs then all_live m cs else false

  -- The network's world is sound: `map_conn` holds no pointer to an object that is gone.
  abbrev pub IsLive : World K → Type 0
  IsLive w = all_live w.host.map_conn w.conns ≡ true

  pub map_find-has_conn :
      (k : ℕ) (p : Ptr) (m : List (ℕ × Ptr)) (cs : List (Ptr × NetConnect K))
      → all_live m cs ≡ true
      → map_find k m ≡ some p
      → has_conn p cs ≡ true
  unfolding all_live map_find
  map_find-has_conn k p [] cs l e = ground arith
  map_find-has_conn k p ((j, q) ∷ m) cs l e = ground (arith, map_find-has_conn k p m cs)

  is_own-some :
      (p : Ptr) (o : Option (NetConnect K))
      → is_own p o ≡ true
      → (c : NetConnect K) × (o ≡ some c) × (c.self ≡ p)
  is_own-some p none l = absurd (ground arith)
  is_own-some p (some c) l = (c, refl, ground arith)

  -- The object that a live pointer reads.
  pub has_conn-conn_at :
      (p : Ptr) (cs : List (Ptr × NetConnect K))
      → has_conn p cs ≡ true
      → (c : NetConnect K) × (conn_at p cs ≡ some c) × (c.self ≡ p)
  unfolding has_conn
  has_conn-conn_at p cs l = is_own-some p (conn_at p cs) l

  pub has_conn-put_conn :
      (p q : Ptr) (c : NetConnect K) (cs : List (Ptr × NetConnect K))
      → c.self ≡ q
      → has_conn p cs ≡ true
      → has_conn p (put_conn q c cs) ≡ true
  unfolding has_conn put_conn conn_at
  has_conn-put_conn p q c [] s l = ground arith
  has_conn-put_conn p q c ((r, d) ∷ cs) s l = ground (arith, has_conn-put_conn p q c cs s)

  pub all_live-put_conn :
      (m : List (ℕ × Ptr)) (q : Ptr) (c : NetConnect K) (cs : List (Ptr × NetConnect K))
      → c.self ≡ q
      → all_live m cs ≡ true
      → all_live m (put_conn q c cs) ≡ true
  unfolding all_live
  all_live-put_conn [] q c cs s l = refl
  all_live-put_conn ((k, p) ∷ m) q c cs s l =
      ground (arith, has_conn-put_conn p q c cs s, all_live-put_conn m q c cs s)

  -- A new object at another address, or over an old one.
  pub all_live-new :
      (m : List (ℕ × Ptr)) (q : Ptr) (c : NetConnect K) (cs : List (Ptr × NetConnect K))
      → c.self ≡ q
      → all_live m cs ≡ true
      → all_live m ((q, c) ∷ cs) ≡ true
  unfolding all_live has_conn conn_at
  all_live-new [] q c cs s l = refl
  all_live-new ((k, p) ∷ m) q c cs s l = ground (arith, all_live-new m q c cs s)

  pub all_live-map_set :
      (m : List (ℕ × Ptr)) (k : ℕ) (p : Ptr) (cs : List (Ptr × NetConnect K))
      → has_conn p cs ≡ true
      → all_live m cs ≡ true
      → all_live (map_set k p m) cs ≡ true
  unfolding all_live map_set
  all_live-map_set [] k p cs h l = ground arith
  all_live-map_set ((j, q) ∷ m) k p cs h l = ground (arith, all_live-map_set m k p cs h)

  pub all_live-map_erase :
      (m : List (ℕ × Ptr)) (k : ℕ) (cs : List (Ptr × NetConnect K))
      → all_live m cs ≡ true
      → all_live (map_erase k m) cs ≡ true
  unfolding all_live map_erase
  all_live-map_erase [] k cs l = refl
  all_live-map_erase ((j, q) ∷ m) k cs l = ground (arith, all_live-map_erase m k cs)

  pub all_live-set_conn_addr :
      (h : Host) (p : Ptr) (addr : SockAddr) (old : Option SockAddr)
      (cs : List (Ptr × NetConnect K))
      → has_conn p cs ≡ true
      → all_live h.map_conn cs ≡ true
      → all_live (set_conn_addr h p addr old).map_conn cs ≡ true
  unfolding set_conn_addr
  all_live-set_conn_addr h p addr none cs l e = all_live-map_set _ _ p cs l e
  all_live-set_conn_addr h p addr (some a) cs l e =
      all_live-map_set _ _ p cs l (all_live-map_erase h.map_conn _ cs e)

  abbrev pub is_found : Option (Option Ptr) → List (Ptr × NetConnect K) → Bool
  is_found none cs = false
  is_found (some none) cs = true
  is_found (some (some p)) cs = has_conn p cs

  -- `GetConnByID` only reads objects that are there, and what it finds is there.
  pub scan_id-is_found :
      (i : ℕ) (m : List (ℕ × Ptr)) (cs : List (Ptr × NetConnect K))
      → all_live m cs ≡ true
      → is_found (scan_id cs i m) cs ≡ true
  unfolding all_live scan_id has_conn
  scan_id-is_found i [] cs l = refl
  scan_id-is_found i ((k, p) ∷ m) cs l = ground (arith, scan_id-is_found i m cs)
