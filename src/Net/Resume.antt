-- ===== src/Net/Resume.antt =====
-- Which requests move a connection to another address, and the cookie that they need.
use ttserver.Base.{
  ℕ, zero, suc, ◌-◌, ◌≡◌, ◌≢◌, ◌≤◌, ◌⊎◌, inl, inr, refl, sym, ap, subst, ◌∙◌, arith, true, false,
  List, [], ◌∷◌, ◌++◌, Option, none, some, ◌==◌, if◌then◌else◌, length, replicate,
}
use ttserver.Library.{Library, SockAddr}
use ttserver.Msg.Packets.{Reconnect}
use ttserver.Host.{Ptr, Ret, succ}
use ttserver.Host.Kept.{send_reconnect_ack-map_conn}
use ttserver.Conn.{NetConnect}
use ttserver.Conn.Setup.{copied_cookie, c_string, reconnect}
use ttserver.Net.{World, conn_at, get_conn_by_addr, get_conn_by_id, scan_id}
use ttserver.Net.Handshake.{is_same}
use ttserver.Net.Admission.{is_same-≡, IsUnchanged, after_run}
use ttserver.Net.Serve.{
  accepted, rejected, resumed, reconnect_at, handle_reconnect, found_id, known_addr,
}

-- The last byte, or 0.
unfoldable pub last_byte : List ℕ → ℕ
last_byte [] = 0
last_byte (b ∷ []) = b
last_byte (b ∷ c ∷ bs) = last_byte (c ∷ bs)

length-c_string : (n : ℕ) (src : List ℕ) → length (c_string n src) ≤ n
unfolding c_string
length-c_string zero src = omega arith
length-c_string (suc n) [] = omega arith
length-c_string (suc n) (b ∷ src) = ground (arith, length-c_string n src)

last_byte-zeros : (n : ℕ) → last_byte (replicate (suc n) 0) ≡ 0
unfolding last_byte
last_byte-zeros zero = refl
last_byte-zeros (suc n) = last_byte-zeros n

last_byte-append : (s : List ℕ) (n : ℕ) → last_byte (s ++ replicate (suc n) 0) ≡ 0
unfolding last_byte
last_byte-append [] n = last_byte-zeros n
last_byte-append (b ∷ []) n = last_byte-zeros n
last_byte-append (b ∷ c ∷ s) n = last_byte-append (c ∷ s) n

-- The copy of a cookie ends in a zero byte.
last_byte-copied_cookie : (k : List ℕ) → last_byte (copied_cookie k) ≡ 0
unfolding copied_cookie
last_byte-copied_cookie k =
    let s = c_string 19 k in
    let e : 20 - length s ≡ suc (19 - length s) = omega (arith, length-c_string 19 k) in
    rw e (last_byte-append s (19 - length s))

module _ {K : Type 0} (lib : Library K) where
  -- A connection that keeps a copy of a cookie as InitConnect makes it rejects every request to
  -- move it that brings that cookie, where the cookie's last byte is not zero.
  pub reconnect_at-copied_cookie :
      (w : World K) (req : Reconnect) (addr : SockAddr) (p : Ptr) (c : NetConnect K)
      (cookie : List ℕ)
      → c.cookies ≡ copied_cookie cookie
      → req.cookies ≡ cookie
      → last_byte cookie ≢ 0
      → reconnect_at lib w req addr p c ≡ rejected w addr
  unfolding reconnect_at
  reconnect_at-copied_cookie w req addr p c cookie e r n =
      let differ : is_same req.cookies c.cookies ≢ true = λ s. n (
        ap last_byte (sym r ∙ is_same-≡ req.cookies c.cookies s ∙ e)
        ∙ last_byte-copied_cookie cookie) in
      ground (arith, differ)

  -- A request that moves a connection knows its id and its cookie.
  abbrev pub IsOwner : World K → Reconnect → Type 0
  IsOwner w req =
      (p : Ptr) × (c : NetConnect K) × (conn_at p w.conns ≡ some c)
      × (c.conn_id ≡ req.conn_id)
      × (req.cookies ≡ c.cookies)

  rejected-IsUnchanged : (w : World K) (addr : SockAddr) → IsUnchanged w (rejected w addr).1
  rejected-IsUnchanged w addr = (refl, refl, send_reconnect_ack-map_conn w.host addr none)

  -- `GetConnByID` finds a connection that has the id.
  scan_id-conn_id :
      (cs : List (Ptr × NetConnect K)) (i : ℕ) (m : List (ℕ × Ptr)) (p : Ptr) (c : NetConnect K)
      → scan_id cs i m ≡ some (some p)
      → conn_at p cs ≡ some c
      → c.conn_id ≡ i
  unfolding scan_id
  scan_id-conn_id cs i [] p c e at = absurd (ground arith)
  scan_id-conn_id cs i ((k, q) ∷ m) p c e at = ground (arith, e, at, scan_id-conn_id cs i m p c)

  known_addr-IsUnchanged :
      (w : World K) (req : Reconnect) (addr : SockAddr) (o : Option (NetConnect K))
      → IsUnchanged w
          (after_run w (elim o [ none ↦ none | some c ↦ some (known_addr w req addr c) ]))
  known_addr-IsUnchanged w req addr none = (refl, refl, refl)
  known_addr-IsUnchanged w req addr (some c) =
      elim (req.conn_id == c.conn_id)
        as (λ b.
          let x : Ret × World K = if b then (succ, accepted w addr c) else rejected w addr in
          IsUnchanged w x.1) [
            | true ↦
                (refl, refl, send_reconnect_ack-map_conn w.host addr (some (c.conn_id, c.cookies)))
            | false ↦ rejected-IsUnchanged w addr
          ]

  reconnect_at-IsOwner :
      (w : World K) (req : Reconnect) (addr : SockAddr) (p : Ptr) (c : NetConnect K)
      → conn_at p w.conns ≡ some c
      → c.conn_id ≡ req.conn_id
      → IsUnchanged w (reconnect_at lib w req addr p c).1 ⊎ IsOwner w req
  unfolding reconnect_at
  reconnect_at-IsOwner w req addr p c at i =
      elim (is_same req.cookies c.cookies)
          as (λ b.
            is_same req.cookies c.cookies ≡ b
            → (let x : Ret × World K =
                  if b
                  then resumed lib w addr p (reconnect lib c w.host addr)
                  else rejected w addr in
                IsUnchanged w x.1 ⊎ IsOwner w req)) [
                  | true ↦ λ s. inr (p, c, at, i, is_same-≡ req.cookies c.cookies s)
                  | false ↦ λ s. inl (rejected-IsUnchanged w addr)
                ]
        refl

  found_id-IsOwner :
      (w : World K) (req : Reconnect) (addr : SockAddr) (o : Option (Option Ptr))
      → get_conn_by_id w req.conn_id ≡ o
      → IsUnchanged w (after_run w (found_id lib w req addr o)) ⊎ IsOwner w req
  unfolding get_conn_by_id
  found_id-IsOwner w req addr none f = inl (refl, refl, refl)
  found_id-IsOwner w req addr (some none) f = inl (rejected-IsUnchanged w addr)
  found_id-IsOwner w req addr (some (some p)) f =
      elim (conn_at p w.conns)
          as (λ o.
            conn_at p w.conns ≡ o
            → IsUnchanged w (
                after_run w
                  (elim o [ none ↦ none | some c ↦ some (reconnect_at lib w req addr p c) ]))
              ⊎ IsOwner w req) [
                | none ↦ λ at. inl (refl, refl, refl)
                | some c ↦ λ at.
                    reconnect_at-IsOwner w req addr p c at
                      (scan_id-conn_id w.conns req.conn_id w.host.map_conn p c f at)
              ]
        refl

  by_addr-IsOwner :
      (w : World K) (req : Reconnect) (addr : SockAddr) (o : Option Ptr)
      → IsUnchanged w (
          after_run w (elim o [
            | none ↦ found_id lib w req addr (get_conn_by_id w req.conn_id)
            | some p ↦ elim (conn_at p w.conns) [
              | none ↦ none
              | some c ↦ some (known_addr w req addr c)
            ]
          ]))
        ⊎ IsOwner w req
  by_addr-IsOwner w req addr none = found_id-IsOwner w req addr (get_conn_by_id w req.conn_id) refl
  by_addr-IsOwner w req addr (some p) = inl (known_addr-IsUnchanged w req addr (conn_at p w.conns))

  -- A run of HandleReconnect that ends leaves the connections, the ids and the map of addresses
  -- as they were, unless the request names the id and the cookie of a connection that is there.
  pub handle_reconnect-IsOwner :
      (w : World K) (req : Reconnect) (addr : SockAddr) (r : Ret) (w1 : World K)
      → handle_reconnect lib w req addr ≡ some (r, w1)
      → IsUnchanged w w1 ⊎ IsOwner w req
  unfolding handle_reconnect
  handle_reconnect-IsOwner w req addr r w1 e =
      subst (λ x. IsUnchanged w x ⊎ IsOwner w req) (ap (after_run w) e)
        (by_addr-IsOwner w req addr (get_conn_by_addr w addr))
