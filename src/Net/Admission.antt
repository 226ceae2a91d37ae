-- ===== src/Net/Admission.antt =====
-- Which requests make a connection or move one.
use ttserver.Base.{
  ℕ, ◌≡◌, ◌<◌, ◌⊎◌, inl, inr, refl, ap, subst, ◌∙◌, arith, true, false, List, [], ◌∷◌, Option, none,
  some, ◌==◌, if◌then◌else◌, not,
}
use ttserver.Library.{Library, SockAddr}
use ttserver.Msg.PacketType
use ttserver.Msg.Packets.{HandShake}
use ttserver.Host.{Ptr, Ret, succ}
use ttserver.Host.Kept.{send_handshake_msg-map_conn}
use ttserver.Conn.{NetConnect}
use ttserver.Net.{World, conn_at, get_conn_by_addr}
use ttserver.Cookie.{create_cookie}
use ttserver.Net.Handshake.{
  answered_again, is_repeated, is_same, own_cookie, is_late, checked, refused, accept_handshake2,
  new_handshake2, repeat_handshake2, handle_handshake2, send_handshake_fail, send_handshake_succ,
  ack_head, echo,
}

-- `memcmp` finds no difference between equal bytes only.
pub is_same-≡ : (a b : List ℕ) → is_same a b ≡ true → a ≡ b
unfolding is_same
is_same-≡ [] [] e = refl
is_same-≡ [] (b ∷ bs) e = absurd (ground arith)
is_same-≡ (a ∷ xs) [] e = absurd (ground arith)
is_same-≡ (a ∷ xs) (b ∷ bs) e = ground (arith, is_same-≡ xs bs)

module _ {K : Type 0} where
  -- No connection, no id and no address has changed.
  abbrev pub IsUnchanged : World K → World K → Type 0
  IsUnchanged w w1 = (w1.conns ≡ w.conns) × (w1.ids ≡ w.ids) × (w1.host.map_conn ≡ w.host.map_conn)

  -- The world after a run, or the one before.
  abbrev pub after_run : World K → Option (Ret × World K) → World K
  after_run w none = w
  after_run w (some (r, w1)) = w1

module _ {K : Type 0} (lib : Library K) where
  -- The address is new, the request is in time, it brings a public number, and its cookie is the one
  -- that belongs to the address and the request's time stamp under the request's key.
  pub record IsGenuine (w : World K) (req : HandShake) (addr : SockAddr) : Type 0 where
    pub new_addr : get_conn_by_addr w addr ≡ none
    pub in_time : is_late lib w req ≡ false
    pub has_number : 0 < req.encrypt_data_len
    pub own : own_cookie lib req addr ≡ some req.cookies

  refused-IsUnchanged :
      (w : World K) (req : HandShake) (addr : SockAddr) → IsUnchanged w (refused lib w req addr).1
  unfolding send_handshake_fail
  refused-IsUnchanged w req addr = (
    refl,
    refl,
    send_handshake_msg-map_conn w.host (ack_head PacketType.handshake2_ack) (echo req) addr,
  )

  checked-IsGenuine :
      (w : World K) (req : HandShake) (addr : SockAddr) (o : Option (List ℕ))
      → get_conn_by_addr w addr ≡ none
      → is_late lib w req ≡ false
      → own_cookie lib req addr ≡ o
      → IsUnchanged w (checked lib w req addr o).1 ⊎ IsGenuine w req addr
  checked-IsGenuine w req addr none n t e = inl (refused-IsUnchanged w req addr)
  checked-IsGenuine w req addr (some cookie) n t e =
      elim (is_same cookie req.cookies)
          as (λ b.
            is_same cookie req.cookies ≡ b
            → IsUnchanged w
                (if not b
                  then refused lib w req addr
                  else if req.encrypt_data_len == 0
                  then refused lib w req addr
                  else accept_handshake2 lib w req addr).1
              ⊎ IsGenuine w req addr) [
                | false ↦ λ d. inl (refused-IsUnchanged w req addr)
                | true ↦ λ d.
                    elim (req.encrypt_data_len == 0)
                        as (λ z.
                          (req.encrypt_data_len == 0) ≡ z
                          → IsUnchanged w
                              (if z
                                then refused lib w req addr
                                else accept_handshake2 lib w req addr).1
                            ⊎ IsGenuine w req addr) [
                              | true ↦ λ f. inl (refused-IsUnchanged w req addr)
                              | false ↦ λ f. inr (record {
                                new_addr = n;
                                in_time = t;
                                has_number = ground (arith, f);
                                own = e ∙ ap some (is_same-≡ cookie req.cookies d);
                              })
                            ]
                      refl
              ]
        refl

  new_handshake2-IsGenuine :
      (w : World K) (req : HandShake) (addr : SockAddr)
      → get_conn_by_addr w addr ≡ none
      → IsUnchanged w (new_handshake2 lib w req addr).1 ⊎ IsGenuine w req addr
  unfolding new_handshake2
  new_handshake2-IsGenuine w req addr n =
      elim (is_late lib w req)
          as (λ b.
            is_late lib w req ≡ b
            → IsUnchanged w
                (if b
                  then refused lib w req addr
                  else checked lib w req addr (own_cookie lib req addr)).1
              ⊎ IsGenuine w req addr) [
                | true ↦ λ t. inl (refused-IsUnchanged w req addr)
                | false ↦ λ t. checked-IsGenuine w req addr (own_cookie lib req addr) n t refl
              ]
        refl

  answered_again-IsUnchanged :
      (w : World K) (req : HandShake) (c : NetConnect K) (o : Option (List ℕ))
      → IsUnchanged w (answered_again lib w req c o).1
  unfolding send_handshake_succ
  answered_again-IsUnchanged w req c none = (refl, refl, refl)
  answered_again-IsUnchanged w req c (some cookie) =
      elim (is_repeated lib req c cookie)
        as (λ b.
          let x : Ret × World K =
            if b
            then (succ, record w { host = (send_handshake_succ w.host req c).1 })
            else (succ, w) in
          IsUnchanged w x.1) [
            | true ↦ (refl, refl, send_handshake_msg-map_conn _ _ _ _)
            | false ↦ (refl, refl, refl)
          ]

  -- The answer to a repeated request changes none of them.
  repeat_handshake2-IsUnchanged :
      (w : World K) (req : HandShake) (addr : SockAddr) (p : Ptr)
      → IsUnchanged w (after_run w (repeat_handshake2 lib w req addr p))
  unfolding repeat_handshake2
  repeat_handshake2-IsUnchanged w req addr p =
      let cookie = create_cookie lib addr req.time_stamp w.cookie_mgr.key_seq in
      elim (conn_at p w.conns)
        as (λ o. IsUnchanged w (
          after_run w
            (elim o [ none ↦ none | some c ↦ some (answered_again lib w req c cookie) ]))) [
              | none ↦ (refl, refl, refl)
              | some c ↦ answered_again-IsUnchanged w req c cookie
            ]

  by_addr-IsGenuine :
      (w : World K) (req : HandShake) (addr : SockAddr) (o : Option Ptr)
      → get_conn_by_addr w addr ≡ o
      → IsUnchanged w (
          after_run w (elim o [
            | some p ↦ repeat_handshake2 lib w req addr p
            | none ↦ some (new_handshake2 lib w req addr)
          ]))
        ⊎ IsGenuine w req addr
  by_addr-IsGenuine w req addr none n = new_handshake2-IsGenuine w req addr n
  by_addr-IsGenuine w req addr (some p) n = inl (repeat_handshake2-IsUnchanged w req addr p)

  -- A run of HandleHandShake2 that ends leaves the connections, the ids and the map of addresses
  -- as they were, unless the request is genuine: its address has no connection, it is not older
  -- than MAX_HANDSHAKE_COOKIES_TIME, it brings a public number, and its cookie is what
  -- CreateCookie gives for its address, its time stamp and its key.
  pub handle_handshake2-IsGenuine :
      (w : World K) (req : HandShake) (addr : SockAddr) (r : Ret) (w1 : World K)
      → handle_handshake2 lib w req addr ≡ some (r, w1)
      → IsUnchanged w w1 ⊎ IsGenuine w req addr
  unfolding handle_handshake2
  handle_handshake2-IsGenuine w req addr r w1 e =
      subst (λ x. IsUnchanged w x ⊎ IsGenuine w req addr) (ap (after_run w) e)
        (by_addr-IsGenuine w req addr (get_conn_by_addr w addr) refl)
