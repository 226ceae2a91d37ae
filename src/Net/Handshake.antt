-- ===== src/Net/Handshake.antt =====
-- The server's half of the handshake, in src/net/NetWork.cpp.
use ttserver.Base.{
  ℕ, zero, suc, ◌+◌, ◌%◌, ◌^◌, Bool, true, false, ◌&&◌, List, [], ◌∷◌, Option, none, some, ltb,
  ◌==◌, if◌then◌else◌, not, replicate, take, memcpy,
}
use ttserver.Config.{event_connect, max_handshake_cookies_time}
use ttserver.Library.{Library, SockAddr}
use ttserver.Msg.PacketType
use ttserver.Msg.Packets.{Head, HandShake, max_encrypt_data_len}
use ttserver.Host.{Ptr, Host, Ret, copy_into, succ, fail}
use ttserver.Host.Packets.{send_handshake_msg}
use ttserver.Host.Events.{notify_conn_event}
use ttserver.Cookie.{create_cookie}
use ttserver.Security.Dh.{Exchange}
use ttserver.Security.Dh
use ttserver.Conn.{NetConnect, EncyptData}
use ttserver.Net.{World, conn_at, get_conn_by_addr, on_host}
use ttserver.Net.Manager.{create_new_conn}

-- `memcmp(a, b, n) == 0` on fields that have `n` bytes.
unfoldable pub is_same : List ℕ → List ℕ → Bool
is_same [] [] = true
is_same [] (b ∷ bs) = false
is_same (a ∷ xs) [] = false
is_same (a ∷ xs) (b ∷ bs) = let rest = is_same xs bs in if a == b then rest else false

abbrev zeros : List ℕ
zeros = replicate 16 0

-- What `memcpy(dst, src, n)` leaves in a field of zeros. The callers note with `copy_into` when the
-- copy goes on behind the 16 bytes of the two fields.
abbrev pub copied : ℕ → List ℕ → List ℕ
copied n src = memcpy zeros 0 (take n src)

abbrev pub ack_head : ℕ → Head
ack_head kind = record { kind = kind; is_reliable = 0 }

-- The acknowledgement of a first handshake.
abbrev first_ack : Host → ℕ → HandShake → List ℕ → HandShake
first_ack h seq req cookie = record {
  time_stamp = h.now % 2 ^ 32;
  screte_key = seq;
  conn_id = 0;
  is_key = 0;
  encrypt_data_len = 0;
  ext_data = req.ext_data;
  encrypt_data = zeros;
  cookies = cookie;
}

-- The fields that both acknowledgements of a second handshake share.
abbrev pub echo : HandShake → HandShake
echo req = record {
  time_stamp = req.time_stamp;
  screte_key = req.screte_key;
  conn_id = 0;
  is_key = 0;
  encrypt_data_len = 0;
  ext_data = req.ext_data;
  encrypt_data = zeros;
  cookies = req.cookies;
}

abbrev with_secret : HandShake → ℕ → EncyptData → HandShake
with_secret rsp conn_id e =
    if e.is_dh_key
    then record rsp {
      conn_id = conn_id;
      is_key = 0;
      encrypt_data_len = e.num_b_len % 2 ^ 8;
      encrypt_data = copied e.num_b_len e.num_b;
    }
    else record rsp {
      conn_id = conn_id;
      is_key = 1;
      encrypt_data_len = e.key_len % 2 ^ 8;
      encrypt_data = copied e.key_len e.key;
    }

-- The bytes of the secret that the answer brings.
abbrev pub secret_len : EncyptData → ℕ
secret_len e = if e.is_dh_key then e.num_b_len else e.key_len

-- `SendHandShakeSucc`, which reads the id, the secrets and the address of the connection.
unfoldable pub send_handshake_succ : {K : Type 0} → Host → HandShake → NetConnect K → Ret × Host
send_handshake_succ h req c =
    send_handshake_msg (copy_into h max_encrypt_data_len (secret_len c.encypt_data))
      (ack_head PacketType.handshake2_ack) (with_secret (echo req) c.conn_id c.encypt_data)
      c.client_addr

-- `SendHandShakeFail`; the reason goes to the log only.
unfoldable pub send_handshake_fail : Host → HandShake → SockAddr → Ret × Host
send_handshake_fail h req client =
    send_handshake_msg h (ack_head PacketType.handshake2_ack) (echo req) client

-- Sixteen random bytes, from the draw `n` on.
abbrev random_key : {K : Type 0} → Library K → ℕ → ℕ → List ℕ
random_key lib zero n = []
random_key lib (suc k) n = lib.random_byte n ∷ random_key lib k (n + 1)

-- The fields of a new `STEncyptData` that the exchange works on.
abbrev pub empty_exchange : Exchange
empty_exchange = record { ret = fail; num = zeros; num_len = 16; key = zeros; key_len = 16 }

module _ {K : Type 0} (lib : Library K) where
  abbrev sent_first : World K → HandShake → SockAddr → Option (List ℕ) → Ret × World K
  sent_first w req addr none = (fail, w)
  sent_first w req addr (some cookie) = on_host w (
      send_handshake_msg w.host (ack_head PacketType.handshake1_ack)
        (first_ack w.host w.cookie_mgr.key_seq req cookie) addr)

  -- `HandleHandShake1`.
  unfoldable pub handle_handshake1 : World K → HandShake → SockAddr → Ret × World K
  handle_handshake1 w req addr = elim (get_conn_by_addr w addr) [
    | some p ↦ (succ, w)
    | none ↦ sent_first w req addr (create_cookie lib addr w.host.now w.cookie_mgr.key_seq)
  ]

  -- Whether a second handshake repeats the one that made the connection.
  unfoldable pub is_repeated : HandShake → NetConnect K → List ℕ → Bool
  is_repeated req c cookie =
      is_same cookie c.cookies
      && is_same cookie req.cookies
      && is_same (take c.encypt_data.num_a_len c.encypt_data.num_a)
          (take c.encypt_data.num_a_len req.encrypt_data)

  abbrev pub answered_again : World K → HandShake → NetConnect K → Option (List ℕ) → Ret × World K
  answered_again w req c none = (fail, w)
  answered_again w req c (some cookie) =
      if is_repeated req c cookie
      then (succ, record w { host = (send_handshake_succ w.host req c).1 })
      else (succ, w)

  -- The branch of `HandleHandShake2` for an address that has a connection. The cookie is made with
  -- the present key.
  unfoldable pub repeat_handshake2 : World K → HandShake → SockAddr → Ptr → Option (Ret × World K)
  repeat_handshake2 w req addr p = elim (conn_at p w.conns) [
    | none ↦ none
    | some c ↦
        some (answered_again w req c (create_cookie lib addr req.time_stamp w.cookie_mgr.key_seq))
  ]

  abbrev pub refused : World K → HandShake → SockAddr → Ret × World K
  refused w req addr = (fail, record w { host = (send_handshake_fail w.host req addr).1 })

  -- The secrets that go to the connection. Without a key from the exchange the key is random, and its
  -- length is what the exchange left.
  abbrev pub secrets : HandShake → ℕ → Exchange → EncyptData
  secrets req draw e =
      let shared : EncyptData = record {
        is_dh_key = true;
        key_len = e.key_len;
        key = e.key;
        num_a_len = req.encrypt_data_len;
        num_a = copied req.encrypt_data_len req.encrypt_data;
        num_b_len = e.num_len;
        num_b = e.num;
      } in
      elim e.ret [
        | succ ↦ shared
        | fail ↦ record shared { is_dh_key = false; key = random_key lib 16 (draw + 1) }
      ]

  unfoldable pub new_secrets : World K → HandShake → EncyptData
  new_secrets w req = secrets req w.draws (
      Dh.handle_handshake2 lib w.draws (copied req.encrypt_data_len req.encrypt_data)
        req.encrypt_data_len empty_exchange)

  abbrev pub connected :
      HandShake → SockAddr → Option (Ptr × NetConnect K) × World K → Ret × World K
  connected req addr (none, w) = refused w req addr
  connected req addr (some (p, c), w) =
      let h1 = (send_handshake_succ w.host req c).1 in
      (
        succ,
        record w {
          host = (notify_conn_event h1 event_connect c.conn_id 0 req.ext_data none none).1;
        },
      )

  -- The world after the public number was copied to `szNumA`, and the numbers were drawn.
  abbrev pub exchanged : World K → HandShake → World K
  exchanged w req = record w {
    draws = w.draws + 17;
    host = copy_into w.host max_encrypt_data_len req.encrypt_data_len;
  }

  -- A second handshake whose cookie holds: the exchange of keys, and the new connection.
  unfoldable pub accept_handshake2 : World K → HandShake → SockAddr → Ret × World K
  accept_handshake2 w req addr =
      connected req addr
        (create_new_conn lib (exchanged w req) addr req.cookies (new_secrets w req))

  -- The cookie that belongs to the request.
  abbrev pub own_cookie : HandShake → SockAddr → Option (List ℕ)
  own_cookie req addr = create_cookie lib addr req.time_stamp req.screte_key

  abbrev pub is_late : World K → HandShake → Bool
  is_late w req = ltb ((req.time_stamp + max_handshake_cookies_time) % 2 ^ 32) w.host.now

  abbrev pub checked : World K → HandShake → SockAddr → Option (List ℕ) → Ret × World K
  checked w req addr none = refused w req addr
  checked w req addr (some cookie) =
      if not (is_same cookie req.cookies)
      then refused w req addr
      else if req.encrypt_data_len == 0
      then refused w req addr
      else accept_handshake2 w req addr

  -- `HandleHandShake2` for an address without a connection.
  unfoldable pub new_handshake2 : World K → HandShake → SockAddr → Ret × World K
  new_handshake2 w req addr =
      if is_late w req then refused w req addr else checked w req addr (own_cookie req addr)

  -- `HandleHandShake2`.
  unfoldable pub handle_handshake2 : World K → HandShake → SockAddr → Option (Ret × World K)
  handle_handshake2 w req addr = elim (get_conn_by_addr w addr) [
    | some p ↦ repeat_handshake2 w req addr p
    | none ↦ some (new_handshake2 w req addr)
  ]
