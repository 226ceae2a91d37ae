-- ===== src/System/Socket.antt =====
-- src/net/Socket.cpp: the options of a socket, and addresses from names.
use ttserver.Base.{
  ℕ, ◌-◌, ◌*◌, ◌^◌, Bool, true, false, not, List, Option, none, some, ◌==◌, if◌then◌else◌, ℤ, pos,
  negsuc, minus_one, is_zero,
}
use ttserver.Library.{SockAddr}
use ttserver.System.Calls.{
  SockOpt, so_reuseaddr, so_reuseport, so_sndbuf, so_rcvbuf, so_error, setsockopt, getsockopt, Os,
  Io, ◌>>=◌, return, call, call_value, is_negative,
}

abbrev pub is_minus_one : ℤ → Bool
is_minus_one (pos _) = false
is_minus_one (negsuc n) = n == 0

module _ (os : Os) where
  -- `sock_reuse` and `sock_reuse_port`.
  abbrev pub set_flag : ℕ → SockOpt → ℕ → Io ℤ
  set_flag fd flag opt = do
    r ← call os (setsockopt fd flag opt)
    return (if is_negative r then minus_one else pos 0)

  unfoldable pub sock_reuse : ℕ → ℕ → Io ℤ
  sock_reuse fd opt = set_flag fd so_reuseaddr opt

  unfoldable pub sock_reuse_port : ℕ → ℕ → Io ℤ
  sock_reuse_port fd opt = set_flag fd so_reuseport opt

  -- The option is read again after it was set.
  abbrev pub read_back : ℕ → SockOpt → Bool → Io ℤ
  read_back fd flag true = return minus_one
  read_back fd flag false = do
    r ← call os (getsockopt fd flag)
    return (if is_zero r then pos 0 else minus_one)

  abbrev pub set_buf : ℕ → SockOpt → ℕ → Io ℤ
  set_buf fd flag size = do
    r ← call os (setsockopt fd flag size)
    read_back fd flag (is_minus_one r)

  unfoldable pub sock_rbuf : ℕ → ℕ → Io ℤ
  sock_rbuf fd size = set_buf fd so_rcvbuf size

  unfoldable pub sock_wbuf : ℕ → ℕ → Io ℤ
  sock_wbuf fd size = set_buf fd so_sndbuf size

  abbrev is_doubled : ℕ → ℤ × ℕ → ℤ
  is_doubled size (r, value) =
      if is_zero r then (if 2 * size == value then pos 0 else minus_one) else pos 0

  abbrev check_doubled : ℕ → SockOpt → ℕ → Bool → Io ℤ
  check_doubled fd flag size true = return minus_one
  check_doubled fd flag size false = do
    r ← call_value os (getsockopt fd flag)
    return (is_doubled size r)

  -- `sock_buf`, for a size of less than 2 ^ 30.
  unfoldable pub sock_buf : ℕ → ℕ → SockOpt → Io ℤ
  sock_buf fd size flag = do
    r ← call os (setsockopt fd flag size)
    check_doubled fd flag size (is_minus_one r)

  abbrev value_of : ℤ × ℕ → ℤ
  value_of (r, value) = if is_zero r then pos value else minus_one

  -- `sock_get_rbuf` and `sock_get_wbuf`: both read the size of the send buffer.
  unfoldable pub sock_get_rbuf : ℕ → Io ℤ
  sock_get_rbuf fd = do r ← call_value os (getsockopt fd so_sndbuf); return (value_of r)

  unfoldable pub sock_get_wbuf : ℕ → Io ℤ
  sock_get_wbuf fd = do r ← call_value os (getsockopt fd so_sndbuf); return (value_of r)

  -- `sock_error`.
  abbrev error_of : ℤ × ℕ → ℤ
  error_of (r, value) = if is_negative r then minus_one else pos value

  unfoldable pub sock_error : ℕ → Io ℤ
  sock_error fd = do r ← call_value os (getsockopt fd so_error); return (error_of r)

-- `inet_addr` gives this for a text that is no address.
abbrev pub inaddr_none : ℕ
inaddr_none = 2 ^ 32 - 1

-- `by_name` and `inet_addr` stand for `gethostbyname` and `inet_addr` on a host's text.
module _ (by_name : List ℕ → Option ℕ) (inet_addr : List ℕ → ℕ) where
  abbrev found_host : ℕ → Option ℕ → ℤ × ℕ
  found_host ip none = (minus_one, ip)
  found_host ip (some host) = (pos 0, host)

  -- `sock_host2i`, with the number that it leaves in `uip`.
  unfoldable pub sock_host2i : List ℕ → ℤ × ℕ
  sock_host2i host =
      if not (inet_addr host == inaddr_none)
      then (pos 0, inet_addr host)
      else found_host (inet_addr host) (by_name host)

  abbrev dotted : List ℕ → SockAddr → Option ℕ → ℤ × SockAddr
  dotted host addr (some ip) = (pos 0, record addr { ip = ip })
  dotted host addr none =
      let addr1 : SockAddr = record addr { ip = inet_addr host } in
      if inet_addr host == inaddr_none then (minus_one, addr1) else (pos 0, addr1)

  -- `sock_toaddr`, with the address that it leaves in `addr`; `none` for a null host.
  unfoldable pub sock_toaddr : Option (List ℕ) → ℕ → SockAddr → ℤ × SockAddr
  sock_toaddr none port addr = (minus_one, addr)
  sock_toaddr (some host) port addr =
      let zero : SockAddr = record { family = 0; port = 0; ip = 0 } in
      dotted host zero (by_name host)
