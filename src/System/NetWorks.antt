-- ===== src/System/NetWorks.antt =====
-- src/net/NetWorkMgr.cpp: how the socket is made and watched.
use ttserver.Base.{
  ℕ, ◌+◌, List, [], ◌∷◌, Option, none, some, ◌==◌, if◌then◌else◌, ℤ, pos, negsuc, minus_one,
  is_zero,
}
use ttserver.System.Calls.{socket, bind, close, Os, Io, ◌>>=◌, return, call}
use ttserver.System.Socket.{sock_reuse, sock_reuse_port, sock_rbuf, sock_wbuf, inaddr_none}
use ttserver.System.Poll.{poll_add}

-- `SOCKET_SND_BUF_SIZE` and `SOCKET_RCV_BUF_SIZE`.
abbrev pub socket_buf_size : ℕ
socket_buf_size = 31457280

abbrev pub udp_addr_port : ℕ
udp_addr_port = 10000

abbrev pub epollin : ℕ
epollin = 1

abbrev pub epollout : ℕ
epollout = 4

-- The port, and the keys of `m_mapNetWork`; the fields of the `NetWork` behind them are in `World`,
-- which has one.
pub record NetWorkMgr : Type 0 where
  pub port : ℕ
  pub map_network : List ℕ

module _ (os : Os) where
  -- An option that could not be set closes the socket.
  abbrev pub or_close : ℕ → Io ℤ → ℤ → Io ℤ
  or_close fd next r = if is_zero r then next else (do _ ← call os (close fd); return minus_one)

  unfoldable pub set_rbuf : ℕ → Io ℤ
  set_rbuf fd = do r ← sock_rbuf os fd socket_buf_size; or_close fd (return (pos fd)) r

  unfoldable pub set_wbuf : ℕ → Io ℤ
  set_wbuf fd = do r ← sock_wbuf os fd socket_buf_size; or_close fd (set_rbuf fd) r

  unfoldable pub bind_addr : ℕ → ℕ → ℕ → Io ℤ
  bind_addr fd ip port = do r ← call os (bind fd ip port); or_close fd (set_wbuf fd) r

  unfoldable pub set_reuse_port : ℕ → ℕ → ℕ → Io ℤ
  set_reuse_port fd ip port = do r ← sock_reuse_port os fd 1; or_close fd (bind_addr fd ip port) r

  unfoldable pub set_reuse : ℕ → ℕ → ℕ → Io ℤ
  set_reuse fd ip port = do r ← sock_reuse os fd 1; or_close fd (set_reuse_port fd ip port) r

  abbrev pub with_socket : ℕ → ℕ → ℤ → Io ℤ
  with_socket ip port (negsuc _) = return minus_one
  with_socket ip port (pos fd) = set_reuse fd ip port

  -- `CreateSocket`.
  unfoldable pub create_socket : ℕ → ℕ → Io ℤ
  create_socket ip port = do r ← call os socket; with_socket ip port r

  abbrev pub watched : NetWorkMgr → ℕ → ℤ → Io (Option ℕ × NetWorkMgr)
  watched m fd r =
      if is_zero r
      then return (some fd, record m { map_network = fd ∷ m.map_network })
      else (do _ ← call os (close fd); return (none, m))

  abbrev pub with_fd : NetWorkMgr → ℤ → Io (Option ℕ × NetWorkMgr)
  with_fd m (negsuc _) = return (none, m)
  with_fd m (pos fd) = do r ← poll_add os fd (epollin + epollout); watched m fd r

  -- `CreateNetWork` at an ip; the descriptor stands for the `NetWork`.
  unfoldable pub create_network : NetWorkMgr → ℕ → Io (Option ℕ × NetWorkMgr)
  create_network m ip =
      if ip == inaddr_none then return (none, m) else (do r ← create_socket ip m.port; with_fd m r)

  abbrev ret_of : Option ℕ × NetWorkMgr → ℤ × NetWorkMgr
  ret_of (none, m) = (minus_one, m)
  ret_of (some fd, m) = (pos 0, m)

  -- `Init` with `UDP_ADDR_USE_ANY_ADDRESS`; `none` stands for the port -1, and INADDR_ANY is 0.
  unfoldable pub init_networks : Option ℕ → Io (ℤ × NetWorkMgr)
  init_networks port = do
    let chosen : ℕ = elim port [ none ↦ udp_addr_port | some p ↦ p ]
    r ← create_network (record { port = chosen; map_network = [] }) 0
    return (ret_of r)
