-- ===== src/Net.antt =====
-- The network thread's world: the host, the connection objects in memory, `NetConnectMgr`'s ids,
-- `CookieMgr`, and the fields that `NetWork` has as a client. A result `none` stands for a run that
-- reads memory that was freed, or that never returns.
pub mod Manager
pub mod Handshake
pub mod Serve
pub mod Client
pub mod Io
pub mod Live
pub mod Stays
pub mod Replies
pub mod Sound
pub mod Reads
pub mod Ends
pub mod Closing
pub mod Dangling
pub mod Admission
pub mod Resume
pub mod Welcome
pub mod Sockets
pub mod Unsent
use ttserver.Base.{ℕ, List, [], ◌∷◌, Option, none, some, ◌==◌, if◌then◌else◌}
use ttserver.Library.{SockAddr}
use ttserver.Kcp.{Kcp}
use ttserver.Cookie.{CookieMgr}
use ttserver.Ids.{Ids}
use ttserver.Host.{Ptr, Host, Ret, sockaddr_to_id, map_find}
use ttserver.Conn.{NetConnect, EncyptData, Result}

-- `memory p` is what the wrapper of KCP holds in a new object at `p`; `draws` counts the random
-- numbers; `conn_id` and `encypt_data` are `NetWork`'s; `last_update` is `m_tLastUpdate`.
pub record World (K : Type 0) : Type 0 where
  pub host : Host
  pub ids : Ids
  pub conns : List (Ptr × NetConnect K)
  pub next_conn : Ptr
  pub memory : Ptr → Kcp K
  pub cookie_mgr : CookieMgr
  pub draws : ℕ
  pub conn_id : ℕ
  pub encypt_data : EncyptData
  pub last_update : ℕ

module _ {K : Type 0} where
  -- `*p`; `none`: there is no object at `p` any more.
  unfoldable pub conn_at : Ptr → List (Ptr × NetConnect K) → Option (NetConnect K)
  conn_at p [] = none
  conn_at p ((q, c) ∷ cs) = if q == p then some c else conn_at p cs

  unfoldable pub put_conn :
      Ptr → NetConnect K → List (Ptr × NetConnect K) → List (Ptr × NetConnect K)
  put_conn p c [] = []
  put_conn p c ((q, d) ∷ cs) = if q == p then (q, c) ∷ cs else (q, d) ∷ put_conn p c cs

  -- `delete`
  unfoldable pub delete_conn : Ptr → List (Ptr × NetConnect K) → List (Ptr × NetConnect K)
  delete_conn p [] = []
  delete_conn p ((q, c) ∷ cs) =
      let rest = delete_conn p cs in if q == p then rest else (q, c) ∷ rest

  abbrev pub kept : World K → Ptr → Result K → Ret × World K
  kept w p (r, c, h) = (r, record w { host = h; conns = put_conn p c w.conns })

  -- A method called through a pointer.
  unfoldable pub with_conn :
      World K → Ptr → (NetConnect K → Host → Result K) → Option (Ret × World K)
  with_conn w p method = elim (conn_at p w.conns) [
    | none ↦ none
    | some c ↦ some (kept w p (method c w.host))
  ]

  -- `GetConnByAddr`.
  unfoldable pub get_conn_by_addr : World K → SockAddr → Option Ptr
  get_conn_by_addr w addr = map_find (sockaddr_to_id addr) w.host.map_conn

  -- The loop of `GetConnByID`, which reads each connection that it passes.
  unfoldable pub scan_id : List (Ptr × NetConnect K) → ℕ → List (ℕ × Ptr) → Option (Option Ptr)
  scan_id cs i [] = some none
  scan_id cs i ((k, p) ∷ m) =
      let rest = scan_id cs i m in
      elim (conn_at p cs) [ none ↦ none | some c ↦ if c.conn_id == i then some (some p) else rest ]

  -- `GetConnByID`.
  unfoldable pub get_conn_by_id : World K → ℕ → Option (Option Ptr)
  get_conn_by_id w i = scan_id w.conns i w.host.map_conn

  abbrev pub on_host : World K → Ret × Host → Ret × World K
  on_host w (r, h) = (r, record w { host = h })
