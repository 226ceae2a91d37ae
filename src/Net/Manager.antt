-- ===== src/Net/Manager.antt =====
-- `NetConnectMgr` of src/net/NetConnectMgr.cpp: the creation, the timers and the end of connections.
use ttserver.Base.{ℕ, ◌+◌, List, [], ◌∷◌, Option, none, some, leb, if◌then◌else◌}
use ttserver.Library.{Library, SockAddr}
use ttserver.Host.{Ptr, Host, Ret, succ, fail, sockaddr_to_id, map_erase}
use ttserver.Host.Events.{set_conn_addr}
use ttserver.Ids.{Ids, alloc_id, free_id}
use ttserver.Conn.{NetConnect, EncyptData}
use ttserver.Conn.Life
use ttserver.Conn.Setup.{new_connect, init_connect}
use ttserver.Conn.Receive
use ttserver.Net.{World, conn_at, put_conn, delete_conn}

module _ {K : Type 0} where
  abbrev pub freed : World K → Ptr → NetConnect K → World K
  freed w p c = record w {
    conns = delete_conn p w.conns;
    ids = free_id w.ids c.conn_id;
    host = record w.host { map_conn = map_erase (sockaddr_to_id c.client_addr) w.host.map_conn };
  }

  -- `FreeConn`: the id and the address are read before the object goes.
  unfoldable pub free_conn : World K → Ptr → Option (World K)
  free_conn w p = elim (conn_at p w.conns) [ none ↦ none | some c ↦ some (freed w p c) ]

  unfoldable pub free_all : List (ℕ × Ptr) → World K → Option (World K)
  free_all [] w = some w
  free_all ((i, p) ∷ m) w = elim (free_conn w p) [ none ↦ none | some w1 ↦ free_all m w1 ]

  abbrev clear_closed : Option (World K) → Option (World K)
  clear_closed none = none
  clear_closed (some w) = some (record w { host = record w.host { map_closed = [] } })

  -- `ProcClosedConn`.
  unfoldable pub proc_closed_conn : World K → Option (World K)
  proc_closed_conn w = clear_closed (free_all w.host.map_closed w)

module _ {K : Type 0} (lib : Library K) where
  -- What `new` and `InitConnect` leave. A connection that cannot start is deleted; its id stays in
  -- use.
  abbrev pub started : World K → Ids → Ret × NetConnect K → Option (Ptr × NetConnect K) × World K
  started w ids (fail, c) = (none, record w { ids = ids; next_conn = w.next_conn + 1 })
  started w ids (succ, c) = (
    some (w.next_conn, c),
    record w {
      ids = ids;
      conns = (w.next_conn, c) ∷ w.conns;
      next_conn = w.next_conn + 1;
      host = set_conn_addr w.host w.next_conn c.client_addr none;
    },
  )

  abbrev pub create_with :
      World K
      → SockAddr
      → List ℕ
      → EncyptData
      → Option ℕ × Ids
      → Option (Ptr × NetConnect K) × World K
  create_with w addr cookie encypt_data (none, ids) = (none, record w { ids = ids })
  create_with w addr cookie encypt_data (some i, ids) =
      let c = new_connect w.next_conn (w.memory w.next_conn) in
      started w ids (init_connect lib c w.host i addr cookie encypt_data)

  -- `CreateNewConn`, which every caller calls without an id.
  unfoldable pub create_new_conn :
      World K → SockAddr → List ℕ → EncyptData → Option (Ptr × NetConnect K) × World K
  create_new_conn w addr cookie encypt_data = create_with w addr cookie encypt_data (alloc_id w.ids)

  abbrev pub store : World K → Ptr → NetConnect K × Host → World K
  store w p (c, h) = record w { host = h; conns = put_conn p c w.conns }

  -- The loop of `Tick1S` over the values of the map, which the ticks do not change.
  unfoldable pub tick_all : List (ℕ × Ptr) → World K → Option (World K)
  tick_all [] w = some w
  tick_all ((k, p) ∷ m) w = elim (conn_at p w.conns) [
    | none ↦ none
    | some c ↦ tick_all m (store w p (Life.tick1s lib c w.host))
  ]

  -- `Tick1S`.
  unfoldable pub tick1s : World K → Option (World K)
  tick1s w = tick_all w.host.map_conn w

  unfoldable pub proc_all : ℕ → List (ℕ × Ptr) → World K → ℕ → Option (World K)
  proc_all fuel [] w now = some w
  proc_all fuel ((k, p) ∷ m) w now = elim (conn_at p w.conns) [
    | none ↦ none
    | some c ↦ elim (Receive.proc lib fuel c w.host now) [
      | none ↦ none
      | some after ↦ proc_all fuel m (store w p after) now
    ]
  ]

  abbrev then_closed : Option (World K) → Option (World K)
  then_closed none = none
  then_closed (some w) = proc_closed_conn w

  -- `Proc`, but for the number of messages, which is always 0.
  unfoldable pub proc : ℕ → World K → Option (World K)
  proc fuel w =
      if leb (w.last_update + 2) w.host.now_ms
      then then_closed
          (proc_all fuel w.host.map_conn (record w { last_update = w.host.now_ms }) w.host.now_ms)
      else some w
