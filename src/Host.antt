-- ===== src/Host.antt =====
-- What a connection finds around it, and the calls that it makes there: the network object's
-- send queue (`NetWork::NewPacket` and the `Send…` of src/net/NetWork.cpp), the queue of messages
-- to the main thread (`NetMgr::SendN2MMsg`, `NetMgr::NotifyConnEvent` of src/net/NetMgr.cpp), and
-- the manager's maps (src/net/NetConnectMgr.cpp). There is one network object, since
-- `UDP_ADDR_USE_ANY_ADDRESS` is 1.
pub mod Packets
pub mod Events
pub mod Maps
pub mod Kept
pub mod Inside
pub mod Sent
pub mod Deliver
use ttserver.Base.{
  ℕ, ◌+◌, ◌*◌, ◌%◌, ◌^◌, Bool, List, [], ◌∷◌, ◌++◌, Option, none, some, ◌==◌, ltb, if◌then◌else◌,
  replicate, take,
}
use ttserver.Library.{SockAddr}
use ttserver.Ring.Defs.{RingQueue}

-- The address of a `NetConnect` object, and of an `STNetPacket`.
abbrev pub Ptr : Type 0
Ptr = ℕ

-- `STNetPacket`; `conn` is `poConn`.
pub record Packet : Type 0 where
  pub id : Ptr
  pub client_addr : SockAddr
  pub connect_id : ℕ
  pub conn : Option Ptr
  pub data_len : ℕ
  pub buff_len : ℕ
  pub buff : List ℕ

-- Time comes from `Now`; `malloc n` says whether the allocation numbered `n` succeeds, and its
-- number stands for the address; `security_key` is the key of the `NetSecurityMgr` singleton.
-- `overrun` is up once a copy has left its buffer, from where on the code is not defined.
pub record Host : Type 0 where
  pub now : ℕ
  pub now_ms : ℕ
  pub malloc : ℕ → Bool
  pub next_packet : ℕ
  pub send_queue : List Packet
  pub n2m : RingQueue
  pub map_conn : List (ℕ × Ptr)
  pub map_closed : List (ℕ × Ptr)
  pub security_key : List ℕ
  pub overrun : Bool

-- `memcpy` of `n` bytes from or to a buffer of `size` bytes, for what it does to the rest of memory.
abbrev pub copy_into : Host → ℕ → ℕ → Host
copy_into h size n = record h { overrun = if ltb size n then Bool.true else h.overrun }

-- A function that returns 0 or -1.
pub data Ret : Type 0 where
  succ fail : Ret

abbrev pub ret_of : Bool → Ret
ret_of Bool.true = succ
ret_of Bool.false = fail

-- `sockaddr_to_id`.
unfoldable pub sockaddr_to_id : SockAddr → ℕ
sockaddr_to_id a = (a.port + a.ip * 2 ^ 16) % 2 ^ 64

-- `map[key] = value` and `map.erase(key)`; the order of an unordered map is not used.
unfoldable pub map_set : ℕ → Ptr → List (ℕ × Ptr) → List (ℕ × Ptr)
map_set k v [] = (k, v) ∷ []
map_set k v ((j, w) ∷ m) = if j == k then (k, v) ∷ m else (j, w) ∷ map_set k v m

unfoldable pub map_erase : ℕ → List (ℕ × Ptr) → List (ℕ × Ptr)
map_erase k [] = []
map_erase k ((j, w) ∷ m) = let rest = map_erase k m in if j == k then rest else (j, w) ∷ rest

unfoldable pub map_find : ℕ → List (ℕ × Ptr) → Option Ptr
map_find k [] = none
map_find k ((j, w) ∷ m) = if j == k then some w else map_find k m
