-- ===== src/Conn.antt =====
-- `NetConnect` of src/net/NetConnect.h and src/net/NetConnect.cpp: one client's connection. A
-- method takes the connection and its host, and returns what it returns with both after it.
pub mod Life
pub mod Setup
pub mod Packets
pub mod Data
pub mod Receive
pub mod Rounds
pub mod Handle
pub mod States
pub mod Lifecycle
pub mod Runs
pub mod Deadlines
pub mod Hosts
pub mod Address
pub mod Shutdown
pub mod Traffic
pub mod Drain
use ttserver.Base.{ℕ, Bool, true, false, List, Option}
use ttserver.Host.{Ptr, Host, Ret}
use ttserver.Kcp.{Kcp}
use ttserver.Library.{SockAddr}

-- `EnmNetConnState`.
pub data ConnState : Type 0 where
  closed established disconnet reconneting fin_wait1 fin_wait2 time_wait close_wait last_ack :
      ConnState
  handshake1 handshake2 : ConnState

abbrev pub is_established : ConnState → Bool
is_established established = true
is_established _ = false

abbrev pub is_disconnect : ConnState → Bool
is_disconnect disconnet = true
is_disconnect _ = false

abbrev pub is_closed : ConnState → Bool
is_closed closed = true
is_closed _ = false

abbrev pub is_fin_wait1 : ConnState → Bool
is_fin_wait1 fin_wait1 = true
is_fin_wait1 _ = false

abbrev pub is_fin_wait2 : ConnState → Bool
is_fin_wait2 fin_wait2 = true
is_fin_wait2 _ = false

abbrev pub is_time_wait : ConnState → Bool
is_time_wait time_wait = true
is_time_wait _ = false

-- `STConnStatData`; the counters are `uint32_t`.
pub record StatData : Type 0 where
  pub refresh_time : ℕ
  pub max_wait_send : ℕ
  pub recv_cnt : ℕ
  pub recv_size : ℕ
  pub send_cnt : ℕ
  pub send_size : ℕ

-- `STEncyptData`.
pub record EncyptData : Type 0 where
  pub is_dh_key : Bool
  pub key_len : ℕ
  pub key : List ℕ
  pub num_a_len : ℕ
  pub num_a : List ℕ
  pub num_b_len : ℕ
  pub num_b : List ℕ

-- The fields that some method reads or writes, but for the ones that are never read again
-- (`m_ullNetWorkID`, `m_oSecurityMgr`, `m_ulCurMergeOffset`, the buffer for reliable packets). `self` is `this`,
-- `merge_packet` is `m_poMergePacket`, a pointer into the send queue.
pub record NetConnect (K : Type 0) : Type 0 where
  pub self : Ptr
  pub conn_id : ℕ
  pub state : ConnState
  pub client_addr : SockAddr
  pub create_time : ℕ
  pub bind_data : ℕ
  pub stat : StatData
  pub kcp : Kcp K
  pub merge_packet : Option Ptr
  pub encypt_data : EncyptData
  pub cookies : List ℕ
  pub last_heartbeat : ℕ
  pub disconnect_time : ℕ
  pub fin_begin : ℕ
  pub send_fin_time : ℕ
  pub time_wait_time : ℕ
  pub close_time : ℕ
  pub network_syn : ℕ
  pub close_reason : ℕ

-- What a method leaves: its result, the connection, the host.
abbrev pub Result : Type 0 → Type 0
Result K = Ret × NetConnect K × Host
