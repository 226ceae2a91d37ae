-- ===== src/Host/Events.antt =====
-- Messages to the main thread (src/net/NetMgr.cpp), and the manager's maps
-- (src/net/NetConnectMgr.cpp).
use ttserver.Base.{
  ℕ, ◌+◌, Bool, List, ◌++◌, Option, none, some, replicate, take, ◌==◌, if◌then◌else◌,
}
use ttserver.Bytes.{encode8u, encode16u, encode32u, encode64u}
use ttserver.Config.{max_net_queue_data_size, msg_event, event_bind}
use ttserver.Library.{SockAddr}
use ttserver.Ring.Defs.{RingQueue, push}
use ttserver.Host.{Ptr, Host, Ret, fail, copy_into, ret_of, sockaddr_to_id, map_set, map_erase}

-- `STRecvMsgHead`; `data_len` is the bit pattern of the `int`.
pub record RecvMsgHead : Type 0 where
  pub msg_type : ℕ
  pub is_proc : ℕ
  pub conn_id : ℕ
  pub data_len : ℕ

-- `STBindConnMsg`, with the bit pattern of the sequence number.
pub record BindConnMsg : Type 0 where
  pub bind_seq : ℕ
  pub bind_data : ℕ

-- The union of `STConnEventMsg`.
pub data EventData : Type 0 where
  plain : ℕ → EventData
  bind : BindConnMsg → EventData

pub record ConnEvent : Type 0 where
  pub event_type : ℕ
  pub reason : ℕ
  pub client_addr : Option SockAddr
  pub payload : EventData

-- `sizeof(STRecvMsgHead)` and `sizeof(STConnEventMsg)`.
abbrev pub recv_head_size : ℕ
recv_head_size = 1 + 1 + 4 + 4

abbrev pub event_size : ℕ
event_size = 1 + 1 + 16 + 16

unfoldable pub recv_head_bytes : RecvMsgHead → List ℕ
recv_head_bytes r =
    encode8u r.msg_type ++ (encode8u r.is_proc ++ (encode32u r.conn_id ++ encode32u r.data_len))

-- `sockaddr_in`, whose last eight bytes are zero.
unfoldable pub addr_bytes : Option SockAddr → List ℕ
addr_bytes none = replicate 16 0
addr_bytes (some a) = encode16u a.family ++ (encode16u a.port ++ (encode32u a.ip ++ replicate 8 0))

unfoldable pub event_data_bytes : EventData → List ℕ
event_data_bytes (plain d) = encode64u d ++ replicate 8 0
event_data_bytes (bind m) = encode64u m.bind_seq ++ encode64u m.bind_data

unfoldable pub event_bytes : ConnEvent → List ℕ
event_bytes e =
    encode8u e.event_type
    ++ (encode8u e.reason ++ (addr_bytes e.client_addr ++ event_data_bytes e.payload))

-- The push of the network thread, which is the only producer of this queue: its lock is free.
abbrev pub pushed_n2m : Host → Option (Bool × RingQueue) → Ret × Host
pushed_n2m h none = (fail, h)
pushed_n2m h (some (done, q)) = (ret_of done, record h { n2m = q })

-- The head and the message go to `m_szMsgBuffer` first.
unfoldable pub send_n2m_msg : Host → RecvMsgHead → List ℕ → Ret × Host
send_n2m_msg h head msg =
    pushed_n2m (copy_into h max_net_queue_data_size (head.data_len + recv_head_size))
      (push h.n2m (recv_head_bytes head ++ take head.data_len msg) (head.data_len + recv_head_size))

-- `bind_msg` is used by a bind event only.
abbrev pub event_payload : ℕ → ℕ → Option BindConnMsg → EventData
event_payload event_type ull_data none = plain ull_data
event_payload event_type ull_data (some m) =
    if event_type == event_bind then bind m else plain ull_data

unfoldable pub notify_conn_event :
    Host → ℕ → ℕ → ℕ → ℕ → Option SockAddr → Option BindConnMsg → Ret × Host
notify_conn_event h event_type conn_id reason ull_data addr bind_msg =
    send_n2m_msg h
      (record { msg_type = msg_event; is_proc = 0; conn_id = conn_id; data_len = event_size })
      (event_bytes (record {
        event_type = event_type;
        reason = reason;
        client_addr = addr;
        payload = event_payload event_type ull_data bind_msg;
      }))

unfoldable pub move_to_closed_map : Host → ℕ → Ptr → Host
move_to_closed_map h conn_id conn = record h { map_closed = map_set conn_id conn h.map_closed }

abbrev pub erase_old : Option SockAddr → List (ℕ × Ptr) → List (ℕ × Ptr)
erase_old none m = m
erase_old (some a) m = map_erase (sockaddr_to_id a) m

-- `SetConnAddr`: the connection's present address, and the old one, whose entry goes first.
unfoldable pub set_conn_addr : Host → Ptr → SockAddr → Option SockAddr → Host
set_conn_addr h conn addr old = record h {
  map_conn = map_set (sockaddr_to_id addr) conn (erase_old old h.map_conn);
}
