-- ===== src/Mgr.antt =====
-- `NetMgr` of src/net/NetMgr.cpp: the main thread's calls, and what the network thread does with
-- the messages that come down.
pub mod Work
pub mod Delivery
pub mod Receipt
use ttserver.Base.{
  ℕ, ◌+◌, ◌*◌, ◌/◌, ◌%◌, ◌^◌, Bool, List, [], ◌∷◌, ◌++◌, Option, none, some, ltb, ◌==◌, ◌||◌,
  if◌then◌else◌, take, drop, length, memcpy,
}
use ttserver.Bytes.{encode8u, encode32u, decode8u, decode32u}
use ttserver.Config.{max_biz_msg_size, max_net_queue_data_size, msg_proto}
use ttserver.Ring.Defs.{RingQueue, push, pop}
use ttserver.Host.{Ret, fail, ret_of}
use ttserver.Host.Events.{recv_head_size}
use ttserver.Conn.Data.{MsgOpt}

-- `STSendMsgHead`; the two `int`s by their bit patterns.
pub record SendMsgHead : Type 0 where
  pub msg_type : ℕ
  pub conn_cnt : ℕ
  pub data_len : ℕ
  pub opt : MsgOpt

-- `sizeof(STSendMsgHead)`
abbrev pub send_head_size : ℕ
send_head_size = 1 + 4 + 4 + 1

-- The byte of `MsgOpt`, whose reserved bits are not read.
abbrev pub byte_of_opt : MsgOpt → ℕ
byte_of_opt o = o.is_reliable % 2 + 2 * (o.is_encrypt % 4)

abbrev pub opt_of_byte : ℕ → MsgOpt
opt_of_byte b = record { is_reliable = b % 2; is_encrypt = b / 2 % 4 }

unfoldable pub send_head_bytes : SendMsgHead → List ℕ
send_head_bytes h =
    encode8u h.msg_type
    ++ (encode32u h.conn_cnt ++ (encode32u h.data_len ++ encode8u (byte_of_opt h.opt)))

unfoldable pub conn_list_bytes : List ℕ → List ℕ
conn_list_bytes [] = []
conn_list_bytes (i ∷ ids) = encode32u i ++ conn_list_bytes ids

-- What stands at the start of `m_szMsgBuffer`: the head, the list of connections, the data.
abbrev pub merged : SendMsgHead → List ℕ → List ℕ → List ℕ
merged h ids bytes = send_head_bytes h ++ (conn_list_bytes ids ++ bytes)

-- The bytes that `Push` is told to take: the list of connections is not counted.
unfoldable pub m2n_message : MsgOpt → List ℕ → List ℕ → ℕ → List ℕ
m2n_message opt ids bytes len = take (len + send_head_size) (
    merged (record { msg_type = msg_proto; conn_cnt = length ids; data_len = len; opt = opt }) ids
      (take len bytes))

abbrev pub pushed_m2n : Option (Bool × RingQueue) → Option (Ret × RingQueue)
pushed_m2n none = none
pushed_m2n (some (done, q)) = some (ret_of done, q)

-- The bytes that are copied to `m_szMsgBuffer` for so many connections and so long a message.
abbrev merged_len : ℕ → ℕ → ℕ
merged_len conn_cnt len = send_head_size + 4 * conn_cnt + len

-- `BroadcastMsg`, for a length that is not negative. `none`: the copies leave `m_szMsgBuffer`, or the
-- ring's lock is held.
unfoldable pub broadcast_msg : RingQueue → List ℕ → ℕ → MsgOpt → List ℕ → Option (Ret × RingQueue)
broadcast_msg q bytes len opt ids =
    if ltb max_biz_msg_size len
    then some (fail, q)
    else if ltb max_net_queue_data_size (merged_len (length ids) len)
    then none
    else pushed_m2n (push q (m2n_message opt ids bytes len) (len + send_head_size))

-- `SendMsg`, which does the same for one connection.
unfoldable pub send_msg : RingQueue → List ℕ → ℕ → MsgOpt → ℕ → Option (Ret × RingQueue)
send_msg q bytes len opt conn_id =
    if ltb max_biz_msg_size len
    then some (fail, q)
    else if ltb max_net_queue_data_size (merged_len 1 len)
    then none
    else pushed_m2n (push q (m2n_message opt (conn_id ∷ []) bytes len) (len + send_head_size))

-- The result of `RecvMsg`: the data, or `none` for -1; the ring; the buffer.
abbrev pub Received : Type 0
Received = Option (List ℕ) × RingQueue × List ℕ

-- The length in the head at the start of the buffer.
abbrev pub recv_data_len : List ℕ → ℕ
recv_data_len buffer = (decode32u (drop 6 buffer)).0

-- `0 >= iDataLen || MAX_BIZ_MSG_SIZE < iDataLen`; a negative length is a large bit pattern.
abbrev pub is_bad_len : ℕ → Bool
is_bad_len len = len == 0 || ltb max_biz_msg_size len

abbrev pub recv_checked : ℕ → RingQueue → List ℕ → Received
recv_checked len q buffer =
    if ltb len recv_head_size
    then (none, q, buffer)
    else if is_bad_len (recv_data_len buffer)
    then (none, q, buffer)
    else (some (take (recv_data_len buffer) (drop recv_head_size buffer)), q, buffer)

abbrev pub received_n2m : List ℕ → Option (Option (List ℕ) × ℕ × RingQueue) → Option Received
received_n2m buffer none = none
received_n2m buffer (some (none, len, q)) = some (recv_checked len q buffer)
received_n2m buffer (some (some bytes, len, q)) = some (recv_checked len q (memcpy buffer 0 bytes))

-- `RecvMsg`, which reads the message out of `m_szMsgBuffer`.
unfoldable pub recv_msg : RingQueue → List ℕ → Option Received
recv_msg q buffer = received_n2m buffer (pop q)
