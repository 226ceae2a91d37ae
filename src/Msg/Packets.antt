-- ===== src/Msg/Packets.antt =====
-- The packet structures of src/net/NetCommDef.h, packed to one byte, and their sizes.
use ttserver.Base.{ℕ, ◌+◌, ◌<◌, ◌^◌, ◌≡◌, List, length}

abbrev pub max_handshake_cookies_size : ℕ
max_handshake_cookies_size = 20

abbrev pub max_encrypt_data_len : ℕ
max_encrypt_data_len = 16

-- `STNetMsgHead`: two bit fields in one byte.
pub record Head : Type 0 where
  pub kind : ℕ
  pub is_reliable : ℕ

pub record HandShake : Type 0 where
  pub time_stamp : ℕ
  pub screte_key : ℕ
  pub conn_id : ℕ
  pub is_key : ℕ
  pub encrypt_data_len : ℕ
  pub ext_data : ℕ
  pub encrypt_data : List ℕ
  pub cookies : List ℕ

pub record HeartBeat : Type 0 where
  pub conn_id : ℕ
  pub client_time_ms : ℕ
  pub server_time_ms : ℕ

pub record Reconnect : Type 0 where
  pub conn_id : ℕ
  pub cookies : List ℕ

pub record Rst : Type 0 where
  pub conn_id : ℕ
  pub rst_type : ℕ

pub record Fin : Type 0 where
  pub conn_id : ℕ
  pub reason : ℕ

-- `STDataPacket`: the bytes behind the head, and how many the datagram has.
pub record DataPacket : Type 0 where
  pub buff : List ℕ
  pub data_len : ℕ

-- The union `UNetMsgBody`, by the member that was written.
pub data Body : Type 0 where
  handshake : HandShake → Body
  heartbeat : HeartBeat → Body
  reconnect : Reconnect → Body
  rst : Rst → Body
  fin : Fin → Body
  payload : DataPacket → Body

-- `DataHead`.
pub record DataHead : Type 0 where
  pub is_encrypt : ℕ

-- `sizeof` of the packed structures.
abbrev pub head_size : ℕ
head_size = 1

abbrev pub handshake_size : ℕ
handshake_size = 4 + 1 + 4 + 1 + 1 + 8 + max_encrypt_data_len + max_handshake_cookies_size

abbrev pub heartbeat_size : ℕ
heartbeat_size = 4 + 8 + 8

abbrev pub reconnect_size : ℕ
reconnect_size = 4 + max_handshake_cookies_size

abbrev pub rst_size : ℕ
rst_size = 4 + 1

abbrev pub fin_size : ℕ
fin_size = 4 + 1

abbrev pub data_head_size : ℕ
data_head_size = 1

-- The ranges that the C fields have.
pub record HeadRange (h : Head) : Type 0 where
  pub kind : h.kind < 128
  pub is_reliable : h.is_reliable < 2

pub record HandShakeRange (p : HandShake) : Type 0 where
  pub time_stamp : p.time_stamp < 2 ^ 32
  pub screte_key : p.screte_key < 256
  pub conn_id : p.conn_id < 2 ^ 32
  pub is_key : p.is_key < 256
  pub encrypt_data_len : p.encrypt_data_len < 256
  pub ext_data : p.ext_data < 2 ^ 64
  pub encrypt_data : length p.encrypt_data ≡ max_encrypt_data_len
  pub cookies : length p.cookies ≡ max_handshake_cookies_size

pub record HeartBeatRange (p : HeartBeat) : Type 0 where
  pub conn_id : p.conn_id < 2 ^ 32
  pub client_time_ms : p.client_time_ms < 2 ^ 64
  pub server_time_ms : p.server_time_ms < 2 ^ 64

pub record ReconnectRange (p : Reconnect) : Type 0 where
  pub conn_id : p.conn_id < 2 ^ 32
  pub cookies : length p.cookies ≡ max_handshake_cookies_size

pub record RstRange (p : Rst) : Type 0 where
  pub conn_id : p.conn_id < 2 ^ 32
  pub rst_type : p.rst_type < 256

pub record FinRange (p : Fin) : Type 0 where
  pub conn_id : p.conn_id < 2 ^ 32
  pub reason : p.reason < 256
