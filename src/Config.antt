-- ===== src/Config.antt =====
-- The limits, timeouts and codes of src/net/NetCommDef.h.
use ttserver.Base.{ℕ, ◌+◌, ◌-◌, ◌*◌, ◌^◌}

abbrev pub max_packet_size : ℕ
max_packet_size = 576 - 20 - 8

abbrev pub max_net_recv_buf_len : ℕ
max_net_recv_buf_len = 1500

abbrev pub max_packet_data_size : ℕ
max_packet_data_size = max_packet_size - 1

abbrev pub max_biz_msg_size : ℕ
max_biz_msg_size = 2 ^ 20

-- `sizeof(STSendMsgHead)` more than the longest message.
abbrev pub max_net_queue_data_size : ℕ
max_net_queue_data_size = max_biz_msg_size + 10

abbrev pub max_encode_buf_size : ℕ
max_encode_buf_size = max_biz_msg_size + 1 + 256

abbrev pub max_reliable_msg_size : ℕ
max_reliable_msg_size = max_biz_msg_size + 256

abbrev pub max_unreliable_msg_size : ℕ
max_unreliable_msg_size = max_packet_data_size - 2

abbrev pub max_handshake_cookies_time : ℕ
max_handshake_cookies_time = 20

abbrev pub kcp_conf_max_waitsnd : ℕ
kcp_conf_max_waitsnd = 3000

abbrev pub heartbeat_timeout : ℕ
heartbeat_timeout = 30

abbrev pub reconnect_timeout : ℕ
reconnect_timeout = 240

abbrev pub time_wait_seconds : ℕ
time_wait_seconds = 2 * 3

abbrev pub fin_wait_seconds : ℕ
fin_wait_seconds = 3

abbrev pub bind_timeout : ℕ
bind_timeout = 60

abbrev pub conn_state_interval : ℕ
conn_state_interval = 10

abbrev pub max_conn_recv_num : ℕ
max_conn_recv_num = 5000

abbrev pub max_conn_recv_size : ℕ
max_conn_recv_size = 1024000

-- `EnmDisconnetReason`
abbrev pub disconnect_heartbeat : ℕ
disconnect_heartbeat = 1

abbrev pub disconnect_dead_link : ℕ
disconnect_dead_link = 5

-- `EnmCloseReason`
abbrev pub close_none : ℕ
close_none = 0

abbrev pub close_client_fin : ℕ
close_client_fin = 1

abbrev pub close_disconnet_timeout : ℕ
close_disconnet_timeout = 3

abbrev pub close_fin_timeout : ℕ
close_fin_timeout = 4

abbrev pub close_bind_timeout : ℕ
close_bind_timeout = 5

abbrev pub close_flow_control : ℕ
close_flow_control = 6

-- `EnmConnEventType`
abbrev pub event_connect : ℕ
event_connect = 1

abbrev pub event_disconnect : ℕ
event_disconnect = 2

abbrev pub event_reconnect : ℕ
event_reconnect = 3

abbrev pub event_close : ℕ
event_close = 4

abbrev pub event_bind : ℕ
event_bind = 5

abbrev pub event_network : ℕ
event_network = 6

-- `EnmMsgType`
abbrev pub msg_proto : ℕ
msg_proto = 1

abbrev pub msg_close : ℕ
msg_close = 2

abbrev pub msg_event : ℕ
msg_event = 3

abbrev pub msg_bind : ℕ
msg_bind = 4

-- `EnmConnRstType`
abbrev pub rst_disconnect : ℕ
rst_disconnect = 1

abbrev pub rst_close : ℕ
rst_close = 2

abbrev pub rst_unknown_peer : ℕ
rst_unknown_peer = 3
