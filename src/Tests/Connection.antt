-- ===== src/Tests/Connection.antt =====
-- The theorems on connections, at one connection.
use ttserver.Base.{ℕ, ◌≡◌, ◌≤◌, refl, arith, inr, [], ◌∷◌, none, some, take}
use ttserver.Msg.PacketType
use ttserver.Msg.Packets.{Head}
use ttserver.Host.{fail, sockaddr_to_id, map_find}
use ttserver.Kcp
use ttserver.Conn.{closed, established, disconnet, fin_wait1, fin_wait2, time_wait}
use ttserver.Conn.Life.{tick1s}
use ttserver.Conn.Setup.{reconnect}
use ttserver.Conn.Data.{send_msg}
use ttserver.Conn.Receive.{proc}
use ttserver.Conn.Runs.{
  start, later, tick, ended, AreMoves, progress, IsSameEnd, Run-AreMoves, Run-progress, Run-closed,
}
use ttserver.Conn.Deadlines.{tick1s-lost}
use ttserver.Conn.Shutdown.{fin_message, left, acknowledged, answered, shutdown-steps}
use ttserver.Conn.Address.{reconnect-map_conn}
use ttserver.Conn.Drain.{proc-empty, send_msg-plain}
use ttserver.Host.Packets.{send_fin_msg}
use ttserver.Host.Sent.{send_fin_msg-decode_msg}
use ttserver.Host.{Packet, succ}
use ttserver.Msg.Decode.{decode_msg}
use ttserver.Msg.Packets.{Body}
use ttserver.Security.{encrypt_data, decrypt_data}
use ttserver.Security.Padding.{decrypt_data-encrypt_data}
use ttserver.Tests.Demo.{demo_library, demo_library-IsCbc, addr_of, demo_host, demo_connect}

abbrev head_of : ℕ → Head
head_of k = record { kind = k; is_reliable = 0 }

Run-AreMoves_example :
    AreMoves demo_library {w = (demo_connect established, demo_host 200)}
      (later (later start tick) (ended 1))
Run-AreMoves_example =
    Run-AreMoves demo_library {w = (demo_connect established, demo_host 200)}
      (later (later start tick) (ended 1))

Run-progress_example :
    progress fin_wait1
    ≤ progress (tick1s demo_library (demo_connect fin_wait1) (demo_host 200)).0.state
Run-progress_example =
    Run-progress demo_library {w = (demo_connect fin_wait1, demo_host 200)} (later start tick)

Run-closed_example :
    ((tick1s demo_library (demo_connect closed) (demo_host 200)).0.state ≡ closed)
    × IsSameEnd (demo_connect closed) (tick1s demo_library (demo_connect closed) (demo_host 200)).0
Run-closed_example =
    Run-closed demo_library {w = (demo_connect closed, demo_host 200)} (later start tick) refl

tick1s-lost_example :
    (tick1s demo_library
      (tick1s demo_library (demo_connect established) (demo_host 9000)).0
      (demo_host 90000)).0.state
    ≡ closed
tick1s-lost_example =
    tick1s-lost demo_library (demo_connect established) (demo_host 9000) (demo_host 90000) refl
      (omega arith) (omega arith)

shutdown-steps_example :
    let c = demo_connect established in
    let m1 = fin_message (head_of PacketType.fin_ack) 5 0 6 in
    let m2 = fin_message (head_of PacketType.fin) 5 0 6 in
    let c3 = answered demo_library c (demo_host 101) 3 (demo_host 102) m1 (demo_host 103) m2 in
    ((left demo_library c (demo_host 101) 3).state ≡ fin_wait1)
    × ((acknowledged demo_library c (demo_host 101) 3 (demo_host 102) m1).state ≡ fin_wait2)
    × (c3.state ≡ time_wait)
    × (c3.close_reason ≡ 3)
    × ((tick1s demo_library c3 (demo_host 9000)).0.state ≡ closed)
shutdown-steps_example =
    shutdown-steps demo_library (demo_connect established) 3 (demo_host 101) (demo_host 102)
      (demo_host 103) (demo_host 9000) (head_of PacketType.fin_ack) (head_of PacketType.fin) 5 0 6 0
      6 refl refl refl (omega arith)

reconnect-map_conn_example :
    let c = demo_connect disconnet in
    let r = reconnect demo_library c (demo_host 200) (addr_of 81) in
    (r.1.state ≡ established)
    × (r.1.client_addr ≡ addr_of 81)
    × (map_find (sockaddr_to_id (addr_of 81)) r.2.map_conn ≡ some 1)
    × (map_find (sockaddr_to_id (addr_of 80)) r.2.map_conn
        ≡ map_find (sockaddr_to_id (addr_of 80)) (demo_host 200).map_conn)
unfolding Kcp.reconnect sockaddr_to_id
reconnect-map_conn_example =
    reconnect-map_conn demo_library (demo_connect disconnet) (demo_host 200) (addr_of 81) (inr refl)
      refl (ground arith)

proc-empty_example : proc demo_library 1000 (demo_connect established) (demo_host 200) 200 ≡ none
proc-empty_example =
    proc-empty demo_library 1000 (demo_connect established) (demo_host 200) 200 0 0 refl refl refl
      (omega arith) refl

send_msg-plain_example :
    send_msg demo_library
      (demo_connect established)
      (demo_host 200)
      (1 ∷ 2 ∷ [])
      2
      (record { is_reliable = 1; is_encrypt = 0 })
    ≡ (fail, demo_connect established, demo_host 200)
send_msg-plain_example =
    send_msg-plain demo_library (demo_connect established) (demo_host 200) (1 ∷ 2 ∷ []) 2
      (record { is_reliable = 1; is_encrypt = 0 }) refl

decrypt_data-encrypt_data_example :
    let (bytes, bytes_len) = encrypt_data demo_library [] (1 ∷ 2 ∷ 3 ∷ []) 3 in
    let (output, len) = decrypt_data demo_library [] bytes bytes_len in
    (len ≡ 3) × (take len output ≡ 1 ∷ 2 ∷ 3 ∷ [])
decrypt_data-encrypt_data_example =
    decrypt_data-encrypt_data demo_library demo_library-IsCbc [] (1 ∷ 2 ∷ 3 ∷ []) (omega arith)

send_fin_msg-decode_msg_example :
    ((send_fin_msg (demo_host 200) PacketType.fin_ack 5 3 (addr_of 80)).0 ≡ succ)
    × (p : Packet) × ((send_fin_msg
          (demo_host 200)
          PacketType.fin_ack
          5
          3
          (addr_of 80)).1.send_queue
        ≡ p ∷ [])
    × (p.client_addr ≡ addr_of 80)
    × (decode_msg p.buff p.data_len
        ≡ some (record {
          head = head_of PacketType.fin_ack;
          body = Body.fin (record { conn_id = 5; reason = 3 });
          net_size = 6;
        }))
send_fin_msg-decode_msg_example =
    send_fin_msg-decode_msg (demo_host 200) PacketType.fin_ack 5 3 (addr_of 80) refl tt (inr refl)
      (omega arith) (omega arith)
