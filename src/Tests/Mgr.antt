-- ===== src/Tests/Mgr.antt =====
-- The theorems on the messages between the threads.
use ttserver.Base.{ℕ, ◌≡◌, arith, List, [], ◌∷◌, some}
use ttserver.Ring.Defs.{RingQueue, new_ring}
use ttserver.Ring.Queue.{Holds}
use ttserver.Ring.Create.{new_ring-Holds}
use ttserver.Host.{succ}
use ttserver.Host.Events.{RecvMsgHead, send_n2m_msg}
use ttserver.Conn.Data.{MsgOpt}
use ttserver.Mgr.{broadcast_msg, recv_msg}
use ttserver.Mgr.Work.{proc_m2n_msg}
use ttserver.Mgr.Delivery.{proc_m2n_msg-broadcast_msg}
use ttserver.Mgr.Receipt.{recv_msg-send_n2m_msg}
use ttserver.Tests.Demo.{demo_library, demo_host, zero_mem}
use ttserver.Tests.Net.{demo_world}

abbrev three_bytes : RecvMsgHead
three_bytes = record { msg_type = 1; is_proc = 0; conn_id = 5; data_len = 3 }

recv_msg-send_n2m_msg_example :
    (q : RingQueue) × (buffer1 : List ℕ) × ((send_n2m_msg
        (demo_host 200)
        three_bytes
        (7 ∷ 8 ∷ 9 ∷ [])).0
      ≡ succ)
    × (recv_msg (send_n2m_msg (demo_host 200) three_bytes (7 ∷ 8 ∷ 9 ∷ [])).1.n2m []
        ≡ some (some (7 ∷ 8 ∷ 9 ∷ []), q, buffer1))
    × Holds q []
unfolding new_ring
recv_msg-send_n2m_msg_example =
    recv_msg-send_n2m_msg (demo_host 200) three_bytes (7 ∷ 8 ∷ 9 ∷ []) []
      (new_ring-Holds zero_mem 1024 (omega arith) (omega arith)).0 (omega arith) (omega arith)
      (omega arith) (omega arith)

abbrev reliable : MsgOpt
reliable = record { is_reliable = 1; is_encrypt = 0 }

proc_m2n_msg-broadcast_msg_example :
    (q1 : RingQueue) × (q2 : RingQueue) × (broadcast_msg
        (new_ring zero_mem 64)
        (7 ∷ 8 ∷ [])
        2
        reliable
        (5 ∷ [])
      ≡ some (succ, q1))
    × (proc_m2n_msg demo_library 2 0 q1 demo_world ≡ some (0, q2, demo_world))
    × Holds q2 []
unfolding new_ring
proc_m2n_msg-broadcast_msg_example =
    proc_m2n_msg-broadcast_msg demo_library demo_world (new_ring zero_mem 64) (7 ∷ 8 ∷ []) 2
      reliable (5 ∷ []) 0 (new_ring-Holds zero_mem 64 (omega arith) (omega arith)).0 (omega arith)
      (omega arith) (omega arith) (omega arith)
