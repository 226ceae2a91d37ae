-- ===== src/Tests/Events.antt =====
-- The theorems on messages to the main thread, with an empty ring.
use ttserver.Base.{◌≡◌, arith, [], ◌∷◌}
use ttserver.Ring.Defs.{new_ring}
use ttserver.Ring.Queue.{Holds}
use ttserver.Ring.Create.{new_ring-Holds}
use ttserver.Host.{succ}
use ttserver.Host.Events.{RecvMsgHead, send_n2m_msg}
use ttserver.Host.Deliver.{n2m_message, send_n2m_msg-Holds}
use ttserver.Tests.Demo.{zero_mem, demo_host}

abbrev two_bytes : RecvMsgHead
two_bytes = record { msg_type = 1; is_proc = 0; conn_id = 5; data_len = 2 }

send_n2m_msg-Holds_example :
    ((send_n2m_msg (demo_host 200) two_bytes (8 ∷ 9 ∷ [])).0 ≡ succ)
    × Holds
        (send_n2m_msg (demo_host 200) two_bytes (8 ∷ 9 ∷ [])).1.n2m
        (n2m_message two_bytes (8 ∷ 9 ∷ []) ∷ [])
    × ((send_n2m_msg (demo_host 200) two_bytes (8 ∷ 9 ∷ [])).1.overrun ≡ (demo_host 200).overrun)
unfolding new_ring
send_n2m_msg-Holds_example =
    send_n2m_msg-Holds (demo_host 200) [] two_bytes (8 ∷ 9 ∷ [])
      (new_ring-Holds zero_mem 1024 (omega arith) (omega arith)).0 (omega arith) (omega arith)
      (omega arith)
