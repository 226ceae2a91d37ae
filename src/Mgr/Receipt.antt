-- ===== src/Mgr/Receipt.antt =====
-- Messages to the main thread, as it receives them.
use ttserver.Base.{
  ℕ, ◌+◌, ◌^◌, ◌≤◌, ◌<◌, ◌≡◌, ap, ◌∙◌, arith, List, [], ◌++◌, some, length, take, drop, length-take,
  take-append, memcpy,
}
use ttserver.Bytes.{encode8u, encode32u, decode32u, le_bytes, le_word}
use ttserver.Ring.Defs.{RingQueue}
use ttserver.Ring.Queue.{Holds}
use ttserver.Ring.Steps.{pop_first}
use ttserver.Host.{Host, succ}
use ttserver.Host.Events.{RecvMsgHead, recv_head_bytes, recv_head_size, send_n2m_msg}
use ttserver.Host.Deliver.{n2m_message, length-n2m_message, send_n2m_msg-Holds}
use ttserver.Mgr.{recv_msg, recv_checked, received_n2m, recv_data_len}

-- The length and the data of a message that stands at the start of the buffer.
recv_data_len-eq :
    (head : RecvMsgHead) (msg rest : List ℕ)
    → head.data_len < 2 ^ 32
    → recv_data_len (n2m_message head msg ++ rest) ≡ head.data_len
unfolding recv_head_bytes encode8u encode32u decode32u le_bytes le_word
recv_data_len-eq head msg rest a = omega arith

recv_data-eq :
    (head : RecvMsgHead) (msg rest : List ℕ)
    → head.data_len ≤ length msg
    → take head.data_len (drop recv_head_size (n2m_message head msg ++ rest))
      ≡ take head.data_len msg
unfolding recv_head_bytes encode8u encode32u le_bytes
recv_data-eq head msg rest a =
    take-append (take head.data_len msg) rest head.data_len
      (omega (arith, length-take head.data_len msg))

recv_checked-n2m :
    (q : RingQueue) (head : RecvMsgHead) (msg rest : List ℕ)
    → 1 ≤ head.data_len
    → head.data_len ≤ 2 ^ 20
    → head.data_len ≤ length msg
    → recv_checked (length (n2m_message head msg)) q (n2m_message head msg ++ rest)
      ≡ (some (take head.data_len msg), q, n2m_message head msg ++ rest)
recv_checked-n2m q head msg rest a b c =
    let len = length-n2m_message head msg c in
    let size = recv_data_len-eq head msg rest (omega arith) in
    let data_eq = recv_data-eq head msg rest c in rw (len, size, data_eq) (ground arith)

-- On an empty ring with room for the frame, and for a head that says a length from 1 to
-- MAX_BIZ_MSG_SIZE and no more than there are bytes: SendN2MMsg succeeds, and RecvMsg then
-- returns 0 with exactly these bytes, whatever its buffer held, and leaves the ring empty.
pub recv_msg-send_n2m_msg :
    (h : Host) (head : RecvMsgHead) (msg buffer : List ℕ)
    → Holds h.n2m []
    → 1 ≤ head.data_len
    → head.data_len ≤ 2 ^ 20
    → head.data_len ≤ length msg
    → 4 + (head.data_len + recv_head_size) ≤ h.n2m.data_buf_size
    → (q : RingQueue) × (buffer1 : List ℕ) × ((send_n2m_msg h head msg).0 ≡ succ)
      × (recv_msg (send_n2m_msg h head msg).1.n2m buffer
          ≡ some (some (take head.data_len msg), q, buffer1))
      × Holds q []
unfolding recv_msg memcpy
recv_msg-send_n2m_msg h head msg buffer held a b c room =
    let (sent, h1, inside) = send_n2m_msg-Holds h [] head msg held c b (omega arith) in
    let m = n2m_message head msg in
    let (q, popped, h2, size) = pop_first (send_n2m_msg h head msg).1.n2m [] m h1 in
    (
      q,
      memcpy buffer 0 m,
      sent,
      ap (received_n2m buffer) popped
          ∙ ap some (recv_checked-n2m q head msg (drop (0 + length m) buffer) a b c),
      h2,
    )
