-- ===== src/Host/Deliver.antt =====
-- Messages to the main thread, as the ring between the threads holds them.
use ttserver.Base.{
  ℕ, ◌+◌, ◌^◌, ◌≤◌, ◌<◌, ◌≡◌, refl, sym, ap, ltb, ◌∙◌, arith, true, false, List, [], ◌∷◌, ◌++◌,
  some, length, take, length-take,
}
use ttserver.Bytes.{encode8u, encode32u, le_bytes}
use ttserver.Ring.Defs.{push}
use ttserver.Ring.Queue.{frames, Holds}
use ttserver.Ring.Steps.{push_room, push_full}
use ttserver.Host.{Host, succ, fail}
use ttserver.Host.Events.{RecvMsgHead, recv_head_size, recv_head_bytes, send_n2m_msg}

-- The message that the ring holds then: the head, and what is behind it.
abbrev pub n2m_message : RecvMsgHead → List ℕ → List ℕ
n2m_message head msg = recv_head_bytes head ++ take head.data_len msg

pub length-n2m_message :
    (head : RecvMsgHead) (msg : List ℕ)
    → head.data_len ≤ length msg
    → length (n2m_message head msg) ≡ head.data_len + recv_head_size
unfolding recv_head_bytes encode8u encode32u le_bytes
length-n2m_message head msg h = omega (arith, length-take head.data_len msg)

-- SendN2MMsg of a head and of at least as many bytes as the head says, MAX_BIZ_MSG_SIZE at most,
-- onto a ring that holds messages and has room for the frame, succeeds, the ring then holds the
-- same messages and, behind them, one of the head's bytes followed by the message's, and no copy
-- has left its buffer.
pub send_n2m_msg-Holds :
    (h : Host) (ms : List (List ℕ)) (head : RecvMsgHead) (msg : List ℕ)
    → Holds h.n2m ms
    → head.data_len ≤ length msg
    → head.data_len ≤ 2 ^ 20
    → length (frames ms) + (4 + (head.data_len + recv_head_size)) ≤ h.n2m.data_buf_size
    → ((send_n2m_msg h head msg).0 ≡ succ)
      × Holds (send_n2m_msg h head msg).1.n2m (ms ++ n2m_message head msg ∷ [])
      × ((send_n2m_msg h head msg).1.overrun ≡ h.overrun)
unfolding send_n2m_msg
send_n2m_msg-Holds h ms head msg held whole word room =
    let m = n2m_message head msg in
    let len = length-n2m_message head msg whole in
    let (r', done, held', size) =
      push_room h.n2m ms m held (omega (arith, len)) (omega (arith, len)) in
    let pushed : push h.n2m m (head.data_len + recv_head_size) ≡ some (true, r') =
      ap (push h.n2m m) (sym len) ∙ done in
    rw pushed (refl, held', ground arith)

-- SendN2MMsg of a head and of at least as many bytes as the head says, onto a ring that holds
-- messages and has no room for the frame, fails and leaves the host as it was.
send_n2m_msg-full :
    (h : Host) (ms : List (List ℕ)) (head : RecvMsgHead) (msg : List ℕ)
    → Holds h.n2m ms
    → head.data_len ≤ length msg
    → head.data_len ≤ 2 ^ 20
    → h.n2m.data_buf_size < length (frames ms) + (4 + (head.data_len + recv_head_size))
    → send_n2m_msg h head msg ≡ (fail, h)
unfolding send_n2m_msg
send_n2m_msg-full h ms head msg held whole fits full =
    let m = n2m_message head msg in
    let len = length-n2m_message head msg whole in
    let pushed : push h.n2m m (head.data_len + recv_head_size) ≡ some (false, h.n2m) =
      ap (push h.n2m m) (sym len) ∙ push_full h.n2m ms m held (omega (arith, len)) in
    let inside : ltb (2 ^ 20 + 10) (head.data_len + recv_head_size) ≡ false = ground arith in
    rw (pushed, inside) refl
