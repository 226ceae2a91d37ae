-- ===== src/Host/Inside.antt =====
-- Which calls copy within the buffers.
use ttserver.Base.{ℕ, ◌+◌, ◌≡◌, ◌≤◌, refl, arith, Bool, List, Option, none, some, ◌∙◌, ◌^◌}
use ttserver.Library.{SockAddr}
use ttserver.Ring.Defs.{RingQueue}
use ttserver.Msg.Packets.{Head, HandShake}
use ttserver.Host.{Host, Packet, copy_into}
use ttserver.Host.Packets.{new_packet, finish_packet, send_handshake_msg}
use ttserver.Host.Events.{
  notify_conn_event, send_n2m_msg, pushed_n2m, BindConnMsg, RecvMsgHead, recv_head_size,
}

pub copy_into-fits : (h : Host) (size n : ℕ) → n ≤ size → (copy_into h size n).overrun ≡ h.overrun
copy_into-fits h size n fits = ground arith

pushed_n2m-overrun :
    (h : Host) (o : Option (Bool × RingQueue)) → (pushed_n2m h o).1.overrun ≡ h.overrun
pushed_n2m-overrun h none = refl
pushed_n2m-overrun h (some (b, q)) = refl

send_n2m_msg-overrun :
    (h : Host) (r : RecvMsgHead) (m : List ℕ)
    → r.data_len ≤ 2 ^ 20
    → (send_n2m_msg h r m).1.overrun ≡ h.overrun
unfolding send_n2m_msg
send_n2m_msg-overrun h r m fits =
    pushed_n2m-overrun _ _ ∙ copy_into-fits h _ (r.data_len + recv_head_size) (omega arith)

pub notify_conn_event-overrun :
    (h : Host) (t i r d : ℕ) (a : Option SockAddr) (m : Option BindConnMsg)
    → (notify_conn_event h t i r d a m).1.overrun ≡ h.overrun
unfolding notify_conn_event
notify_conn_event-overrun h t i r d a m = send_n2m_msg-overrun h _ _ (omega arith)

new_packet-overrun : (h : Host) (n : ℕ) → (new_packet h n).1.overrun ≡ h.overrun
unfolding new_packet
new_packet-overrun h n = ground arith

finish_packet-overrun :
    (fill : Packet → Packet) (o : Option Packet) (h : Host)
    → (finish_packet fill (o, h)).1.overrun ≡ h.overrun
finish_packet-overrun fill none h = refl
finish_packet-overrun fill (some p) h = refl

pub send_handshake_msg-overrun :
    (h : Host) (head : Head) (b : HandShake) (client : SockAddr)
    → (send_handshake_msg h head b client).1.overrun ≡ h.overrun
unfolding send_handshake_msg
send_handshake_msg-overrun h head b client =
    finish_packet-overrun _ (new_packet h _).0 (new_packet h _).1 ∙ new_packet-overrun h _
