-- ===== src/Host/Kept.antt =====
-- Sending and reporting leave the manager's map of connections as it is.
use ttserver.Base.{ℕ, ◌≡◌, refl, arith, Bool, List, Option, none, some, ◌∙◌, if◌then◌else◌}
use ttserver.Library.{SockAddr}
use ttserver.Ring.Defs.{RingQueue}
use ttserver.Msg.Packets.{Head, HandShake}
use ttserver.Host.{Ptr, Host, Packet, Ret}
use ttserver.Host.Packets.{
  new_packet, finish_packet, send_handshake_msg, send_rst_msg, send_fin_msg, send_reconnect_ack,
}
use ttserver.Host.Events.{notify_conn_event, send_n2m_msg, pushed_n2m, BindConnMsg, RecvMsgHead}

pushed_n2m-map_conn :
    (h : Host) (o : Option (Bool × RingQueue)) → (pushed_n2m h o).1.map_conn ≡ h.map_conn
pushed_n2m-map_conn h none = refl
pushed_n2m-map_conn h (some (b, q)) = refl

pub send_n2m_msg-map_conn :
    (h : Host) (r : RecvMsgHead) (m : List ℕ) → (send_n2m_msg h r m).1.map_conn ≡ h.map_conn
unfolding send_n2m_msg
send_n2m_msg-map_conn h r m = pushed_n2m-map_conn _ _

pub notify_conn_event-map_conn :
    (h : Host) (t i r d : ℕ) (a : Option SockAddr) (m : Option BindConnMsg)
    → (notify_conn_event h t i r d a m).1.map_conn ≡ h.map_conn
unfolding notify_conn_event
notify_conn_event-map_conn h t i r d a m = send_n2m_msg-map_conn h _ _

pub new_packet-map_conn : (h : Host) (n : ℕ) → (new_packet h n).1.map_conn ≡ h.map_conn
unfolding new_packet
new_packet-map_conn h n = ground arith

finish_packet-map_conn :
    (fill : Packet → Packet) (o : Option Packet) (h : Host)
    → (finish_packet fill (o, h)).1.map_conn ≡ h.map_conn
finish_packet-map_conn fill none h = refl
finish_packet-map_conn fill (some p) h = refl

-- A packet that is made and filled.
pub sent-map_conn :
    (fill : Packet → Packet) (h : Host) (n : ℕ)
    → (finish_packet fill (new_packet h n)).1.map_conn ≡ h.map_conn
sent-map_conn fill h n =
    finish_packet-map_conn fill (new_packet h n).0 (new_packet h n).1 ∙ new_packet-map_conn h n

pub send_handshake_msg-map_conn :
    (h : Host) (head : Head) (b : HandShake) (client : SockAddr)
    → (send_handshake_msg h head b client).1.map_conn ≡ h.map_conn
unfolding send_handshake_msg
send_handshake_msg-map_conn h head b client = sent-map_conn _ h _

pub send_rst_msg-map_conn :
    (h : Host) (t i : ℕ) (client : SockAddr) → (send_rst_msg h t i client).1.map_conn ≡ h.map_conn
unfolding send_rst_msg
send_rst_msg-map_conn h t i client = sent-map_conn _ h _

-- Each branch of a test keeps the map.
pub if_map_conn :
    (b : Bool) (x y : Ret × Host) (m : List (ℕ × Ptr))
    → x.1.map_conn ≡ m
    → y.1.map_conn ≡ m
    → (if b then x else y).1.map_conn ≡ m
if_map_conn b x y m e f = ground arith

pub send_fin_msg-map_conn :
    (h : Host) (k i r : ℕ) (client : SockAddr)
    → (send_fin_msg h k i r client).1.map_conn ≡ h.map_conn
unfolding send_fin_msg
send_fin_msg-map_conn h k i r client = if_map_conn _ _ _ _ (sent-map_conn _ h _) refl

pub send_reconnect_ack-map_conn :
    (h : Host) (client : SockAddr) (o : Option (ℕ × List ℕ))
    → (send_reconnect_ack h client o).1.map_conn ≡ h.map_conn
unfolding send_reconnect_ack
send_reconnect_ack-map_conn h client o = sent-map_conn _ h _
