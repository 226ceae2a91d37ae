-- ===== src/Net/Sockets.antt =====
-- What `DoIOWrite` makes of the send queue.
use ttserver.Base.{
  ◌≡◌, ◌≤◌, refl, arith, Bool, true, false, List, [], ◌∷◌, ◌++◌, Option, none, some, ap, length,
  map, ◌∙◌, if◌then◌else◌,
}
use ttserver.Host.{Packet, Ptr}
use ttserver.Conn.{NetConnect}
use ttserver.Conn.Packets.{on_io_write}
use ttserver.Net.{World, put_conn}
use ttserver.Net.Live.{IsLive, has_conn, has_conn-conn_at, has_conn-put_conn, all_live-put_conn}
use ttserver.Net.Io.{
  SendAnswer, sent, again, failed, sent_datagram, Written, put_queue, count_write, written_to,
  and_sent, write_queue, do_io_write,
}

module _ {K : Type 0} where
  abbrev is_sendable : Option Ptr → List (Ptr × NetConnect K) → Bool
  is_sendable none cs = true
  is_sendable (some p) cs = has_conn p cs

  -- Every packet's connection is there.
  unfoldable pub all_sendable : List Packet → List (Ptr × NetConnect K) → Bool
  all_sendable [] cs = true
  all_sendable (q ∷ qs) cs = if is_sendable q.conn cs then all_sendable qs cs else false

  is_sendable-put_conn :
      (o : Option Ptr) (p : Ptr) (c : NetConnect K) (cs : List (Ptr × NetConnect K))
      → c.self ≡ p
      → is_sendable o cs ≡ true
      → is_sendable o (put_conn p c cs) ≡ true
  is_sendable-put_conn none p c cs s l = refl
  is_sendable-put_conn (some i) p c cs s l = has_conn-put_conn i p c cs s l

  all_sendable-put_conn :
      (qs : List Packet) (p : Ptr) (c : NetConnect K) (cs : List (Ptr × NetConnect K))
      → c.self ≡ p
      → all_sendable qs cs ≡ true
      → all_sendable qs (put_conn p c cs) ≡ true
  unfolding all_sendable
  all_sendable-put_conn [] p c cs s l = refl
  all_sendable-put_conn (q ∷ qs) p c cs s l =
      ground (arith, is_sendable-put_conn q.conn p c cs s, all_sendable-put_conn qs p c cs s)

  on_io_write-self : (c : NetConnect K) (p : Packet) → (on_io_write c p).self ≡ c.self
  unfolding on_io_write
  on_io_write-self c p = ground arith

  written_to-IsLive :
      (w : World K) (p : Packet) (qs : List Packet) (o : Option Ptr)
      → is_sendable o w.conns ≡ true
      → all_sendable qs w.conns ≡ true
      → IsLive w
      → (w1 : World K) × (written_to w p o ≡ some w1)
        × (all_sendable qs w1.conns ≡ true)
        × IsLive w1
  unfolding written_to
  written_to-IsLive w p qs none f s l = (w, refl, s, l)
  written_to-IsLive w p qs (some i) f s l =
      let (c, at, own) = has_conn-conn_at i w.conns f in
      let c1 = on_io_write c p in
      let own1 = on_io_write-self c p ∙ own in
      (
        record w { conns = put_conn i c1 w.conns },
        ap (count_write w p i) at,
        all_sendable-put_conn qs i c1 w.conns own1 s,
        all_live-put_conn w.host.map_conn i c1 w.conns own1 l,
      )

  -- A run of `DoIOWrite` that ends: packets left from the front of the queue, one at most was dropped
  -- behind them, and the rest stays.
  unfoldable IsWritten : List Packet → Option (Written K) → Type 0
  IsWritten qs o =
      (out : List Packet) × (dropped : List Packet) × (w1 : World K) × (o
        ≡ some (map sent_datagram out, w1))
      × (qs ≡ out ++ (dropped ++ w1.host.send_queue))
      × (length dropped ≤ 1)
      × IsLive w1

  write_queue-IsWritten :
      (answers : List SendAnswer) (qs : List Packet) (w : World K)
      → all_sendable qs w.conns ≡ true
      → IsLive w
      → IsWritten qs (write_queue answers qs w)
  unfolding write_queue IsWritten all_sendable
  write_queue-IsWritten answers [] w s l = ([], [], put_queue w [], refl, refl, omega arith, l)
  write_queue-IsWritten [] (p ∷ q) w s l = ([], [], put_queue w (p ∷ q), refl, refl, omega arith, l)
  write_queue-IsWritten (again ∷ answers) (p ∷ q) w s l =
      ([], [], put_queue w (p ∷ q), refl, refl, omega arith, l)
  write_queue-IsWritten (failed ∷ answers) (p ∷ q) w s l =
      ([], p ∷ [], put_queue w q, refl, refl, omega arith, l)
  write_queue-IsWritten (sent ∷ answers) (p ∷ q) w s l =
      let (w1, e, s1, l1) = written_to-IsLive w p q p.conn (ground arith) (ground arith) l in
      let (out, dropped, w2, e2, a, b, l2) = write_queue-IsWritten answers q w1 s1 l1 in
      (p ∷ out, dropped, w2, rw (e, write_queue) (ap (and_sent p) e2), ap (λ x. p ∷ x) a, b, l2)

  -- If the pointers of the map and of the packets on the send queue are live: DoIOWrite returns,
  -- whatever the socket answers; packets leave from the front of the queue, in order, each to its
  -- address with its buffer, one packet at most is dropped behind them, the others stay in order,
  -- and the pointers of the map are live.
  pub do_io_write-IsFifo :
      (answers : List SendAnswer) (w : World K)
      → all_sendable w.host.send_queue w.conns ≡ true
      → IsLive w
      → (out : List Packet) × (dropped : List Packet) × (w1 : World K) × (do_io_write answers w
          ≡ some (map sent_datagram out, w1))
        × (w.host.send_queue ≡ out ++ (dropped ++ w1.host.send_queue))
        × (length dropped ≤ 1)
        × IsLive w1
  unfolding do_io_write IsWritten
  do_io_write-IsFifo answers w s l = write_queue-IsWritten answers w.host.send_queue w s l
