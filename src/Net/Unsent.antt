-- ===== src/Net/Unsent.antt =====
-- The packets of a freed connection that still wait on the send queue.
use ttserver.Base.{
  ℕ, ◌≡◌, refl, arith, true, List, [], ◌∷◌, ◌++◌, Option, none, some, length, replicate, ◌∙◌, ap,
}
use ttserver.Host.{Ptr, Packet, map_find}
use ttserver.Net.{World, conn_at, put_conn}
use ttserver.Conn.{NetConnect}
use ttserver.Conn.Packets.{on_io_write}
use ttserver.Net.Manager.{proc_closed_conn}
use ttserver.Net.Io.{
  SendAnswer, sent, written_to, count_write, and_sent, Written, write_queue, do_io_write,
}
use ttserver.Net.Live.{IsLive}
use ttserver.Net.Closing.{all_closed, all_gone, proc_closed_conn-gone}
use ttserver.Net.Dangling.{conn_at-put_conn-none}

module _ {K : Type 0} where
  all_gone-conn_at :
      (i : ℕ) (p : Ptr) (closed : List (ℕ × Ptr)) (cs : List (Ptr × NetConnect K))
      → map_find i closed ≡ some p
      → all_gone closed cs ≡ true
      → conn_at p cs ≡ none
  unfolding all_gone map_find
  all_gone-conn_at i p [] cs f g = absurd (ground arith)
  all_gone-conn_at i p ((j, q) ∷ closed) cs f g = ground (arith, all_gone-conn_at i p closed cs)

  -- No packet that is sent brings an object back.
  write_one-dangling :
      (p : Ptr) (q : Packet) (w : World K) (o : Option Ptr) (rest : World K → Option (Written K))
      → conn_at p w.conns ≡ none
      → ((w1 : World K) → conn_at p w1.conns ≡ none → rest w1 ≡ none)
      → (elim (written_to w q o) [ none ↦ none | some w1 ↦ and_sent q (rest w1) ]) ≡ none
  unfolding written_to
  write_one-dangling p q w none rest d r = rw (r w d) refl
  write_one-dangling p q w (some i) rest d r =
      elim (conn_at i w.conns)
        as (λ o.
          (elim (count_write w q i o) [ none ↦ none | some w1 ↦ and_sent q (rest w1) ]) ≡ none) [
            | none ↦ refl
            | some c ↦
                let c1 = on_io_write c q in
                let w1 : World K = record w { conns = put_conn i c1 w.conns } in
                rw (r w1 (conn_at-put_conn-none p i c1 w.conns d)) refl
          ]

  -- The packet's own object is gone.
  write_last-dangling :
      (p : Ptr) (q : Packet) (w : World K) (o : Option Ptr) (rest : World K → Option (Written K))
      → o ≡ some p
      → conn_at p w.conns ≡ none
      → (elim (written_to w q o) [ none ↦ none | some w1 ↦ and_sent q (rest w1) ]) ≡ none
  unfolding written_to
  write_last-dangling p q w none rest e d = absurd (ground arith)
  write_last-dangling p q w (some i) rest e d = let same : i ≡ p = ground arith in rw (same, d) refl

  write_queue-dangling :
      (p : Ptr) (front : List Packet) (q : Packet) (rest : List Packet) (answers : List SendAnswer)
      (w : World K)
      → q.conn ≡ some p
      → conn_at p w.conns ≡ none
      → write_queue (replicate (length front) sent ++ (sent ∷ answers)) (front ++ (q ∷ rest)) w
        ≡ none
  unfolding write_queue
  write_queue-dangling p [] q rest answers w e d =
      write_last-dangling p q w q.conn (write_queue answers rest) e d
  write_queue-dangling p (f ∷ front) q rest answers w e d =
      write_one-dangling p f w f.conn
        (write_queue (replicate (length front) sent ++ (sent ∷ answers)) (front ++ (q ∷ rest))) d
        (λ w1. write_queue-dangling p front q rest answers w1 e)

  -- If, in a world as for ProcClosedConn, a connection is in the map of closed ones and one of
  -- its packets still waits on the send queue: ProcClosedConn returns, and a DoIOWrite after it,
  -- in which the socket takes the packets up to and with that one, reads the freed connection.
  pub proc_closed_conn-dangling :
      (w : World K) (i : ℕ) (p : Ptr) (front : List Packet) (q : Packet) (rest : List Packet)
      (answers : List SendAnswer)
      → all_closed w.host.map_closed w.host.map_conn w.conns ≡ true
      → IsLive w
      → map_find i w.host.map_closed ≡ some p
      → w.host.send_queue ≡ front ++ (q ∷ rest)
      → q.conn ≡ some p
      → (w1 : World K) × (proc_closed_conn w ≡ some w1)
        × (do_io_write (replicate (length front) sent ++ (sent ∷ answers)) w1 ≡ none)
  unfolding do_io_write
  proc_closed_conn-dangling w i p front q rest answers h l f queue e =
      let (w1, r, empty, gone, unsent, l1) = proc_closed_conn-gone w h l in
      let d = all_gone-conn_at i p w.host.map_closed w1.conns f gone in
      let answer = replicate (length front) sent ++ (sent ∷ answers) in
      (
        w1,
        r,
        ap (λ qs. write_queue answer qs w1) (unsent ∙ queue)
            ∙ write_queue-dangling p front q rest answers w1 e d,
      )
