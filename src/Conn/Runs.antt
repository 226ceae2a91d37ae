-- ===== src/Conn/Runs.antt =====
-- Runs: sequences of calls on one connection, in any order.
use ttserver.Base.{ℕ, List, some, ◌≡◌, refl, arith, ◌≤◌, ap, ◌∙◌}
use ttserver.Library.{Library, SockAddr}
use ttserver.Msg.Decode.{Msg}
use ttserver.Host.{Host, Packet}
use ttserver.Host.Events.{BindConnMsg}
use ttserver.Conn.{NetConnect, ConnState, closed, fin_wait1, fin_wait2, time_wait}
use ttserver.Conn.Life.{
  close_connect, fin_connect, bind_connect, tick1s, tick_bind, tick_stat, tick_state, tick_in,
  after_call,
}
use ttserver.Conn.Setup.{reconnect}
use ttserver.Conn.Packets.{on_io_write}
use ttserver.Conn.Data.{MsgOpt, send_msg}
use ttserver.Conn.Receive.{proc}
use ttserver.Conn.Handle.{handle_net_msg}
use ttserver.Conn.States.{
  cut, back, leave, acked, answered, shut, Move, here, once, of_eq, closed_stays, stay,
  fin_connect-Move, close_connect-Move, tick1s-Move,
}
use ttserver.Conn.Lifecycle.{handle_net_msg-Move, send_msg-state, proc-Move, reconnect-Move}

-- How far the shutdown of a connection has come.
abbrev pub progress : ConnState → ℕ
progress fin_wait1 = 1
progress fin_wait2 = 2
progress time_wait = 3
progress closed = 4
progress _ = 0

progress_le : (s : ConnState) → progress s ≤ 4
progress_le s = ground arith

Move-progress : {s t : ConnState} → Move s t → progress s ≤ progress t
Move-progress here = omega arith
Move-progress (once cut) = omega arith
Move-progress (once back) = omega arith
Move-progress (once leave) = omega arith
Move-progress (once acked) = omega arith
Move-progress (once answered) = omega arith
Move-progress {s} (once (shut t)) = progress_le s

module _ {K : Type 0} where
  -- Two connections with the same record of their closing.
  abbrev pub IsSameEnd : NetConnect K → NetConnect K → Type 0
  IsSameEnd c d = (d.close_reason ≡ c.close_reason) × (d.close_time ≡ c.close_time)

module _ {K : Type 0} (lib : Library K) where
  -- A call of the network thread, of its timers or of the main thread's messages. `elsewhere`: the
  -- host changes by what other connections do.
  pub data Call (w : NetConnect K × Host) : NetConnect K × Host → Type 0 where
    tick : Call w (tick1s lib w.0 w.1)
    packet : (m : Msg) → Call w (after_call (handle_net_msg lib w.0 w.1 m))
    processed :
        (fuel now : ℕ) (v : NetConnect K × Host) → proc lib fuel w.0 w.1 now ≡ some v → Call w v
    message :
        (bytes : List ℕ) (len : ℕ) (opt : MsgOpt)
        → Call w (after_call (send_msg lib w.0 w.1 bytes len opt))
    bound : (m : BindConnMsg) → Call w (after_call (bind_connect w.0 w.1 m))
    left : (reason : ℕ) → Call w (after_call (fin_connect lib w.0 w.1 reason))
    ended : (reason : ℕ) → Call w (after_call (close_connect lib w.0 w.1 reason))
    moved_to : (addr : SockAddr) → Call w (after_call (reconnect lib w.0 w.1 addr))
    written : (p : Packet) → Call w (on_io_write w.0 p, w.1)
    elsewhere : (h : Host) → Call w (w.0, h)

  pub data Run (w : NetConnect K × Host) : NetConnect K × Host → Type 0 where
    start : Run w w
    later : {u v : NetConnect K × Host} → Run w u → Call u v → Run w v

  pub Call-Move : {w v : NetConnect K × Host} → Call w v → Move w.0.state v.0.state
  unfolding bind_connect on_io_write
  Call-Move {w} tick = tick1s-Move lib w.0 w.1
  Call-Move {w} (packet m) = handle_net_msg-Move lib w.0 w.1 m
  Call-Move {w} (processed fuel now v e) = proc-Move lib fuel w.0 w.1 now v e
  Call-Move {w} (message bytes len opt) = of_eq (send_msg-state lib w.0 w.1 bytes len opt)
  Call-Move {w} (bound m) = ground (arith, stay w.0.state)
  Call-Move {w} (left reason) = fin_connect-Move lib w.0 w.1 reason
  Call-Move {w} (ended reason) = close_connect-Move lib w.0 w.1 reason
  Call-Move {w} (moved_to addr) = reconnect-Move lib w.0 w.1 addr
  Call-Move {w} (written p) = ground (arith, stay w.0.state)
  Call-Move {w} (elsewhere h) = here

  -- Each call of a run changes the state along one edge of the state machine, or not at all.
  unfoldable pub AreMoves : {w v : NetConnect K × Host} → Run w v → Type 0
  AreMoves start = Unit
  AreMoves (later {u} {v} r s) = AreMoves r × Move u.0.state v.0.state

  -- In every run of calls on a connection, in any order and with any change of the host between
  -- them, each call leaves the state as it is or moves it along one edge of the state machine:
  -- established to disconnected and back, established to FIN_WAIT1, FIN_WAIT1 to FIN_WAIT2,
  -- FIN_WAIT2 to TIME_WAIT, and any state to closed.
  pub Run-AreMoves : {w v : NetConnect K × Host} (r : Run w v) → AreMoves r
  unfolding AreMoves
  Run-AreMoves start = tt
  Run-AreMoves (later r s) = (Run-AreMoves r, Call-Move s)

  -- No run of calls takes a connection back in its shutdown: the phase, from 0 before the
  -- shutdown over FIN_WAIT1, FIN_WAIT2 and TIME_WAIT to 4 for closed, never falls.
  pub Run-progress : {w v : NetConnect K × Host} → Run w v → progress w.0.state ≤ progress v.0.state
  Run-progress start = omega arith
  Run-progress (later r s) = omega (arith, Run-progress r, Move-progress (Call-Move s))

  tick_in_closed :
      (c : NetConnect K) (h : Host) → c.state ≡ closed → tick_in lib c.state c h ≡ (c, h)
  unfolding tick_in
  tick_in_closed c h e = ap (λ s. tick_in lib s c h) e

  tick_bind_closed :
      (c : NetConnect K) (h : Host) → c.state ≡ closed → tick_bind lib (c, h) ≡ (c, h)
  unfolding tick_bind
  tick_bind_closed c h e = ground arith

  tick_stat-IsSameEnd :
      (c : NetConnect K) (h : Host) → c.state ≡ closed → IsSameEnd c (tick_stat lib (c, h)).0
  unfolding tick_stat close_connect
  tick_stat-IsSameEnd c h e = ground arith

  tick1s-IsSameEnd :
      (c : NetConnect K) (h : Host) → c.state ≡ closed → IsSameEnd c (tick1s lib c h).0
  unfolding tick1s tick_state
  tick1s-IsSameEnd c h e =
      rw (tick_in_closed c h e, tick_bind_closed c h e) (tick_stat-IsSameEnd c h e)

  Call-IsSameEnd : {w v : NetConnect K × Host} → Call w v → w.0.state ≡ closed → IsSameEnd w.0 v.0
  unfolding bind_connect on_io_write close_connect fin_connect reconnect proc handle_net_msg
      send_msg
  Call-IsSameEnd {w} tick e = tick1s-IsSameEnd w.0 w.1 e
  Call-IsSameEnd {w} (packet m) e = ground arith
  Call-IsSameEnd {w} (processed fuel now v e) e' = ground arith
  Call-IsSameEnd {w} (message bytes len opt) e = ground arith
  Call-IsSameEnd {w} (bound m) e = ground arith
  Call-IsSameEnd {w} (left reason) e = ground arith
  Call-IsSameEnd {w} (ended reason) e = ground arith
  Call-IsSameEnd {w} (moved_to addr) e = ground arith
  Call-IsSameEnd {w} (written p) e = ground arith
  Call-IsSameEnd {w} (elsewhere h) e = (refl, refl)

  -- Every run of calls that starts at a closed connection leaves it closed, with the same reason
  -- and the same time of closing.
  pub Run-closed :
      {w v : NetConnect K × Host}
      → Run w v
      → w.0.state ≡ closed
      → (v.0.state ≡ closed) × IsSameEnd w.0 v.0
  Run-closed start e = (e, (refl, refl))
  Run-closed (later r s) e =
      let (e1, same) = Run-closed r e in
      let same1 = Call-IsSameEnd s e1 in
      (closed_stays (Call-Move s) e1, (same1.0 ∙ same.0, same1.1 ∙ same.1))
