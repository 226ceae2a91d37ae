-- ===== src/Conn/States.antt =====
-- The changes of state that the methods of `NetConnect` make.
use ttserver.Base.{
  leb, ltb, ◌+◌, not, ◌&&◌, ◌||◌, ◌==◌, ℕ, Bool, true, false, if◌then◌else◌, ◌≡◌, refl, sym, subst,
  arith,
}
use ttserver.Config.{
  heartbeat_timeout, bind_timeout, max_conn_recv_num, max_conn_recv_size, conn_state_interval,
  disconnect_heartbeat, close_disconnet_timeout, close_fin_timeout, close_none, close_bind_timeout,
  close_flow_control,
}
use ttserver.Library.{Library}
use ttserver.Host.{Host}
use ttserver.Conn.{
  NetConnect, ConnState, Result, closed, established, disconnet, fin_wait1, fin_wait2, time_wait,
  is_closed, is_established, is_disconnect,
}
use ttserver.Conn.Life.{
  after_call, refreshed, dis_connect, close_connect, fin_connect, sync_network, tick_in, tick_state,
  tick_bind, tick_stat, tick1s,
}

-- One change of state.
pub data Edge : ConnState → ConnState → Type 0 where
  cut : Edge established disconnet
  back : Edge disconnet established
  leave : Edge established fin_wait1
  acked : Edge fin_wait1 fin_wait2
  answered : Edge fin_wait2 time_wait
  shut : (s : ConnState) → Edge s closed

-- At most one change of state.
pub data Move (s : ConnState) : ConnState → Type 0 where
  here : Move s s
  once : {t : ConnState} → Edge s t → Move s t

-- The state stays, or the connection is closed.
pub data Shutting (s : ConnState) : ConnState → Type 0 where
  kept : Shutting s s
  shuts : Shutting s closed

Move-Shutting : {s t u : ConnState} → Move s t → Shutting t u → Move s u
Move-Shutting m kept = m
Move-Shutting {s} m shuts = once (shut s)

pub of_eq : {s t : ConnState} → t ≡ s → Move s t
of_eq {s = s} e = subst (λ u. Move s u) (sym e) here

Move-to : {s t u : ConnState} → Move s t → u ≡ t → Move s u
Move-to {s = s} m e = subst (λ x. Move s x) (sym e) m

pub Move-from : {s t u : ConnState} → t ≡ s → Move t u → Move s u
Move-from {u = u} e m = subst (λ x. Move x u) e m

pub stay : (s : ConnState) → Move s s
stay s = here

-- A closed connection stays closed.
pub closed_stays : {s t : ConnState} → Move s t → s ≡ closed → t ≡ closed
closed_stays here h = h
closed_stays (once (shut s)) h = refl
closed_stays (once cut) h = absurd (ground arith)
closed_stays (once back) h = absurd (ground arith)
closed_stays (once leave) h = absurd (ground arith)
closed_stays (once acked) h = absurd (ground arith)
closed_stays (once answered) h = absurd (ground arith)

pub Shutting-stays : {s t : ConnState} → Shutting s t → s ≡ closed → t ≡ closed
Shutting-stays kept h = h
Shutting-stays shuts h = refl

-- One of two results of a call.
if-ends {ℓ ℓ'} :
    {A : Type ℓ} (P : A → Type ℓ') (b : Bool) {x y : A} → P x → P y → P (if b then x else y)
if-ends P true p q = p
if-ends P false p q = q

if-Move {ℓ} :
    {A : Type ℓ} {s : ConnState} (f : A → ConnState) (b : Bool) {x y : A}
    → (b ≡ true → Move s (f x))
    → (b ≡ false → Move s (f y))
    → Move s (f (if b then x else y))
if-Move f true p q = p refl
if-Move f false p q = q refl

if_established :
    (s : ConnState) {t : ConnState} → Edge established t → is_established s ≡ true → Move s t
if_established s {t} e h = ground (arith, once e)

pub if_disconnect :
    (s : ConnState) {t : ConnState} → Edge disconnet t → is_disconnect s ≡ true → Move s t
if_disconnect s {t} e h = ground (arith, once e)

module _ {K : Type 0} (lib : Library K) where
  pub dis_connect-Move :
      (c : NetConnect K) (h : Host) (reason : ℕ) → Move c.state (dis_connect c h reason).1.state
  unfolding dis_connect
  dis_connect-Move c h reason =
      if-Move (λ (r : Result K). r.1.state) (is_established c.state)
        (λ e. if_established c.state cut e) (λ e. here)

  pub close_connect-Move :
      (c : NetConnect K) (h : Host) (reason : ℕ)
      → Move c.state (close_connect lib c h reason).1.state
  unfolding close_connect
  close_connect-Move c h reason =
      if-Move (λ (r : Result K). r.1.state) (is_closed c.state) (λ e. here)
        (λ e. once (shut c.state))

  pub fin_connect-Move :
      (c : NetConnect K) (h : Host) (reason : ℕ) → Move c.state (fin_connect lib c h reason).1.state
  unfolding fin_connect
  fin_connect-Move c h reason =
      if-Move (λ (r : Result K). r.1.state) (is_disconnect c.state)
        (λ e. close_connect-Move c h reason)
        (λ e.
          if-Move (λ (r : Result K). r.1.state) (is_established c.state)
            (λ e. if_established c.state leave e) (λ e. here))

  abbrev target : NetConnect K × Host → ConnState
  target w = w.0.state

  -- A call that is made on a condition.
  call_if-Move :
      (c : NetConnect K) (h : Host) (b : Bool) (call : Result K)
      → Move c.state call.1.state
      → Move c.state (if b then after_call call else (c, h)).0.state
  call_if-Move c h b call r = if-Move target b (λ e. r) (λ e. here)

  sync_network-state : (w : NetConnect K × Host) → (sync_network lib w).0.state ≡ w.0.state
  sync_network-state (c, h) = ground arith

  tick_in-Move :
      (s : ConnState) (c : NetConnect K) (h : Host) → Move c.state (tick_in lib s c h).0.state
  unfolding tick_in
  tick_in-Move established c h =
      Move-to
        (call_if-Move c h (leb (c.last_heartbeat + heartbeat_timeout) h.now)
          (dis_connect c h disconnect_heartbeat) (dis_connect-Move c h disconnect_heartbeat))
        (sync_network-state (
          if leb (c.last_heartbeat + heartbeat_timeout) h.now
          then after_call (dis_connect c h disconnect_heartbeat)
          else (c, h)))
  tick_in-Move disconnet c h =
      ground (arith, close_connect-Move c h close_disconnet_timeout, stay c.state)
  tick_in-Move fin_wait1 c h =
      ground (arith, close_connect-Move c h close_fin_timeout, stay c.state)
  tick_in-Move fin_wait2 c h =
      ground (arith, close_connect-Move c h close_fin_timeout, stay c.state)
  tick_in-Move time_wait c h = ground (arith, close_connect-Move c h close_none, stay c.state)
  tick_in-Move _ c h = here

  close_connect-Shutting :
      (c : NetConnect K) (h : Host) (reason : ℕ)
      → Shutting c.state (close_connect lib c h reason).1.state
  unfolding close_connect
  close_connect-Shutting c h reason =
      if-ends (λ (r : Result K). Shutting c.state r.1.state) (is_closed c.state) kept shuts

  call_if-Shutting :
      (c : NetConnect K) (h : Host) (b : Bool) (reason : ℕ)
      → Shutting c.state (if b then after_call (close_connect lib c h reason) else (c, h)).0.state
  call_if-Shutting c h b reason =
      if-ends (λ w. Shutting c.state (target w)) b (close_connect-Shutting c h reason) kept

  pub tick_bind-Shutting :
      (c : NetConnect K) (h : Host) → Shutting c.state (tick_bind lib (c, h)).0.state
  unfolding tick_bind
  tick_bind-Shutting c h =
      call_if-Shutting c h
        (not (is_closed c.state) && c.bind_data == 0 && leb (c.create_time + bind_timeout) h.now)
        close_bind_timeout

  pub tick_stat-Shutting :
      (c : NetConnect K) (h : Host) → Shutting c.state (tick_stat lib (c, h)).0.state
  unfolding tick_stat
  tick_stat-Shutting c h =
      let suspicious =
        ltb max_conn_recv_num c.stat.recv_cnt || ltb max_conn_recv_size c.stat.recv_size in
      let rest =
        if suspicious then after_call (close_connect lib c h close_flow_control) else (c, h) in
      if-ends (λ w. Shutting c.state (target w))
        (leb (c.stat.refresh_time + conn_state_interval) h.now) {x = refreshed h.now rest}
        {y = (c, h)} (call_if-Shutting c h suspicious close_flow_control) kept

  pub tick1s-Move : (c : NetConnect K) (h : Host) → Move c.state (tick1s lib c h).0.state
  unfolding tick1s tick_state
  tick1s-Move c h =
      let (c1, h1) = tick_in lib c.state c h in
      let (c2, h2) = tick_bind lib (c1, h1) in
      Move-Shutting (Move-Shutting (tick_in-Move c.state c h) (tick_bind-Shutting c1 h1))
        (tick_stat-Shutting c2 h2)
