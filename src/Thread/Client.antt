-- ===== src/Thread/Client.antt =====
-- src/net/BaseClien.cpp: the loops of `BaseClient::Connect`, which repeats the handshake until the
-- network thread has a connection, and then sends heartbeats.
use ttserver.Base.{
  ℕ, zero, suc, ◌+◌, ◌≤◌, ◌<◌, ◌≡◌, refl, Bool, true, false, List, [], ◌∷◌, ◌++◌, append-nil, subst,
  Option, none, some, ltb, if◌then◌else◌, arith, Bool-cases, inl, inr,
}
use ttserver.Thread.{Env, Clock, now_update}

-- The clock of the client's thread; `state` counts how often `ClientConnected` was asked.
abbrev pub Asked : Type 0
Asked = Env ℕ

abbrev pub asked : Asked → Asked
asked e = record e { state = suc e.state }

-- What a loop sent, by the second in which it did, and where it ended, if it did.
abbrev pub Sent : Type 0
Sent = List ℕ × Option Asked

abbrev pub sent_before : List ℕ → Sent → Sent
sent_before secs (more, e) = (secs ++ more, e)

-- Whether more than `wait` seconds have passed since `last`; the time that is then the last one.
abbrev pub is_due : ℕ → ℕ → Asked → Bool
is_due wait last e = ltb (last + wait) e.now.sec

abbrev pub sent_if : Bool → Asked → List ℕ
sent_if b e = if b then e.now.sec ∷ [] else []

abbrev pub last_if : Bool → ℕ → Asked → ℕ
last_if b last e = if b then e.now.sec else last

module _ (clock : Clock) (connected : ℕ → Bool) where
  -- The first loop; `connected n` is the answer `n` of `ClientConnected`.
  unfoldable pub connect_loop : ℕ → ℕ → Asked → Sent
  connect_loop zero last e = ([], none)
  connect_loop (suc fuel) last e =
      let e1 : Asked = now_update clock (asked e) in
      let due = is_due 5 last e1 in
      let rest = connect_loop fuel (last_if due last e1) (asked e1) in
      if connected e.state
      then ([], some (asked e))
      else if connected e1.state
      then (sent_if due e1, some (asked e1))
      else sent_before (sent_if due e1) rest

  -- `Connect` up to the first connection: the first handshake is sent at the time that `Now` has, and
  -- the time is read before the loop.
  unfoldable pub connect : ℕ → Asked → Sent
  connect fuel e =
      let e1 : Asked = now_update clock e in
      sent_before (e.now.sec ∷ []) (connect_loop fuel e1.now.sec e1)

-- The second loop for a number of rounds: the seconds in which heartbeats are sent.
unfoldable pub heartbeat_loop : Clock → ℕ → ℕ → Asked → List ℕ
heartbeat_loop clock zero last e = []
heartbeat_loop clock (suc n) last e =
    let e1 : Asked = now_update clock e in
    let due = is_due 1 last e1 in
    let rest = heartbeat_loop clock n (last_if due last e1) e1 in sent_if due e1 ++ rest

-- Each time is more than `wait` seconds after the one before, the first one after `last`.
unfoldable pub IsApart : ℕ → ℕ → List ℕ → Type 0
IsApart wait last [] = Unit
IsApart wait last (at ∷ ats) = (last + wait < at) × IsApart wait at ats

-- The loop ended.
abbrev pub is_over : Sent → Bool
is_over (_, none) = false
is_over (_, some _) = true

sent_if-IsApart :
    (wait last : ℕ) (e : Asked) (b : Bool) (rest : List ℕ)
    → is_due wait last e ≡ b
    → IsApart wait (last_if b last e) rest
    → IsApart wait last (sent_if b e ++ rest)
unfolding IsApart
sent_if-IsApart wait last e true rest due h = (ground arith, h)
sent_if-IsApart wait last e false rest due h = h

module _ (clock : Clock) (connected : ℕ → Bool) where
  connect_loop-IsApart :
      (fuel last : ℕ) (e : Asked) → IsApart 5 last (connect_loop clock connected fuel last e).0
  unfolding connect_loop IsApart
  connect_loop-IsApart zero last e = tt
  connect_loop-IsApart (suc fuel) last e =
      let e1 : Asked = now_update clock (asked e) in
      let due = is_due 5 last e1 in
      elim (Bool-cases (connected e.state)) [
        | inl h ↦ rw h tt
        | inr h ↦ elim (Bool-cases (connected e1.state)) [
          | inl g ↦
              let only = sent_if-IsApart 5 last e1 due [] refl tt in
              rw (h, g) (subst (IsApart 5 last) (append-nil (sent_if due e1)) only)
          | inr g ↦
              rw (h, g)
                (sent_if-IsApart 5 last e1 due _ refl
                  (connect_loop-IsApart fuel (last_if due last e1) (asked e1)))
        ]
      ]

  connect_loop-is_over :
      (fuel last first : ℕ) (e : Asked)
      → ((n : ℕ) → first ≤ n → connected n ≡ true)
      → first ≤ fuel + e.state
      → is_over (connect_loop clock connected (suc fuel) last e) ≡ true
  unfolding connect_loop now_update
  connect_loop-is_over zero last first e h f = rw (h e.state (omega arith)) refl
  connect_loop-is_over (suc fuel) last first e h f =
      let e1 : Asked = now_update clock (asked e) in
      let due = is_due 5 last e1 in
      elim (Bool-cases (connected e.state)) [
        | inl c ↦ rw c refl
        | inr c ↦ elim (Bool-cases (connected e1.state)) [
          | inl g ↦ rw (c, g) refl
          | inr g ↦
              rw (c, g)
                (connect_loop-is_over fuel (last_if due last e1) first (asked e1) h (omega arith))
        ]
      ]

  -- If ClientConnected says yes from some question on, the first loop of Connect ends within one
  -- round more than there are questions before that one; the first handshake is sent before the
  -- loop, and each further one more than 5 seconds after the time of the one before, or of the
  -- start of the loop.
  pub connect-is_over :
      (fuel first : ℕ) (e : Asked)
      → ((n : ℕ) → first ≤ n → connected n ≡ true)
      → first ≤ fuel + e.state
      → let sent = connect clock connected (suc fuel) e in
        (is_over sent ≡ true)
        × (secs : List ℕ) × (sent.0 ≡ e.now.sec ∷ secs)
        × IsApart 5 (now_update clock e).now.sec secs
  unfolding connect now_update
  connect-is_over fuel first e h f =
      let e1 : Asked = now_update clock e in
      let rest = connect_loop clock connected (suc fuel) e1.now.sec e1 in
      (
        connect_loop-is_over fuel e1.now.sec first e1 h f,
        rest.0,
        refl,
        connect_loop-IsApart (suc fuel) e1.now.sec e1,
      )

heartbeat_loop-IsApart :
    (clock : Clock) (n last : ℕ) (e : Asked) → IsApart 1 last (heartbeat_loop clock n last e)
unfolding heartbeat_loop IsApart
heartbeat_loop-IsApart clock zero last e = tt
heartbeat_loop-IsApart clock (suc n) last e =
    let e1 : Asked = now_update clock e in
    sent_if-IsApart 1 last e1 (is_due 1 last e1) _ refl
      (heartbeat_loop-IsApart clock n (last_if (is_due 1 last e1) last e1) e1)
