-- ===== src/Conn/Rounds.antt =====
-- The loop of `RecvUnreliable` ends before its fuel does.
use ttserver.Base.{
  ℕ, zero, suc, ◌+◌, ◌≤◌, ◌<◌, ◌≡◌, refl, arith, ap, List, Option, none, some, ◌==◌, if◌then◌else◌,
  ℤ,
}
use ttserver.Library.{Library}
use ttserver.Msg.Reader.{Reader, peek_unreliable}
use ttserver.Host.{Host, succ}
use ttserver.Conn.{NetConnect}
use ttserver.Conn.Receive.{recv_round, next_round, recv_unreliable_loop, recv_unreliable}

-- A message that is peeked takes its two bytes of length from the reader, at least.
peek_unreliable-shorter :
    (r : Reader) (e : ℤ) (m : List ℕ) (r' : Reader)
    → peek_unreliable r ≡ (e, some m, r')
    → r'.size + 2 ≤ r.size
unfolding peek_unreliable
peek_unreliable-shorter r e m r' p = ground arith

module _ {K : Type 0} (lib : Library K) where
  next_round-same :
      (k1 k2 : Host → Reader → Host) (o : Option Reader × Host)
      → ((r : Reader) → o.0 ≡ some r → (h : Host) → k1 h r ≡ k2 h r)
      → next_round lib k1 o ≡ next_round lib k2 o
  next_round-same k1 k2 (none, h) same = refl
  next_round-same k1 k2 (some r, h) same = same r refl h

  -- A round that goes on has peeked a message, and goes on with the reader behind it.
  recv_round-goes_on :
      (c : NetConnect K) (h : Host) (x : ℤ × Option (List ℕ) × Reader) (r : Reader)
      → (recv_round lib c h x).0 ≡ some r
      → (m : List ℕ) × (x.1 ≡ some m) × (x.2 ≡ r)
  recv_round-goes_on c h (e, none, r') r p = absurd (ground arith)
  recv_round-goes_on c h (e, some m, r') r p = (m, refl, ground arith)

  recv_round-shorter :
      (c : NetConnect K) (h : Host) (r r' : Reader)
      → (recv_round lib c h (peek_unreliable r)).0 ≡ some r'
      → r'.size + 2 ≤ r.size
  recv_round-shorter c h r r' p =
      let x = peek_unreliable r in
      let (m, message, reader) = recv_round-goes_on c h x r' p in
      peek_unreliable-shorter r x.0 m r' (λ i. (x.0, message i, reader i))

  recv_unreliable_loop-fuel :
      (f g : ℕ) (c : NetConnect K) (h : Host) (r : Reader)
      → r.size < f
      → r.size < g
      → recv_unreliable_loop lib f c h r ≡ recv_unreliable_loop lib g c h r
  unfolding recv_unreliable_loop
  recv_unreliable_loop-fuel zero g c h r p q = absurd (omega arith)
  recv_unreliable_loop-fuel (suc f) zero c h r p q = absurd (omega arith)
  recv_unreliable_loop-fuel (suc f) (suc g) c h r p q =
      ap (λ n. if r.size == 0 then h else n)
        (next_round-same (recv_unreliable_loop lib f c) (recv_unreliable_loop lib g c)
          (recv_round lib c h (peek_unreliable r))
          (λ r' goes h'.
            let less = recv_round-shorter c h r r' goes in
            recv_unreliable_loop-fuel f g c h' r' (omega (arith, less)) (omega (arith, less))))

  -- RecvUnreliable gives what its loop gives with any fuel above the number of received bytes:
  -- the loop ends by itself.
  recv_unreliable-fuel :
      (c : NetConnect K) (h : Host) (bytes : List ℕ) (len fuel : ℕ)
      → len < fuel
      → recv_unreliable lib c h bytes len
        ≡ (succ, recv_unreliable_loop lib fuel c h (record { buff = bytes; size = len }))
  unfolding recv_unreliable
  recv_unreliable-fuel c h bytes len fuel p =
      ap (λ v. (succ, v))
        (recv_unreliable_loop-fuel (suc len) fuel c h (record { buff = bytes; size = len })
          (omega arith) p)
