-- ===== src/System/Leaks.antt =====
-- No descriptor is lost: the error paths of `CreateSocket` and `CreateNetWork` in src/net/NetWorkMgr.cpp.
use ttserver.Base.{
  ℕ, ◌≡◌, refl, sym, subst, ap, ◌∙◌, ◌⊎◌, inl, inr, Bool, true, false, List, ◌∷◌, Option, none,
  some, ◌==◌, ==_refl, erase, ℤ, pos, negsuc, minus_one, is_zero, Bool-cases,
}
use ttserver.System.Calls.{
  SockOpt, Trace, socket, setsockopt, bind, epoll_add, Os, Io, ◌>>=◌, return, call, open_fds,
  watched_fds,
}
use ttserver.System.Socket.{
  is_minus_one, set_flag, read_back, set_buf, sock_reuse, sock_reuse_port, sock_rbuf, sock_wbuf,
  inaddr_none,
}
use ttserver.System.Poll.{poll_add}
use ttserver.System.NetWorks.{
  NetWorkMgr, or_close, set_rbuf, set_wbuf, bind_addr, set_reuse_port, set_reuse, with_socket,
  create_socket, watched, with_fd, create_network,
}

-- The calls open, close and watch nothing.
unfoldable IsQuiet : Io ℤ → Type 0
IsQuiet m = (t : Trace) → (open_fds (m t).1 ≡ open_fds t) × (watched_fds (m t).1 ≡ watched_fds t)

-- The descriptor is returned as it was opened, or it is closed and -1 is returned.
unfoldable IsFinished : ℕ → Trace → ℤ × Trace → Type 0
IsFinished fd t (r, t1) =
    ((r ≡ pos fd) × (open_fds t1 ≡ open_fds t) × (watched_fds t1 ≡ watched_fds t))
    ⊎ ((r ≡ minus_one) × (open_fds t1 ≡ erase fd (open_fds t)))

IsFinished-from :
    (fd : ℕ) (t t1 : Trace) (r : ℤ × Trace)
    → open_fds t1 ≡ open_fds t
    → watched_fds t1 ≡ watched_fds t
    → IsFinished fd t1 r
    → IsFinished fd t r
unfolding IsFinished
IsFinished-from fd t t1 r e w (inl (a, b, c)) = inl (a, b ∙ e, c ∙ w)
IsFinished-from fd t t1 r e w (inr (a, b)) = inr (a, b ∙ ap (erase fd) e)

unfoldable IsMade : Trace → ℤ × Trace → Type 0
IsMade t (pos fd, t1) = (open_fds t1 ≡ fd ∷ open_fds t) × (watched_fds t1 ≡ watched_fds t)
IsMade t (negsuc n, t1) = open_fds t1 ≡ open_fds t

erase-cons : (fd : ℕ) (fds : List ℕ) → erase fd (fd ∷ fds) ≡ fds
unfolding erase
erase-cons fd fds = rw (==_refl fd) refl

IsFinished-IsMade :
    (fd : ℕ) (t t0 : Trace) (r : ℤ × Trace)
    → open_fds t0 ≡ fd ∷ open_fds t
    → watched_fds t0 ≡ watched_fds t
    → IsFinished fd t0 r
    → IsMade t r
unfolding IsFinished IsMade
IsFinished-IsMade fd t t0 (r, t1) o w (inl (a, b, c)) =
    subst (λ x. IsMade t (x, t1)) (sym a) (b ∙ o, c ∙ w)
IsFinished-IsMade fd t t0 (r, t1) o w (inr (a, b)) =
    subst (λ x. IsMade t (x, t1)) (sym a) (b ∙ ap (erase fd) o ∙ erase-cons fd (open_fds t))

module _ (os : Os) where
  or_close-IsFinished :
      (fd : ℕ) (m next : Io ℤ)
      → IsQuiet m
      → ((t : Trace) → IsFinished fd t (next t))
      → (t : Trace) → IsFinished fd t ((m >>= or_close os fd next) t)
  unfolding IsQuiet IsFinished call open_fds watched_fds
  or_close-IsFinished fd m next q f t = elim (Bool-cases (is_zero (m t).0)) [
    | inl e ↦ rw e (IsFinished-from fd t (m t).1 (next (m t).1) (q t).0 (q t).1 (f (m t).1))
    | inr e ↦ rw e (inr (refl, ap (erase fd) (q t).0))
  ]

  set_flag-IsQuiet : (fd : ℕ) (flag : SockOpt) (opt : ℕ) → IsQuiet (set_flag os fd flag opt)
  unfolding IsQuiet call open_fds watched_fds
  set_flag-IsQuiet fd flag opt t = (refl, refl)

  read_back-IsQuiet : (fd : ℕ) (flag : SockOpt) (b : Bool) → IsQuiet (read_back os fd flag b)
  unfolding IsQuiet call open_fds watched_fds
  read_back-IsQuiet fd flag true t = (refl, refl)
  read_back-IsQuiet fd flag false t = (refl, refl)

  set_buf-IsQuiet : (fd : ℕ) (flag : SockOpt) (size : ℕ) → IsQuiet (set_buf os fd flag size)
  unfolding IsQuiet call open_fds watched_fds
  set_buf-IsQuiet fd flag size t =
      read_back-IsQuiet fd flag (is_minus_one (os.result t (setsockopt fd flag size)))
        ((setsockopt fd flag size, os.result t (setsockopt fd flag size)) ∷ t)

  module _ (fd ip port : ℕ) where
    set_rbuf-IsFinished : (t : Trace) → IsFinished fd t (set_rbuf os fd t)
    unfolding set_rbuf sock_rbuf IsFinished
    set_rbuf-IsFinished =
        or_close-IsFinished fd _ (return (pos fd)) (set_buf-IsQuiet fd _ _)
          (λ t. inl (refl, refl, refl))

    set_wbuf-IsFinished : (t : Trace) → IsFinished fd t (set_wbuf os fd t)
    unfolding set_wbuf sock_wbuf
    set_wbuf-IsFinished =
        or_close-IsFinished fd _ (set_rbuf os fd) (set_buf-IsQuiet fd _ _) set_rbuf-IsFinished

    bind_addr-IsFinished : (t : Trace) → IsFinished fd t (bind_addr os fd ip port t)
    unfolding bind_addr IsQuiet call open_fds watched_fds
    bind_addr-IsFinished =
        or_close-IsFinished fd (call os (bind fd ip port)) (set_wbuf os fd) (λ t. (refl, refl))
          set_wbuf-IsFinished

    set_reuse_port-IsFinished : (t : Trace) → IsFinished fd t (set_reuse_port os fd ip port t)
    unfolding set_reuse_port sock_reuse_port
    set_reuse_port-IsFinished =
        or_close-IsFinished fd _ (bind_addr os fd ip port) (set_flag-IsQuiet fd _ _)
          bind_addr-IsFinished

    set_reuse-IsFinished : (t : Trace) → IsFinished fd t (set_reuse os fd ip port t)
    unfolding set_reuse sock_reuse
    set_reuse-IsFinished =
        or_close-IsFinished fd _ (set_reuse_port os fd ip port) (set_flag-IsQuiet fd _ _)
          set_reuse_port-IsFinished

  with_socket-IsMade :
      (ip port : ℕ) (r : ℤ) (t : Trace) → IsMade t (with_socket os ip port r ((socket, r) ∷ t))
  unfolding open_fds watched_fds IsMade
  with_socket-IsMade ip port (negsuc n) t = refl
  with_socket-IsMade ip port (pos fd) t =
      IsFinished-IsMade fd t ((socket, pos fd) ∷ t) _ refl refl (set_reuse-IsFinished fd ip port _)

  -- `CreateSocket` opens the one descriptor that it returns, or none.
  create_socket-IsMade : (ip port : ℕ) (t : Trace) → IsMade t (create_socket os ip port t)
  unfolding create_socket call
  create_socket-IsMade ip port t = with_socket-IsMade ip port (os.result t socket) t

-- A `NetWork` has the one descriptor that was opened, which is watched and in the map; without one
-- nothing more is open, and the map is the old one.
unfoldable pub IsOpened : Trace → NetWorkMgr → (Option ℕ × NetWorkMgr) × Trace → Type 0
IsOpened t m ((some fd, m1), t1) =
    (open_fds t1 ≡ fd ∷ open_fds t)
    × (watched_fds t1 ≡ fd ∷ watched_fds t)
    × (m1.map_network ≡ fd ∷ m.map_network)
IsOpened t m ((none, m1), t1) = (open_fds t1 ≡ open_fds t) × (m1.map_network ≡ m.map_network)

module _ (os : Os) (m : NetWorkMgr) where
  watched-IsOpened :
      (fd : ℕ) (t t1 : Trace) (r : ℤ)
      → IsMade t (pos fd, t1)
      → IsOpened t m (watched os m fd r ((epoll_add fd 5, r) ∷ t1))
  unfolding IsMade IsOpened call open_fds watched_fds
  watched-IsOpened fd t t1 r h = elim (Bool-cases (is_zero r)) [
    | inl e ↦ rw e (h.0, rw e (ap (λ fds. fd ∷ fds) h.1), refl)
    | inr e ↦ rw e (ap (erase fd) h.0 ∙ erase-cons fd (open_fds t), refl)
  ]

  with_fd-IsOpened : (t : Trace) (r : ℤ × Trace) → IsMade t r → IsOpened t m (with_fd os m r.0 r.1)
  unfolding IsMade poll_add call IsOpened
  with_fd-IsOpened t (negsuc n, t1) h = (h, refl)
  with_fd-IsOpened t (pos fd, t1) h = watched-IsOpened fd t t1 (os.result t1 (epoll_add fd 5)) h

  -- However the system answers each call, and whatever was called before: CreateNetWork either
  -- makes a NetWork, with exactly one more descriptor open, this one watched and entered in the
  -- map, or makes none and leaves the open descriptors and the map as they were.
  pub create_network-IsOpened : (ip : ℕ) (t : Trace) → IsOpened t m (create_network os m ip t)
  unfolding create_network IsOpened
  create_network-IsOpened ip t = elim (Bool-cases (ip == inaddr_none)) [
    | inl e ↦ rw e (refl, refl)
    | inr e ↦
        rw e
          (with_fd-IsOpened t (create_socket os ip m.port t) (create_socket-IsMade os ip m.port t))
  ]
