-- ===== src/System/Calls.antt =====
-- The calls of the operating system, and code that makes them.
use ttserver.Base.{
  ℕ, Bool, true, false, List, [], ◌∷◌, ℤ, pos, negsuc, is_zero, erase, if◌then◌else◌,
}

-- The options of a socket that the code sets and reads.
pub data SockOpt : Type 0 where
  so_reuseaddr : SockOpt
  so_reuseport : SockOpt
  so_sndbuf : SockOpt
  so_rcvbuf : SockOpt
  so_error : SockOpt

-- `socket`, `setsockopt` of an option to a value, `getsockopt`, `bind` to an ip and a port, `epoll_ctl`
-- with a mode, and `close`.
pub data SysCall : Type 0 where
  socket : SysCall
  setsockopt : ℕ → SockOpt → ℕ → SysCall
  getsockopt : ℕ → SockOpt → SysCall
  bind : ℕ → ℕ → ℕ → SysCall
  epoll_add : ℕ → ℕ → SysCall
  epoll_mod : ℕ → ℕ → SysCall
  epoll_del : ℕ → SysCall
  close : ℕ → SysCall

-- The calls so far with what they returned, the last one first.
abbrev pub Trace : Type 0
Trace = List (SysCall × ℤ)

-- What a call returns after others, and the number that `getsockopt` leaves in the variable.
pub record Os : Type 0 where
  pub result : Trace → SysCall → ℤ
  pub value : Trace → SysCall → ℕ

-- Code that makes calls.
abbrev pub Io : Type 0 → Type 0
Io A = Trace → A × Trace

infixl 5 ◌>>=◌
abbrev pub ◌>>=◌ : {A B : Type 0} → Io A → (A → Io B) → Io B
(m >>= f) t = let (a, t1) = m t in f a t1

abbrev pub return : {A : Type 0} → A → Io A
return a t = (a, t)

-- A call.
unfoldable pub call : Os → SysCall → Io ℤ
call os c t = (os.result t c, (c, os.result t c) ∷ t)

-- `getsockopt`, with the value.
unfoldable pub call_value : Os → SysCall → Io (ℤ × ℕ)
call_value os c t = ((os.result t c, os.value t c), (c, os.result t c) ∷ t)

abbrev pub is_negative : ℤ → Bool
is_negative (pos _) = false
is_negative (negsuc _) = true

abbrev opened : ℤ → List ℕ → List ℕ
opened (pos fd) fds = fd ∷ fds
opened (negsuc _) fds = fds

abbrev added : ℕ → ℤ → List ℕ → List ℕ
added fd r fds = if is_zero r then fd ∷ fds else fds

-- The descriptors of sockets that are open after the calls.
unfoldable pub open_fds : Trace → List ℕ
unfolding erase
open_fds [] = []
open_fds ((socket, r) ∷ t) = opened r (open_fds t)
open_fds ((close fd, r) ∷ t) = erase fd (open_fds t)
open_fds (_ ∷ t) = open_fds t

-- The descriptors that epoll watches; a closed one is no longer watched.
unfoldable pub watched_fds : Trace → List ℕ
unfolding erase
watched_fds [] = []
watched_fds ((epoll_add fd mode, r) ∷ t) = added fd r (watched_fds t)
watched_fds ((epoll_del fd, r) ∷ t) = erase fd (watched_fds t)
watched_fds ((close fd, r) ∷ t) = erase fd (watched_fds t)
watched_fds (_ ∷ t) = watched_fds t
