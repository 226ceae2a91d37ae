-- ===== src/Net/Reads.antt =====
-- The network thread on whatever datagrams wait in the socket.
use ttserver.Base.{ℕ, ◌≡◌, ◌≤◌, false, List, ◌++◌, Option, none, some, length, Bool}
use ttserver.Library.{Library}
use ttserver.Msg.Decode.{Msg}
use ttserver.Host.{Host}
use ttserver.Net.{World}
use ttserver.Net.Live.{IsLive}
use ttserver.Net.Io.{Datagram, do_io_read}

module _ {K : Type 0} (lib : Library K) where
  -- What a run of `DoIORead` leaves: datagrams were taken from the front, `n` at most, and the world
  -- is sound.
  unfoldable IsRead : ℕ → List Datagram → Option (List Datagram × World K) → Type 0
  IsRead n ds o =
      (used : List Datagram) × (rest : List Datagram) × (w1 : World K) × (o ≡ some (rest, w1))
      × (ds ≡ used ++ rest)
      × (length used ≤ n)
      × IsLive w1

  -- What the run leaves, if it ends.
  abbrev end_host : Option (List Datagram × World K) → Option Host
  end_host none = none
  end_host (some (rest, w)) = some w.host

  abbrev is_overrun : Option Host → Bool
  is_overrun none = false
  is_overrun (some h) = h.overrun

  -- Whether the run ends and a copy has left its buffer by then. A run that reads a freed connection
  -- does not end.
  unfoldable pub overruns : List Datagram → World K → Bool
  overruns ds w = is_overrun (end_host (do_io_read lib ds w))
