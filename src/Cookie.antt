-- ===== src/Cookie.antt =====
-- `CookieMgr` of src/net/CookieMgr.h and src/net/CookieMgr.cpp. The keys are drawn once, by `Init`,
-- so `hmac` names them by their number; `tUpdateTime` is written and never read.
use ttserver.Base.{ℕ, ◌+◌, ◌%◌, ◌^◌, List, Option, none, some, length, ◌==◌, if◌then◌else◌}
use ttserver.Library.{Library, SockAddr}
use ttserver.Msg.Packets.{max_handshake_cookies_size}

abbrev pub secret_key_num : ℕ
secret_key_num = 2

pub record CookieMgr : Type 0 where
  pub key_seq : ℕ
  pub update_time : ℕ

-- `Init` zeroes the context before it draws the keys.
abbrev pub init_cookies : CookieMgr
init_cookies = record { key_seq = 0; update_time = 0 }

unfoldable pub tick20s : CookieMgr → ℕ → CookieMgr
tick20s c now = record { key_seq = (c.key_seq + 1) % 2 ^ 8; update_time = now }

abbrev checked_digest : Option (List ℕ) → Option (List ℕ)
checked_digest none = none
checked_digest (some d) = if length d == max_handshake_cookies_size then some d else none

-- `CreateCookie`. With the result -1 (`none`) the code leaves 24 bytes of user data in the 20 bytes
-- of the cookie, and every caller returns.
unfoldable pub create_cookie : {K : Type 0} → Library K → SockAddr → ℕ → ℕ → Option (List ℕ)
create_cookie lib addr time key_seq = checked_digest (lib.hmac (key_seq % secret_key_num) addr time)
