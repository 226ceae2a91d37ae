-- ===== src/Security/Dh.antt =====
-- The Diffie-Hellman exchange of src/net/NetSecurityMgr.cpp. A number in a field of 16 bytes stands
-- at its start, over the bytes that were there.
use ttserver.Base.{
  ℕ, ◌-◌, ◌%◌, ◌^◌, Bool, List, Option, none, some, ltb, ◌==◌, if◌then◌else◌, length, take, memcpy,
  ℤ, pos, negsuc,
}
use ttserver.Library.{Library}
use ttserver.Host.{Ret, succ, fail}

-- What the out parameters hold after a call.
pub record Exchange : Type 0 where
  pub ret : Ret
  pub num : List ℕ
  pub num_len : ℕ
  pub key : List ℕ
  pub key_len : ℕ

-- `(uint16_t)iLen`
abbrev pub to_word16 : ℤ → ℕ
to_word16 (pos n) = n % 2 ^ 16
to_word16 (negsuc n) = 2 ^ 16 - 1 - n % 2 ^ 16

-- `0 >= iLen || limit < iLen`
abbrev pub is_bad_len : ℕ → ℤ → Bool
is_bad_len limit (pos n) = if n == 0 then Bool.true else ltb limit n
is_bad_len limit (negsuc n) = Bool.true

abbrev pub ret_unless : Bool → Ret
ret_unless Bool.true = fail
ret_unless Bool.false = succ

-- The end of the two computations of a key. The bytes go to the key field whatever their number.
abbrev pub with_key : Exchange → ℤ × List ℕ → Exchange
with_key e (len, bytes) = record e {
  ret = ret_unless (is_bad_len e.key_len len);
  key = memcpy e.key 0 bytes;
  key_len = to_word16 len;
}

module _ {K : Type 0} (lib : Library K) where
  -- A failed call returns at once.
  abbrev pub failed : Exchange → Exchange
  failed e = record e { ret = fail }

  abbrev pub put_num : Exchange → ℕ → Exchange
  put_num e n = record e {
    num = memcpy e.num 0 (lib.bn_bn2bin n);
    num_len = length (lib.bn_bn2bin n);
  }

  abbrev pub put_priv : Exchange → ℕ → Exchange
  put_priv e n = record e {
    key = memcpy e.key 0 (lib.bn_bn2bin n);
    key_len = length (lib.bn_bn2bin n);
  }

  abbrev pub key_of : Exchange → Option ℕ → ℕ → Exchange
  key_of e none priv = failed e
  key_of e (some a) priv = with_key e (lib.dh_compute_key a priv)

  abbrev pub server_pair : List ℕ → ℕ → Exchange → Option (ℕ × ℕ) → Exchange
  server_pair a a_len e none = failed e
  server_pair a a_len e (some (public, priv)) =
      if ltb e.num_len (length (lib.bn_bn2bin public))
      then failed e
      else if length (lib.bn_bn2bin public) == 0
      then failed (put_num e public)
      else key_of (put_num e public) (lib.bn_bin2bn (take a_len a)) priv

  -- `HandleHandShake2`: the client's number A, and the exchange whose `num` is B.
  unfoldable pub handle_handshake2 : ℕ → List ℕ → ℕ → Exchange → Exchange
  handle_handshake2 draw a a_len e = server_pair a a_len e (lib.dh_generate_key draw)

  abbrev pub client_pair : Exchange → Option (ℕ × ℕ) → Exchange
  client_pair e none = failed e
  client_pair e (some (public, priv)) =
      if ltb e.num_len (length (lib.bn_bn2bin public))
      then failed e
      else if length (lib.bn_bn2bin public) == 0
      then failed (put_num e public)
      else if ltb e.key_len (length (lib.bn_bn2bin priv))
      then failed (put_num e public)
      else if length (lib.bn_bn2bin priv) == 0
      then failed (put_priv (put_num e public) priv)
      else record (put_priv (put_num e public) priv) { ret = succ }

  -- `HandleHandShake1ACK`: `num` is A, the public number, and `key` is B, the private one.
  unfoldable pub handle_handshake1_ack : ℕ → Exchange → Exchange
  handle_handshake1_ack draw e = client_pair e (lib.dh_generate_key draw)

  abbrev pub shared_key : Exchange → Option ℕ → Option ℕ → Option ℕ → Exchange
  shared_key e (some a) (some b) (some server) = with_key e (lib.dh_compute_key server b)
  shared_key e _ _ _ = failed e

  -- `HandleHandShake2ACK`: the server's number, and the client's own two. `num` is not used.
  unfoldable pub handle_handshake2_ack : List ℕ → ℕ → List ℕ → ℕ → List ℕ → ℕ → Exchange → Exchange
  handle_handshake2_ack server server_len a a_len b b_len e =
      shared_key e (lib.bn_bin2bn (take a_len a)) (lib.bn_bin2bn (take b_len b))
        (lib.bn_bin2bn (take server_len server))
