-- ===== src/Library.antt =====
-- The libraries that the network code calls and that are not its own: the KCP transport
-- (src/net/ikcp.c, a copy of another project's library), AES, HMAC and Diffie-Hellman of OpenSSL,
-- and the source of random numbers. They are parameters. `K` is the memory of an `ikcpcb`.
use ttserver.Base.{ℕ, Bool, List, Option, ℤ}

pub record SockAddr : Type 0 where
  pub family : ℕ
  pub port : ℕ
  pub ip : ℕ

pub record Library (K : Type 0) : Type 0 where
  -- `memset(&ikcp, 0, sizeof(ikcp))`
  pub ikcp_zero : K
  pub ikcp_conv : K → ℕ
  pub ikcp_state : K → ℤ
  pub ikcp_srtt : K → ℕ
  -- `ikcp_create` on this memory, and whether it succeeds
  pub ikcp_create : ℕ → K → Bool × K
  -- `ikcp_wndsize` and `ikcp_nodelay` with the wrapper's settings
  pub ikcp_configure : K → K
  pub ikcp_send : K → List ℕ → ℤ × K
  pub ikcp_input : K → List ℕ → ℤ × K
  pub ikcp_peeksize : K → ℤ
  -- `ikcp_recv` into a buffer of that length: its result, the message, the state after it
  pub ikcp_recv : K → ℕ → ℤ × List ℕ × K
  -- `ikcp_recv(kcp, NULL, len)`
  pub ikcp_recv_null : K → ℤ → ℤ × K
  -- `ikcp_update`, and the datagrams that it hands to the output callback, in order
  pub ikcp_update : K → ℕ → K × List (List ℕ)
  pub ikcp_waitsnd : K → ℕ
  -- `state = 0`, and `xmit = 0` in every segment of `snd_buf`
  pub ikcp_restart : K → K
  -- `AES_cbc_encrypt` with a 128-bit key: the ciphertext and the next initialisation vector
  pub aes_cbc_encrypt : List ℕ → List ℕ → List ℕ → List ℕ × List ℕ
  pub aes_cbc_decrypt : List ℕ → List ℕ → List ℕ → List ℕ
  -- HMAC-SHA1 of a client address and a time under the key of this number; `none` if a call fails
  pub hmac : ℕ → SockAddr → ℕ → Option (List ℕ)
  -- `DH_generate_key` for the parameters P and G, by the number of the draw: the public and the
  -- private number, or `none` where it fails
  pub dh_generate_key : ℕ → Option (ℕ × ℕ)
  -- `DH_compute_key` of the other side's public number and one's own private one: its result, and
  -- the bytes of the key
  pub dh_compute_key : ℕ → ℕ → ℤ × List ℕ
  pub bn_bn2bin : ℕ → List ℕ
  pub bn_bin2bn : List ℕ → Option ℕ
  -- `RandomInt2(0, 255)`, by the number of the draw
  pub random_byte : ℕ → ℕ
