-- ===== src/Security.antt =====
-- `NetSecurityMgr::SetEncKey`, `EncryptData` and `DecryptData` of src/net/NetSecurityMgr.cpp: AES in
-- CBC mode, with a padding that says how many bytes it has. The key of the singleton is an argument.
pub mod Padding
pub mod Dh
pub mod Agreement
use ttserver.Base.{
  ℕ, ◌+◌, ◌-◌, ◌*◌, ◌/◌, ◌%◌, ◌^◌, List, ◌++◌, ltb, ◌==◌, if◌then◌else◌, take, drop, replicate,
  head_or,
}
use ttserver.Library.{Library}
use ttserver.Host.{Host}

-- `SetEncKey` on the singleton; a key of another length leaves the old one.
unfoldable pub set_enc_key : Host → List ℕ → ℕ → Host
set_enc_key h key key_len = if key_len == 16 then record h { security_key = take 16 key } else h

abbrev pub zero_ivec : List ℕ
zero_ivec = replicate 16 0

-- The length of the blocks that are full, and of the output.
abbrev pub full_block_size : ℕ → ℕ
full_block_size n = n / 16 * 16

abbrev pub padded_size : ℕ → ℕ
padded_size n = (n / 16 + 1) * 16

-- The rest of the data, filled up with the length of the padding.
unfoldable pub left_block : List ℕ → ℕ → List ℕ
left_block input in_len =
    take (in_len - full_block_size in_len) (drop (full_block_size in_len) input)
    ++ replicate (padded_size in_len - in_len) (padded_size in_len - in_len)

-- The padding as `(size_t)szOutput[ulInLen - 1]`: a `char` is signed, and a zero means 16.
unfoldable pub padding_of : ℕ → ℕ
padding_of b = if b == 0 then 16 else if ltb b 128 then b else 2 ^ 64 - 256 + b

module _ {K : Type 0} (lib : Library K) where
  -- The ciphertext that is written to `szOutput`, and `ulOutLen`.
  unfoldable pub encrypt_data : List ℕ → List ℕ → ℕ → List ℕ × ℕ
  encrypt_data key input in_len =
      let (first, ivec) = lib.aes_cbc_encrypt key zero_ivec (take (full_block_size in_len) input) in
      let (last, _) = lib.aes_cbc_encrypt key ivec (left_block input in_len) in
      (first ++ last, padded_size in_len)

  -- What is decrypted, and `ulOutLen`, which goes round.
  unfoldable pub decrypt_data : List ℕ → List ℕ → ℕ → List ℕ × ℕ
  decrypt_data key input in_len =
      let output = lib.aes_cbc_decrypt key zero_ivec (take in_len input) in
      let padding = padding_of (head_or (drop (in_len - 1) output) 0) in
      (output, (in_len + 2 ^ 64 - padding) % 2 ^ 64)
