-- ===== src/Security/Padding.antt =====
-- Encrypting and decrypting under one key, over what CBC mode promises.
use ttserver.Base.{
  subst, ℕ, zero, suc, ◌+◌, ◌-◌, ◌%◌, ◌^◌, ◌≤◌, ◌<◌, ◌≡◌, refl, sym, ap, ◌∙◌, arith, List, [], ◌∷◌,
  ◌++◌, take, drop, replicate, head_or, length, length-take, length-drop, length-append,
  length-replicate, take-append-drop, take-eq_self, take-append, append_assoc,
}
use ttserver.Library.{Library}
use ttserver.Security.{
  zero_ivec, full_block_size, padded_size, left_block, padding_of, encrypt_data, decrypt_data,
}

-- What CBC mode promises of whole blocks: a ciphertext is as long as its text, and decrypting the
-- ciphertexts of two texts, the second begun with the vector that the first left, gives both.
pub record IsCbc {K : Type 0} (lib : Library K) : Type 0 where
  pub same_length :
      (key iv x : List ℕ) → length x % 16 ≡ 0 → length (lib.aes_cbc_encrypt key iv x).0 ≡ length x
  pub inverse :
      (key iv x y : List ℕ)
      → length x % 16 ≡ 0
      → length y % 16 ≡ 0
      → lib.aes_cbc_decrypt key iv (
          (lib.aes_cbc_encrypt key iv x).0
          ++ (lib.aes_cbc_encrypt key (lib.aes_cbc_encrypt key iv x).1 y).0)
        ≡ x ++ y

-- The length of the padding.
abbrev padding_size : ℕ → ℕ
padding_size n = padded_size n - n

padded : List ℕ → List ℕ
padded input = input ++ replicate (padding_size (length input)) (padding_size (length input))

left_block-eq :
    (input : List ℕ)
    → left_block input (length input)
      ≡ drop (full_block_size (length input)) input
        ++ replicate (padding_size (length input)) (padding_size (length input))
unfolding left_block
left_block-eq input =
    ap (λ l. l ++ replicate (padding_size (length input)) (padding_size (length input)))
      (take-eq_self (length input - full_block_size (length input))
        (drop (full_block_size (length input)) input)
        (omega (arith, length-drop (full_block_size (length input)) input)))

blocks-padded :
    (input : List ℕ)
    → take (full_block_size (length input)) input ++ left_block input (length input) ≡ padded input
unfolding padded
blocks-padded input =
    rw
      (
        left_block-eq input,
        ← append_assoc (take (full_block_size (length input)) input)
            (drop (full_block_size (length input)) input)
            (replicate (padding_size (length input)) (padding_size (length input))),
        take-append-drop (full_block_size (length input)) input,
      )
      refl

length-left_block :
    (input : List ℕ)
    → length (left_block input (length input))
      ≡ padded_size (length input) - full_block_size (length input)
length-left_block input = rw (left_block-eq input) (
    omega (
      arith,
      length-append (drop (full_block_size (length input)) input)
          (replicate (padding_size (length input)) (padding_size (length input))),
      length-drop (full_block_size (length input)) input,
      length-replicate (padding_size (length input)) (padding_size (length input)),
    ))

drop-replicate : (n m a d : ℕ) → m ≡ suc n → head_or (drop n (replicate m a)) d ≡ a
drop-replicate n zero a d e = absurd (omega arith)
drop-replicate zero (suc m) a d e = refl
drop-replicate (suc n) (suc m) a d e = drop-replicate n m a d (omega arith)

drop_past : (xs ys : List ℕ) (m n : ℕ) → m ≡ length xs + n → drop m (xs ++ ys) ≡ drop n ys
drop_past [] ys m n e = ap (λ k. drop k ys) (omega arith)
drop_past (x ∷ xs) ys zero n e = absurd (omega arith)
drop_past (x ∷ xs) ys (suc m) n e = drop_past xs ys m n (omega arith)

-- The last byte of the padded text.
last-padded :
    (input : List ℕ)
    → head_or (drop (padded_size (length input) - 1) (padded input)) 0 ≡ padding_size (length input)
unfolding padded
last-padded input =
    let p = padding_size (length input) in
    ap (λ l. head_or l 0)
      (drop_past input (replicate p p) (padded_size (length input) - 1) (p - 1) (omega arith))
    ∙ drop-replicate (p - 1) p p 0 (omega arith)

padding_of-small : (b : ℕ) → 0 < b → b ≤ 16 → padding_of b ≡ b
unfolding padding_of
padding_of-small b l u = ground arith

-- The length that `DecryptData` computes for this output is that of the input, which it begins with.
abbrev IsStripped : List ℕ → List ℕ → Type 0
IsStripped output input =
    let b = head_or (drop (padded_size (length input) - 1) output) 0 in
    let len = (padded_size (length input) + 2 ^ 64 - padding_of b) % 2 ^ 64 in
    (len ≡ length input) × (take len output ≡ input)

-- What `DecryptData` makes of the padded text: its length without the padding, and the text.
strip-padded : (input : List ℕ) → length input + 16 < 2 ^ 64 → IsStripped (padded input) input
unfolding padded
strip-padded input bound =
    let p = padding_size (length input) in
    let b = head_or (drop (padded_size (length input) - 1) (padded input)) 0 in
    let pad = ap padding_of (last-padded input) ∙ padding_of-small p (omega arith) (omega arith) in
    let len : (padded_size (length input) + 2 ^ 64 - padding_of b) % 2 ^ 64 ≡ length input =
      omega (arith, pad) in
    (
      len,
      ap (λ m. take m (padded input)) len ∙ take-append input (replicate p p) (length input) refl,
    )

module _ {K : Type 0} (lib : Library K) (cbc : IsCbc lib) where
  open cbc use {same_length, inverse}

  cipher : List ℕ → List ℕ → List ℕ
  cipher key input = (encrypt_data lib key input (length input)).0

  full-whole : (input : List ℕ) → length (take (full_block_size (length input)) input) % 16 ≡ 0
  full-whole input = omega (arith, length-take (full_block_size (length input)) input)

  left-whole : (input : List ℕ) → length (left_block input (length input)) % 16 ≡ 0
  left-whole input = omega (arith, length-left_block input)

  length-cipher : (key input : List ℕ) → length (cipher key input) ≡ padded_size (length input)
  unfolding cipher encrypt_data
  length-cipher key input =
      let full = take (full_block_size (length input)) input in
      let left = left_block input (length input) in
      let (first, ivec) = lib.aes_cbc_encrypt key zero_ivec full in
      let (last, _) = lib.aes_cbc_encrypt key ivec left in
      omega (
        arith,
        length-append first last,
        same_length key zero_ivec full (full-whole input),
        same_length key ivec left (left-whole input),
        length-take (full_block_size (length input)) input,
        length-left_block input,
      )

  decrypted-cipher :
      (key input : List ℕ)
      → lib.aes_cbc_decrypt key zero_ivec (take (padded_size (length input)) (cipher key input))
        ≡ padded input
  unfolding cipher encrypt_data
  decrypted-cipher key input =
      ap (λ l. lib.aes_cbc_decrypt key zero_ivec l)
        (take-eq_self (padded_size (length input)) (cipher key input)
          (omega (arith, length-cipher key input)))
      ∙ inverse key zero_ivec (take (full_block_size (length input)) input)
          (left_block input (length input)) (full-whole input) (left-whole input)
      ∙ blocks-padded input

  -- If the cipher keeps the promise of CBC mode on whole blocks, decrypting what was encrypted
  -- under the same key gives back the length of the message and, in that many bytes, the message;
  -- its length is more than 16 below 2 ^ 64.
  pub decrypt_data-encrypt_data :
      (key input : List ℕ)
      → length input + 16 < 2 ^ 64
      → let (bytes, bytes_len) = encrypt_data lib key input (length input) in
        let (output, len) = decrypt_data lib key bytes bytes_len in
        (len ≡ length input) × (take len output ≡ input)
  unfolding cipher encrypt_data decrypt_data
  decrypt_data-encrypt_data key input bound =
      subst (λ l. IsStripped l input) (sym (decrypted-cipher key input)) (strip-padded input bound)
