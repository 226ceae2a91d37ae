-- ===== src/Bytes.antt =====
-- The byte codecs of src/net/NetMsg.cpp (`Encode8u` … `Decode64u`). A buffer is the list of the
-- bytes from the pointer on. A codec has two bodies, chosen by the preprocessor: a `memcpy` of the
-- machine's word on x86 (little endian), and a portable one by shifts. An encoder is given by the
-- bytes that it writes; a decoder returns the value and the advanced pointer.
pub mod Laws
use ttserver.Base.{ℕ, zero, suc, ◌+◌, ◌*◌, ◌/◌, ◌%◌, ◌^◌, List, [], ◌∷◌, take, drop, head_or}

-- The bytes of a word of `k` bytes in the memory of a little-endian machine.
unfoldable pub le_bytes : ℕ → ℕ → List ℕ
le_bytes zero l = []
le_bytes (suc k) l = (l % 256) ∷ le_bytes k (l / 256)

-- The word that such bytes stand for.
unfoldable pub le_word : List ℕ → ℕ
le_word [] = 0
le_word (b ∷ bs) = b + 256 * le_word bs

unfoldable pub encode8u : ℕ → List ℕ
encode8u c = (c % 256) ∷ []

unfoldable pub decode8u : List ℕ → ℕ × List ℕ
decode8u p = (head_or p 0, drop 1 p)

unfoldable pub encode16u : ℕ → List ℕ
encode16u w = le_bytes 2 w

unfoldable pub decode16u : List ℕ → ℕ × List ℕ
decode16u p = (le_word (take 2 p), drop 2 p)

unfoldable pub encode32u : ℕ → List ℕ
encode32u l = le_bytes 4 l

unfoldable pub decode32u : List ℕ → ℕ × List ℕ
decode32u p = (le_word (take 4 p), drop 4 p)

unfoldable pub encode64u : ℕ → List ℕ
encode64u l = le_bytes 8 l

unfoldable pub decode64u : List ℕ → ℕ × List ℕ
decode64u p = (le_word (take 8 p), drop 8 p)

-- The byte at an offset, `*(const unsigned char*)(p + i)`.
abbrev byte_at : List ℕ → ℕ → ℕ
byte_at p i = head_or (drop i p) 0

-- The portable bodies; `& 0xff` is `% 256`, `>> k` is `/ 2 ^ k`, `<< 8` keeps the word's width.
pub encode16u_portable : ℕ → List ℕ
encode16u_portable w = (w % 256) ∷ (w / 2 ^ 8 % 256) ∷ []

pub encode32u_portable : ℕ → List ℕ
encode32u_portable l = (l % 256) ∷ (l / 2 ^ 8 % 256) ∷ (l / 2 ^ 16 % 256) ∷ (l / 2 ^ 24 % 256) ∷ []

pub encode64u_portable : ℕ → List ℕ
encode64u_portable l =
    (l % 256)
    ∷ (l / 2 ^ 8 % 256)
    ∷ (l / 2 ^ 16 % 256)
    ∷ (l / 2 ^ 24 % 256)
    ∷ (l / 2 ^ 32 % 256)
    ∷ (l / 2 ^ 40 % 256)
    ∷ (l / 2 ^ 48 % 256)
    ∷ (l / 2 ^ 56 % 256)
    ∷ []

pub decode16u_portable : List ℕ → ℕ × List ℕ
decode16u_portable p = let w = byte_at p 1 in (((byte_at p 0 + w * 2 ^ 8) % 2 ^ 16), drop 2 p)

pub decode32u_portable : List ℕ → ℕ × List ℕ
decode32u_portable p =
    let l3 = byte_at p 3 in
    let l2 = (byte_at p 2 + l3 * 2 ^ 8) % 2 ^ 32 in
    let l1 = (byte_at p 1 + l2 * 2 ^ 8) % 2 ^ 32 in ((byte_at p 0 + l1 * 2 ^ 8) % 2 ^ 32, drop 4 p)

-- Reads four bytes only.
pub decode64u_portable : List ℕ → ℕ × List ℕ
decode64u_portable p =
    let l3 = byte_at p 3 in
    let l2 = (byte_at p 2 + l3 * 2 ^ 8) % 2 ^ 64 in
    let l1 = (byte_at p 1 + l2 * 2 ^ 8) % 2 ^ 64 in ((byte_at p 0 + l1 * 2 ^ 8) % 2 ^ 64, drop 8 p)
