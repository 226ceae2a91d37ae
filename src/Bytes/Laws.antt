-- ===== src/Bytes/Laws.antt =====
-- Round trips of the codecs.
use ttserver.Base.{
  ℕ, zero, suc, ◌/◌, ◌%◌, ◌^◌, ◌<◌, ◌≡◌, refl, ap, List, ◌++◌, arith, length, take-append,
  drop-append,
}
use ttserver.Bytes.{
  le_bytes, le_word, encode8u, decode8u, encode16u, decode16u, encode32u, decode32u, encode64u,
  decode64u, encode32u_portable, decode32u_portable, encode64u_portable, decode64u_portable,
}

pub length-le_bytes : (k l : ℕ) → length (le_bytes k l) ≡ k
unfolding le_bytes
length-le_bytes zero l = refl
length-le_bytes (suc k) l = ap suc (length-le_bytes k (l / 256))

le_word-le_bytes_two : (l : ℕ) → l < 2 ^ 16 → le_word (le_bytes 2 l) ≡ l
unfolding le_word le_bytes
le_word-le_bytes_two l h = omega arith

le_word-le_bytes_four : (l : ℕ) → l < 2 ^ 32 → le_word (le_bytes 4 l) ≡ l
unfolding le_word le_bytes
le_word-le_bytes_four l h = omega arith

le_word-le_bytes_eight : (l : ℕ) → l < 2 ^ 64 → le_word (le_bytes 8 l) ≡ l
unfolding le_word le_bytes
le_word-le_bytes_eight l h = omega arith

pub decode8u-encode8u :
    (l : ℕ) (rest : List ℕ) → l < 256 → decode8u (encode8u l ++ rest) ≡ (l, rest)
unfolding decode8u encode8u
decode8u-encode8u l rest h = ground arith

pub decode16u-encode16u :
    (l : ℕ) (rest : List ℕ) → l < 2 ^ 16 → decode16u (encode16u l ++ rest) ≡ (l, rest)
unfolding decode16u encode16u
decode16u-encode16u l rest h = rw (
  take-append (le_bytes 2 l) rest 2 (length-le_bytes 2 l),
  drop-append (le_bytes 2 l) rest 2 (length-le_bytes 2 l),
  le_word-le_bytes_two l h,
)

pub decode32u-encode32u :
    (l : ℕ) (rest : List ℕ) → l < 2 ^ 32 → decode32u (encode32u l ++ rest) ≡ (l, rest)
unfolding decode32u encode32u
decode32u-encode32u l rest h = rw (
  take-append (le_bytes 4 l) rest 4 (length-le_bytes 4 l),
  drop-append (le_bytes 4 l) rest 4 (length-le_bytes 4 l),
  le_word-le_bytes_four l h,
)

-- Decode64u reads the word below 2 ^ 64 that Encode64u wrote, and leaves the bytes behind it.
pub decode64u-encode64u :
    (l : ℕ) (rest : List ℕ) → l < 2 ^ 64 → decode64u (encode64u l ++ rest) ≡ (l, rest)
unfolding decode64u encode64u
decode64u-encode64u l rest h = rw (
  take-append (le_bytes 8 l) rest 8 (length-le_bytes 8 l),
  drop-append (le_bytes 8 l) rest 8 (length-le_bytes 8 l),
  le_word-le_bytes_eight l h,
)

-- The two bodies of each encoder write the same bytes.
pub encode32u_portable-eq : (l : ℕ) → encode32u_portable l ≡ encode32u l
unfolding encode32u_portable encode32u le_bytes
encode32u_portable-eq l = ground arith

-- Both bodies of Encode64u write the same bytes.
encode64u_portable-eq : (l : ℕ) → encode64u_portable l ≡ encode64u l
unfolding encode64u_portable encode64u le_bytes
encode64u_portable-eq l = ground arith

pub decode32u_portable-encode32u :
    (l : ℕ) (rest : List ℕ) → l < 2 ^ 32 → decode32u_portable (encode32u l ++ rest) ≡ (l, rest)
unfolding decode32u_portable encode32u le_bytes
decode32u_portable-encode32u l rest h = ground arith

-- The portable body of Decode64u, on what Encode64u wrote, gives the word modulo 2 ^ 32.
pub decode64u_portable-encode64u :
    (l : ℕ) (rest : List ℕ) → decode64u_portable (encode64u l ++ rest) ≡ (l % 2 ^ 32, rest)
unfolding decode64u_portable encode64u le_bytes
decode64u_portable-encode64u l rest = ground arith
