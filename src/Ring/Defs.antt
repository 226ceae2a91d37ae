-- ===== src/Ring/Defs.antt =====
-- The data and the operations of `RingQueue`. The memory behind `m_pDataBuf` is a function from
-- index to byte, as `malloc` leaves it at first.
use Prim.Native.Nat.{bit_and}
use ttserver.Base.{
  ℕ, zero, suc, ◌+◌, ◌-◌, ◌/◌, ◌%◌, ◌^◌, Bool, true, false, List, [], ◌∷◌, ◌++◌, Option, none, some,
  ltb, ◌==◌, if◌then◌else◌, take, drop,
}
use ttserver.Bytes.{encode32u, decode32u}

pub record RingQueue : Type 0 where
  pub data_buf : ℕ → ℕ
  pub data_buf_size : ℕ
  pub head : ℕ
  pub tail : ℕ
  pub write_head : ℕ
  pub read_tail : ℕ
  pub on_write : Bool
  pub on_read : Bool

-- `uint32_t` sums and differences.
abbrev pub add32 : ℕ → ℕ → ℕ
add32 a b = (a + b) % 2 ^ 32

abbrev pub sub32 : ℕ → ℕ → ℕ
sub32 a b = (a + 2 ^ 32 - b) % 2 ^ 32

-- The number of bits of `n`, which is `32 - __builtin_clz(n)`; 32 rounds are enough for 32 bits.
unfoldable pub bit_length : ℕ → ℕ → ℕ
bit_length zero n = 0
bit_length (suc fuel) n = let rest = bit_length fuel (n / 2) in if n == 0 then 0 else suc rest

unfoldable pub round_pow_of_two : ℕ → ℕ
round_pow_of_two num = if ltb num 2 then 1 else 2 ^ bit_length 32 (num - 1) % 2 ^ 32

unfoldable pub min_len : ℕ → ℕ → ℕ
min_len a b = if ltb a b then a else b

-- `sizeof(RingQueueDataHead)`.
abbrev pub data_head_len : ℕ
data_head_len = 4

abbrev pub power_size : ℕ → ℕ
power_size n = if bit_and n (sub32 n 1) == 0 then n else round_pow_of_two n

-- The constructor; `mem` is what the allocated memory holds.
unfoldable pub new_ring : (mem : ℕ → ℕ) → ℕ → RingQueue
new_ring mem data_buf_size = record {
  data_buf = mem;
  data_buf_size = power_size data_buf_size;
  head = 0;
  tail = 0;
  write_head = 0;
  read_tail = 0;
  on_write = false;
  on_read = false;
}

unfoldable pub remaining_space : RingQueue → ℕ
remaining_space r = add32 (sub32 r.data_buf_size r.head) r.tail

unfoldable pub is_empty : RingQueue → Bool
is_empty r = r.head == r.tail

-- The element at an index, or a default past the end.
abbrev pub get_or : List ℕ → ℕ → ℕ → ℕ
get_or [] i d = d
get_or (x ∷ xs) zero d = x
get_or (x ∷ xs) (suc i) d = get_or xs i d

-- `memcpy(mem + off, bytes, length bytes)`.
unfoldable pub copy_in : (ℕ → ℕ) → ℕ → List ℕ → ℕ → ℕ
copy_in mem off bytes i = if ltb i off then mem i else get_or bytes (i - off) (mem i)

-- The `n` bytes that `memcpy(dst, mem + off, n)` copies.
unfoldable pub copy_out : (ℕ → ℕ) → ℕ → ℕ → List ℕ
copy_out mem off zero = []
copy_out mem off (suc n) = mem off ∷ copy_out mem (suc off) n

-- The place of a counter in the buffer.
unfoldable pub place : RingQueue → ℕ → ℕ
place r counter = bit_and counter (sub32 r.data_buf_size 1)

-- The memory after `len` bytes from `bytes` on were copied in at `cur`, in two parts.
unfoldable pub write_parts : (ℕ → ℕ) → ℕ → ℕ → List ℕ → ℕ → ℕ → ℕ
write_parts mem size cur bytes len =
    let len_tail = min_len len (sub32 size cur) in
    let len_head = len - len_tail in
    copy_in (copy_in mem cur (take len_tail bytes)) 0 (take len_head (drop len_tail bytes))

unfoldable pub read_parts : (ℕ → ℕ) → ℕ → ℕ → ℕ → List ℕ
read_parts mem size cur len =
    let len_tail = min_len len (sub32 size cur) in
    copy_out mem cur len_tail ++ copy_out mem 0 (len - len_tail)

unfoldable pub write_data : RingQueue → List ℕ → ℕ → RingQueue
write_data r bytes len = record r {
  data_buf = write_parts r.data_buf r.data_buf_size (place r r.write_head) bytes len;
  write_head = add32 r.write_head len;
}

unfoldable pub read_data : RingQueue → ℕ → List ℕ × RingQueue
read_data r len = (
  read_parts r.data_buf r.data_buf_size (place r r.read_tail) len,
  record r { read_tail = add32 r.read_tail len },
)

-- What `Push` does between taking the write lock and giving it back: `true` is the result 0.
unfoldable pub push_locked : RingQueue → List ℕ → ℕ → Bool × RingQueue
push_locked r bytes len =
    if ltb (remaining_space r) (len + data_head_len)
    then (false, r)
    else let r1 = write_data r (encode32u len) data_head_len in
      let r2 = write_data r1 bytes len in (true, record r2 { head = r2.write_head })

abbrev pub release_write : Bool × RingQueue → Bool × RingQueue
release_write (done, r) = (done, record r { on_write = false })

-- `Push`. `none`: the lock is held, and the loop at the top spins until another thread frees it.
unfoldable pub push : RingQueue → List ℕ → ℕ → Option (Bool × RingQueue)
push r bytes len =
    if r.on_write
    then none
    else some (release_write (push_locked (record r { on_write = true }) bytes len))

-- What `Pop` does under the read lock: the message that goes to `pData`, and its length.
unfoldable pub pop_locked : RingQueue → Option (List ℕ) × ℕ × RingQueue
pop_locked r =
    if is_empty r
    then (none, 0, r)
    else let (head, r1) = read_data r data_head_len in
      let len = (decode32u head).0 in
      let (bytes, r2) = read_data r1 len in (some bytes, len, record r2 { tail = r2.read_tail })

abbrev pub release_read : Option (List ℕ) × ℕ × RingQueue → Option (List ℕ) × ℕ × RingQueue
release_read (bytes, len, r) = (bytes, len, record r { on_read = false })

-- `Pop`, with the same lock on the reader's side.
unfoldable pub pop : RingQueue → Option (Option (List ℕ) × ℕ × RingQueue)
pop r = if r.on_read then none else some (release_read (pop_locked (record r { on_read = true })))
