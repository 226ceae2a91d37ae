-- ===== src/Ring/Contents.antt =====
-- The invariant of the ring, and what `WriteData` and `ReadData` do to the bytes that it holds.
use Prim.Native.Nat.{◌∣◌}
use native.Mathlib.Nat.{
  mod-mod_of_dvd, mod-lt, mod-add-div, dvd_refl, dvd-mul_right_of_dvd, pow-suc, one-le-pow,
  pow-le-pow_right,
}
use native.Mathlib.Decide.{dec_le}
use ttserver.Base.{
  ◌↔◌, true, ==_iff, ◌==◌, ℕ, zero, suc, ◌+◌, ◌-◌, ◌*◌, ◌/◌, ◌%◌, ◌^◌, ◌≤◌, ◌<◌, ◌≡◌, refl, sym, ap,
  ◌∙◌, List, ◌++◌, arith, length,
}
use ttserver.Ring.Defs.{RingQueue, sub32, remaining_space, is_empty, place, write_data, read_data}
use ttserver.Ring.Masks.{bit_and-mask}
use ttserver.Ring.Windows.{window}
use ttserver.Ring.Parts.{window-write, read_parts-window}

-- The size is a power of two within half of the counters' range; the counters are those of a byte
-- stream, taken modulo 2 ^ 32, and no read or write is half done.
pub record IsValid (r : RingQueue) : Type 0 where
  pub log_size : ℕ
  pub power : r.data_buf_size ≡ 2 ^ log_size
  pub small : log_size ≤ 31
  pub read : ℕ
  pub used : ℕ
  pub fits : used ≤ r.data_buf_size
  pub tail_eq : r.tail ≡ read % 2 ^ 32
  pub head_eq : r.head ≡ (read + used) % 2 ^ 32
  pub write_done : r.write_head ≡ r.head
  pub read_done : r.read_tail ≡ r.tail

-- The bytes written and not yet read.
abbrev pub stored : (r : RingQueue) → IsValid r → List ℕ
stored r v = window r.data_buf r.data_buf_size v.read v.used

power_divides : (k m : ℕ) → k ≤ m → 2 ^ k ∣ 2 ^ m
power_divides k zero h = rw (let e : k ≡ 0 = omega arith in e) (dvd_refl (2 ^ 0))
power_divides k (suc m) h = elim (dec_le k m) [
  | yes p ↦ rw (pow-suc 2 m) (dvd-mul_right_of_dvd (2 ^ k) (power_divides k m p) 2)
  | no p ↦ rw (let e : k ≡ suc m = omega arith in e) (dvd_refl (2 ^ suc m))
]

module _ (r : RingQueue) (k : ℕ) (power : r.data_buf_size ≡ 2 ^ k) (small : k ≤ 31) where
  pub size_bounds : (0 < r.data_buf_size) × (r.data_buf_size ≤ 2 ^ 31)
  size_bounds = omega (
    arith,
    one-le-pow k 2 (omega arith),
    pow-le-pow_right {n = 2} (omega arith) {i = k} {j = 31} small,
  )

  -- The place of a counter depends on the stream position only.
  place-mod : (p : ℕ) → place r (p % 2 ^ 32) ≡ p % r.data_buf_size
  unfolding place
  place-mod p =
      let mask : sub32 r.data_buf_size 1 ≡ 2 ^ k - 1 = omega (arith, size_bounds) in
      rw (mask, bit_and-mask (p % 2 ^ 32) k, power)
        (mod-mod_of_dvd (2 ^ k) p (power_divides k 32 (omega arith)))

  split : (p : ℕ) → p ≡ p % r.data_buf_size + r.data_buf_size * (p / r.data_buf_size)
  split p = sym (mod-add-div p r.data_buf_size)

  -- `WriteData` at the end of a window of stored bytes extends it.
  pub window-write_data :
      (bytes : List ℕ) (len t n : ℕ)
      → length bytes ≡ len
      → r.write_head ≡ (t + n) % 2 ^ 32
      → n + len ≤ r.data_buf_size
      → window (write_data r bytes len).data_buf r.data_buf_size t (n + len)
        ≡ window r.data_buf r.data_buf_size t n ++ bytes
  unfolding write_data
  window-write_data bytes len t n e at_end h = rw (ap (place r) at_end ∙ place-mod (t + n)) (
      window-write r.data_buf_size size_bounds.1 ((t + n) % r.data_buf_size)
        (mod-lt (t + n) size_bounds.0) r.data_buf bytes len (t + n) t n ((t + n) / r.data_buf_size)
        e (split (t + n)) refl h)

  -- `ReadData` gives the window at the reader's counter.
  pub read_data-window :
      (p n : ℕ)
      → r.read_tail ≡ p % 2 ^ 32
      → n ≤ r.data_buf_size
      → (read_data r n).0 ≡ window r.data_buf r.data_buf_size p n
  unfolding read_data
  read_data-window p n at_start h = rw (ap (place r) at_start ∙ place-mod p) (
      read_parts-window r.data_buf_size size_bounds.1 (p % r.data_buf_size) (mod-lt p size_bounds.0)
        r.data_buf p (p / r.data_buf_size) n (split p) h)

-- `RemainingSpace` is the room that is left, and `Empty` says that nothing is stored.
pub remaining_space-eq :
    (r : RingQueue) (v : IsValid r) → remaining_space r ≡ r.data_buf_size - v.used
unfolding remaining_space
remaining_space-eq r v =
    rw (v.head_eq, v.tail_eq) (omega (arith, v.fits, size_bounds r v.log_size v.power v.small))

pub is_empty_iff : (r : RingQueue) (v : IsValid r) → (is_empty r ≡ true) ↔ (v.used ≡ 0)
unfolding is_empty
is_empty_iff r v = (
  (λ e. omega (arith, same e, v.head_eq, v.tail_eq, v.fits, bounds)),
  λ e. (==_iff r.head r.tail).1 (omega (arith, e, v.head_eq, v.tail_eq)),
)
  where
    bounds : (0 < r.data_buf_size) × (r.data_buf_size ≤ 2 ^ 31)
    bounds = size_bounds r v.log_size v.power v.small

    same : (r.head == r.tail) ≡ true → r.head ≡ r.tail
    same = (==_iff r.head r.tail).0
