-- ===== src/Ring/Create.antt =====
-- The constructor: the size is rounded up to a power of two.
use Prim.Native.Nat.{bit_and, digits, bit_and-bitwise}
use native.Mathlib.Nat.{pow-suc, pow-le-pow_right, mod-eq_of_lt}
use native.Mathlib.Decide.{dec_lt}
use ttserver.Base.{
  ℕ, zero, suc, ◌-◌, ◌*◌, ◌/◌, ◌%◌, ◌^◌, ◌≤◌, ◌<◌, min, ◌≡◌, refl, sym, subst, ◌∙◌, inl, inr, true,
  false, [], arith, ltb-false, ◌==◌, ==_iff, Bool-cases,
}
use ttserver.Ring.Defs.{bit_length, round_pow_of_two, new_ring, power_size, sub32}
use ttserver.Ring.Windows.{window}
use ttserver.Ring.Queue.{Holds}

abbrev and_digits : ℕ → ℕ → ℕ → ℕ
and_digits n x y = digits (λ b. zero) min n x y

and_digits_self : (n x : ℕ) → x ≤ n → and_digits n x x ≡ x
and_digits_self zero zero h = refl
and_digits_self zero (suc x) h = absurd (omega arith)
and_digits_self (suc n) zero h = refl
and_digits_self (suc n) (suc x) h = omega (arith, and_digits_self n (suc x / 2) (omega arith))

abbrev IsPower : ℕ → Type 0
IsPower x = (k : ℕ) × (x ≡ 2 ^ k)

double-IsPower : {h x : ℕ} → x ≡ 2 * h → IsPower h → IsPower x
double-IsPower e (k, p) = (suc k, omega (arith, pow-suc 2 k))

-- `x & (x - 1)` is zero for powers of two only.
IsPower-of_and : (n x : ℕ) → x ≤ n → 0 < x → and_digits n x (x - 1) ≡ 0 → IsPower x
IsPower-of_and zero x h p e = absurd (omega arith)
IsPower-of_and (suc n) zero h p e = absurd (omega arith)
IsPower-of_and (suc n) (suc x) h p e = elim (dec_lt 0 (suc x % 2)) [
  | yes odd ↦
      let half : (suc x - 1) / 2 ≡ suc x / 2 = omega arith in
      let self : and_digits n (suc x / 2) ((suc x - 1) / 2) ≡ suc x / 2 =
        rw half (and_digits_self n (suc x / 2) (omega arith)) in
      (0, omega (arith, self))
  | no even ↦
      let half : (suc x - 1) / 2 ≡ suc x / 2 - 1 = omega arith in
      double-IsPower {h = suc x / 2} (omega arith)
        (IsPower-of_and n (suc x / 2) (omega arith) (omega arith) (rw (← half) (omega arith)))
]

bit_length-lower : (f m : ℕ) → m < 2 ^ f → m < 2 ^ bit_length f m
unfolding bit_length
bit_length-lower zero m h = h
bit_length-lower (suc f) m h = elim (Bool-cases (m == 0)) [
  | inl e ↦ rw e (omega (arith, (==_iff m 0).0 e))
  | inr e ↦ rw e (
      omega (
        arith,
        bit_length-lower f (m / 2) (omega (arith, pow-suc 2 f)),
        pow-suc 2 (bit_length f (m / 2)),
      ))
]

bit_length-le : (f k m : ℕ) → m < 2 ^ k → bit_length f m ≤ k
unfolding bit_length
bit_length-le zero k m h = omega arith
bit_length-le (suc f) zero m h =
    let e : (m == 0) ≡ true = (==_iff m 0).1 (omega arith) in rw e (omega arith)
bit_length-le (suc f) (suc k) m h = elim (Bool-cases (m == 0)) [
  | inl e ↦ rw e (omega arith)
  | inr e ↦ rw e (omega (arith, bit_length-le f k (m / 2) (omega (arith, pow-suc 2 k))))
]

bit_length-upper : (f m : ℕ) → 0 < m → m < 2 ^ f → 2 ^ bit_length f m ≤ 2 * m
unfolding bit_length
bit_length-upper zero m p h = absurd (omega arith)
bit_length-upper (suc f) m p h = elim (Bool-cases (m == 0)) [
  | inl e ↦ absurd (omega (arith, (==_iff m 0).0 e))
  | inr e ↦ rw e (elim (dec_lt 0 (m / 2)) [
    | yes q ↦ rounded_more (bit_length-upper f (m / 2) q (omega (arith, pow-suc 2 f)))
    | no q ↦ rounded_one (omega arith)
  ])
]
  where
    rounded_more : 2 ^ bit_length f (m / 2) ≤ 2 * (m / 2) → 2 ^ suc (bit_length f (m / 2)) ≤ 2 * m
    rounded_more u = omega (arith, pow-suc 2 (bit_length f (m / 2)))

    rounded_one : m / 2 ≡ 0 → 2 ^ suc (bit_length f (m / 2)) ≤ 2 * m
    rounded_one small =
        let none_left : bit_length f (m / 2) ≡ 0 =
          rw small (omega (arith, bit_length-le f 0 0 (omega arith))) in
        rw none_left (omega arith)

-- A power of two that is not below `n`, and less than twice `n`.
pub record Rounded (n size : ℕ) : Type 0 where
  pub log_size : ℕ
  pub power : size ≡ 2 ^ log_size
  pub small : log_size ≤ 31
  pub not_below : n ≤ size
  pub tight : size < 2 * n

small_log : (k : ℕ) → 2 ^ k ≤ 2 ^ 31 → k ≤ 31
small_log k h = elim (dec_lt k 32) [
  | yes p ↦ omega arith
  | no p ↦
      absurd (omega (arith, pow-le-pow_right {n = 2} (omega arith) {i = 32} {j = k} (omega arith)))
]

round_pow_of_two-Rounded : (n : ℕ) → 2 ≤ n → n ≤ 2 ^ 31 → Rounded n (round_pow_of_two n)
unfolding round_pow_of_two
round_pow_of_two-Rounded n lo hi =
    rw (ltb-false n 2 lo, mod-eq_of_lt fits)
      (record {
        log_size = bits;
        power = refl;
        small = small;
        not_below = omega (arith, bit_length-lower 32 (n - 1) (omega arith));
        tight = omega (arith, upper);
      })
  where
    bits : ℕ
    bits = bit_length 32 (n - 1)

    small : bits ≤ 31
    small = bit_length-le 32 31 (n - 1) (omega arith)

    upper : 2 ^ bits ≤ 2 * (n - 1)
    upper = bit_length-upper 32 (n - 1) (omega arith) (omega arith)

    fits : 2 ^ bits < 2 ^ 32
    fits = omega (arith, upper)

power_size-Rounded : (n : ℕ) → 0 < n → n ≤ 2 ^ 31 → Rounded n (power_size n)
power_size-Rounded n p h = elim (Bool-cases (bit_and n (sub32 n 1) == 0)) [
  | inl e ↦ rw e (kept (mask ∙ (==_iff _ 0).0 e))
  | inr e ↦ rw e (round_pow_of_two-Rounded n (not_one e (dec_lt n 2)) h)
]
  where
    less : sub32 n 1 ≡ n - 1
    less = omega arith

    mask : and_digits n n (n - 1) ≡ bit_and n (sub32 n 1)
    mask = rw less (sym (bit_and-bitwise n (n - 1)))

    kept : and_digits n n (n - 1) ≡ 0 → Rounded n n
    kept e =
        let (k, q) = IsPower-of_and n n (omega arith) p e in
        record {
          log_size = k;
          power = q;
          small = small_log k (omega arith);
          not_below = omega arith;
          tight = omega arith;
        }

    not_one : (bit_and n (sub32 n 1) == 0) ≡ false → Dec (n < 2) → 2 ≤ n
    not_one e (yes q) =
        let one : n ≡ 1 = omega arith in
        let e' : (bit_and 1 (sub32 1 1) == 0) ≡ false =
          subst (λ (k : ℕ). (bit_and k (sub32 k 1) == 0) ≡ false) one e in
        cc
    not_one e (no q) = omega arith

-- A new ring, for a size from 1 to 2 ^ 31, is well formed and holds no message, and its buffer is
-- a power of two that is not below the size asked for and less than twice it.
pub new_ring-Holds :
    (mem : ℕ → ℕ) (n : ℕ)
    → 0 < n
    → n ≤ 2 ^ 31
    → Holds (new_ring mem n) [] × Rounded n (new_ring mem n).data_buf_size
unfolding new_ring window
new_ring-Holds mem n p h =
    let s = power_size-Rounded n p h in
    (
      record {
        valid = record {
          log_size = s.log_size;
          power = s.power;
          small = s.small;
          read = 0;
          used = 0;
          fits = omega arith;
          tail_eq = refl;
          head_eq = refl;
          write_done = refl;
          read_done = refl;
        };
        bytes = refl;
        words = tt;
        write_free = refl;
        read_free = refl;
      },
      s,
    )
