-- ===== src/Ring/Masks.antt =====
-- `x & (size - 1)` is `x % size` for a power of two.
use Prim.Native.Nat.{bit_and, digits, bit_and-bitwise}
use native.Mathlib.Nat.{
  pow-suc, zero-mod, one-le-pow, div-add-mod, mod-lt, mod-eq_of_lt, mul-add-mod_self_left,
}
use mathlib.Core.Path.{◌≡⟨◌⟩◌, ◌∎}
use ttserver.Base.{
  ℕ, zero, suc, ◌+◌, ◌-◌, ◌*◌, ◌/◌, ◌%◌, ◌^◌, ◌≤◌, ◌<◌, min, ◌≡◌, sym, ap, ◌∙◌, arith,
}

-- The remainder by an even number, from its halves.
mod_double : (x m : ℕ) → 0 < m → x % (m * 2) ≡ (x / 2 % m) * 2 + x % 2
mod_double x m h =
    x % (m * 2)
    ≡⟨ ap (λ (t : ℕ). t % (m * 2)) split ⟩ (m * 2 * (x / 2 / m) + low) % (m * 2)
    ≡⟨ mul-add-mod_self_left (m * 2) (x / 2 / m) low ⟩ low % (m * 2)
    ≡⟨ mod-eq_of_lt {n = low} {m = m * 2} (omega (arith, mod-lt (x / 2) h)) ⟩ low ∎
  where
    low : ℕ
    low = (x / 2 % m) * 2 + x % 2

    split : x ≡ m * 2 * (x / 2 / m) + low
    split = omega (arith, div-add-mod (x / 2) m)

two-pow_pos : (k : ℕ) → 1 ≤ 2 ^ k
two-pow_pos k = one-le-pow k 2 (omega arith)

-- The mask of one more bit, halved, and its lowest bit.
mask_half : (k : ℕ) → ((2 ^ suc k - 1) / 2 ≡ 2 ^ k - 1) × ((2 ^ suc k - 1) % 2 ≡ 1)
mask_half k = omega (arith, pow-suc 2 k, two-pow_pos k)

low_digits : (k n x : ℕ) → x ≤ n → digits (λ b. zero) min n x (2 ^ k - 1) ≡ x % 2 ^ k
low_digits k zero zero h = sym (zero-mod (2 ^ k))
low_digits k zero (suc x) h = absurd (omega arith)
low_digits k (suc n) zero h = sym (zero-mod (2 ^ k))
low_digits zero (suc n) (suc x) h = omega (arith, low_digits zero n (suc x / 2) (omega arith))
low_digits (suc k) (suc n) (suc x) h =
    rw ((mask_half k).0, (mask_half k).1, low_digits k n (suc x / 2) (omega arith), pow-suc 2 k)
      (omega (arith, mod_double (suc x) (2 ^ k) (two-pow_pos k)))

pub bit_and-mask : (x k : ℕ) → bit_and x (2 ^ k - 1) ≡ x % 2 ^ k
bit_and-mask x k = bit_and-bitwise x (2 ^ k - 1) ∙ low_digits k x x (omega arith)
