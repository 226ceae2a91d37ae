-- ===== src/Ring/Windows.antt =====
-- The bytes between two counters, as the abstract view of the ring's memory.
use native.Mathlib.Nat.{add-mul-mod_self_left, mod-eq_of_lt}
use ttserver.Base.{
  ℕ, zero, suc, ◌+◌, ◌-◌, ◌*◌, ◌%◌, ◌≤◌, ◌<◌, ◌≡◌, refl, ap, ap₂, ◌∙◌, List, [], ◌∷◌, ◌++◌, arith,
  length,
}
use ttserver.Ring.Defs.{copy_out}

-- The `n` bytes from the counter `p` on, going round at `size`.
unfoldable pub window : (ℕ → ℕ) → ℕ → ℕ → ℕ → List ℕ
window mem size p zero = []
window mem size p (suc n) = mem (p % size) ∷ window mem size (suc p) n

pub length-window : (mem : ℕ → ℕ) (size p n : ℕ) → length (window mem size p n) ≡ n
unfolding window
length-window mem size p zero = refl
length-window mem size p (suc n) = ap suc (length-window mem size (suc p) n)

pub window-add :
    (mem : ℕ → ℕ) (size p m n k : ℕ)
    → k ≡ p + m
    → window mem size p (m + n) ≡ window mem size p m ++ window mem size k n
unfolding window
window-add mem size p zero n k e = ap₂ (window mem size) (omega arith) (omega arith)
window-add mem size p (suc m) n k e =
    let e2 : suc m + n ≡ suc (m + n) = omega arith in
    rw e2 (ap (λ r. mem (p % size) ∷ r) (window-add mem size (suc p) m n k (omega arith)))

pub window-ext :
    (mem mem' : ℕ → ℕ) (size p n : ℕ)
    → ((j : ℕ) → p ≤ j → j < p + n → mem (j % size) ≡ mem' (j % size))
    → window mem size p n ≡ window mem' size p n
unfolding window
window-ext mem mem' size p zero same = refl
window-ext mem mem' size p (suc n) same =
    ap₂ ◌∷◌ (same p (omega arith) (omega arith))
      (window-ext mem mem' size (suc p) n (λ j lo hi. same j (omega arith) (omega arith)))

module _ (size : ℕ) where
  pub place_near : (c q d : ℕ) → c + d < size → (c + size * q + d) % size ≡ c + d
  place_near c q d h =
      ap (λ (t : ℕ). t % size) (omega arith)
      ∙ (add-mul-mod_self_left (c + d) size q ∙ mod-eq_of_lt h)

  pub place_far :
      (c q d : ℕ) → c < size → d < size → size ≤ c + d → (c + size * q + d) % size ≡ c + d - size
  place_far c q d hc hd h =
      ap (λ (t : ℕ). t % size) (omega arith)
      ∙ (add-mul-mod_self_left (c + d - size) size (q + 1)
          ∙ mod-eq_of_lt {n = c + d - size} {m = size} (omega arith))

  -- A window that does not reach the end of the buffer is one range.
  pub window-copy_out :
      (mem : ℕ → ℕ) (p c q n : ℕ)
      → p ≡ c + size * q
      → c + n ≤ size
      → window mem size p n ≡ copy_out mem c n
  unfolding window copy_out
  window-copy_out mem p c q zero e h = refl
  window-copy_out mem p c q (suc n) e h =
      ap₂ ◌∷◌
        (ap mem (
          ap (λ (t : ℕ). t % size) e
          ∙ (add-mul-mod_self_left c size q ∙ mod-eq_of_lt {n = c} {m = size} (omega arith))))
        (window-copy_out mem (suc p) (suc c) q n (omega arith) (omega arith))
