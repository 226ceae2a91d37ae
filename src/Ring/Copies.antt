-- ===== src/Ring/Copies.antt =====
-- `memcpy` into and out of the ring's memory.
use ttserver.Base.{
  ℕ, zero, suc, ◌+◌, ◌-◌, ◌≤◌, ◌<◌, ◌≡◌, refl, ap, ap₂, ◌⊎◌, inl, inr, List, [], ◌∷◌, arith, length,
  ltb-false,
}
use ttserver.Ring.Defs.{get_or, copy_in, copy_out}

pub get_or_out : (bytes : List ℕ) (i d : ℕ) → length bytes ≤ i → get_or bytes i d ≡ d
get_or_out [] i d h = refl
get_or_out (x ∷ xs) zero d h = absurd (omega arith)
get_or_out (x ∷ xs) (suc i) d h = get_or_out xs i d (omega arith)

-- Outside the range that is written the memory is as it was.
pub copy_in_outside :
    (mem : ℕ → ℕ) (off : ℕ) (bytes : List ℕ) (i : ℕ)
    → (i < off) ⊎ (off + length bytes ≤ i)
    → copy_in mem off bytes i ≡ mem i
unfolding copy_in
copy_in_outside mem off bytes i (inl h) = ground arith
copy_in_outside mem off bytes i (inr h) =
    ground (arith, get_or_out bytes (i - off) (mem i) (omega arith))

pub length-copy_out : (mem : ℕ → ℕ) (off n : ℕ) → length (copy_out mem off n) ≡ n
unfolding copy_out
length-copy_out mem off zero = refl
length-copy_out mem off (suc n) = ap suc (length-copy_out mem (suc off) n)

-- Two memories that agree on a range give the same bytes.
pub copy_out-ext :
    (mem mem' : ℕ → ℕ) (off n : ℕ)
    → ((i : ℕ) → off ≤ i → i < off + n → mem i ≡ mem' i)
    → copy_out mem off n ≡ copy_out mem' off n
unfolding copy_out
copy_out-ext mem mem' off zero same = refl
copy_out-ext mem mem' off (suc n) same =
    ap₂ ◌∷◌ (same off (omega arith) (omega arith))
      (copy_out-ext mem mem' (suc off) n (λ i lo hi. same i (omega arith) (omega arith)))

-- Reading a range in a memory whose bytes there are those of a list.
copy_out-list :
    (mem : ℕ → ℕ) (off : ℕ) (bytes : List ℕ)
    → ((i j : ℕ) → j ≡ off + i → i < length bytes → mem j ≡ get_or bytes i 0)
    → copy_out mem off (length bytes) ≡ bytes
unfolding copy_out
copy_out-list mem off [] h = refl
copy_out-list mem off (x ∷ xs) h =
    ap₂ ◌∷◌ (h 0 off (omega arith) (omega arith))
      (copy_out-list mem (suc off) xs (λ i j e lt. h (suc i) j (omega arith) (omega arith)))

pub get_or_in :
    (bytes : List ℕ) (i d e : ℕ) → i < length bytes → get_or bytes i d ≡ get_or bytes i e
get_or_in [] i d e h = absurd (omega arith)
get_or_in (x ∷ xs) zero d e h = refl
get_or_in (x ∷ xs) (suc i) d e h = get_or_in xs i d e (omega arith)

-- What was copied in is copied out again.
pub copy_out-copy_in :
    (mem : ℕ → ℕ) (off : ℕ) (bytes : List ℕ)
    → copy_out (copy_in mem off bytes) off (length bytes) ≡ bytes
unfolding copy_in
copy_out-copy_in mem off bytes = copy_out-list (copy_in mem off bytes) off bytes λ i j e h. rw (
  ltb-false j off (omega arith),
  (let e' : j - off ≡ i = omega arith in e'),
  get_or_in bytes i (mem j) 0 h,
)
