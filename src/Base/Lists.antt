-- ===== src/Base/Lists.antt =====
-- Lists measured and indexed by native numbers, under the library's names, and `memcpy` into one.
use Prim.Native.Nat.{ℕ, zero, suc, ◌+◌, ◌-◌, ◌≤◌, min}
use mathlib.Core.Path.{◌≡◌, refl, ap}
use mathlib.Core.List.{List, [], ◌∷◌, ◌++◌, append_assoc}
use native.Mathlib.Omega.{arith}
use mathlib.Core.Bool.{Bool, false, ◌||◌}
use ttserver.Base.Tests.{◌==◌, if◌then◌else◌}

module _ {ℓ} {A : Type ℓ} where
  abbrev pub length : List A → ℕ
  length [] = 0
  length (_ ∷ xs) = suc (length xs)

  abbrev pub take : ℕ → List A → List A
  take zero xs = []
  take (suc n) [] = []
  take (suc n) (x ∷ xs) = x ∷ take n xs

  abbrev pub drop : ℕ → List A → List A
  drop zero xs = xs
  drop (suc n) [] = []
  drop (suc n) (x ∷ xs) = drop n xs

  abbrev pub replicate : ℕ → A → List A
  replicate zero a = []
  replicate (suc n) a = a ∷ replicate n a

  abbrev pub head_or : List A → A → A
  head_or [] d = d
  head_or (x ∷ _) d = x

  pub length-append : (xs ys : List A) → length (xs ++ ys) ≡ length xs + length ys
  length-append [] ys = omega arith
  length-append (x ∷ xs) ys = omega (arith, length-append xs ys)

  pub length-take : (n : ℕ) (xs : List A) → length (take n xs) ≡ min n (length xs)
  length-take zero xs = omega arith
  length-take (suc n) [] = omega arith
  length-take (suc n) (x ∷ xs) = omega (arith, length-take n xs)

  pub length-drop : (n : ℕ) (xs : List A) → length (drop n xs) ≡ length xs - n
  length-drop zero xs = omega arith
  length-drop (suc n) [] = omega arith
  length-drop (suc n) (x ∷ xs) = omega (arith, length-drop n xs)

  pub length-replicate : (n : ℕ) (a : A) → length (replicate n a) ≡ n
  length-replicate zero a = refl
  length-replicate (suc n) a = ap suc (length-replicate n a)

  pub take-append-drop : (n : ℕ) (xs : List A) → take n xs ++ drop n xs ≡ xs
  take-append-drop zero xs = refl
  take-append-drop (suc n) [] = refl
  take-append-drop (suc n) (x ∷ xs) = ap (λ r. x ∷ r) (take-append-drop n xs)

  pub take-eq_self : (n : ℕ) (xs : List A) → length xs ≤ n → take n xs ≡ xs
  take-eq_self zero [] h = refl
  take-eq_self zero (x ∷ xs) h = absurd (omega arith)
  take-eq_self (suc n) [] h = refl
  take-eq_self (suc n) (x ∷ xs) h = ap (λ r. x ∷ r) (take-eq_self n xs (omega arith))

  -- The first `n` of a list that begins with exactly `n` elements.
  pub take-append : (xs ys : List A) (n : ℕ) → length xs ≡ n → take n (xs ++ ys) ≡ xs
  take-append [] ys zero e = refl
  take-append [] ys (suc n) e = absurd (omega arith)
  take-append (x ∷ xs) ys zero e = absurd (omega arith)
  take-append (x ∷ xs) ys (suc n) e = ap (λ r. x ∷ r) (take-append xs ys n (omega arith))

  pub drop-append : (xs ys : List A) (n : ℕ) → length xs ≡ n → drop n (xs ++ ys) ≡ ys
  drop-append [] ys zero e = refl
  drop-append [] ys (suc n) e = absurd (omega arith)
  drop-append (x ∷ xs) ys zero e = absurd (omega arith)
  drop-append (x ∷ xs) ys (suc n) e = drop-append xs ys n (omega arith)

-- `memcpy(buff + off, bytes, length bytes)`: the bytes replace as many from `off` on.
module _ {ℓ} {A : Type ℓ} where
  unfoldable pub memcpy : List A → ℕ → List A → List A
  memcpy buff off bytes = take off buff ++ (bytes ++ drop (off + length bytes) buff)

  pub length-memcpy :
      (buff : List A) (off : ℕ) (bytes : List A)
      → off + length bytes ≤ length buff
      → length (memcpy buff off bytes) ≡ length buff
  unfolding memcpy
  length-memcpy buff off bytes h = omega (
    arith,
    length-append (take off buff) (bytes ++ drop (off + length bytes) buff),
    length-append bytes (drop (off + length bytes) buff),
    length-take off buff,
    length-drop (off + length bytes) buff,
  )

  -- What stands from `off` on after the copy.
  pub drop-memcpy :
      (buff : List A) (off : ℕ) (bytes : List A)
      → off + length bytes ≤ length buff
      → drop off (memcpy buff off bytes) ≡ bytes ++ drop (off + length bytes) buff
  unfolding memcpy
  drop-memcpy buff off bytes h =
      drop-append (take off buff) (bytes ++ drop (off + length bytes) buff) off
        (omega (arith, length-take off buff))

  -- What stands before `off` is as it was.
  pub take-memcpy :
      (buff : List A) (off : ℕ) (bytes : List A)
      → off + length bytes ≤ length buff
      → take off (memcpy buff off bytes) ≡ take off buff
  unfolding memcpy
  take-memcpy buff off bytes h =
      take-append (take off buff) (bytes ++ drop (off + length bytes) buff) off
        (omega (arith, length-take off buff))

  -- What stands behind the copied bytes is as it was.
  pub drop-memcpy_after :
      (buff : List A) (off n : ℕ) (bytes : List A)
      → n ≡ off + length bytes
      → n ≤ length buff
      → drop n (memcpy buff off bytes) ≡ drop n buff
  unfolding memcpy
  drop-memcpy_after buff off n bytes e h =
      rw (← append_assoc (take off buff) bytes (drop (off + length bytes) buff), e)
        (drop-append (take off buff ++ bytes) (drop (off + length bytes) buff) (off + length bytes)
          (omega (arith, length-append (take off buff) bytes, length-take off buff)))

-- Lists of numbers: whether one is there, and the list without its first occurrence.
unfoldable pub mem : ℕ → List ℕ → Bool
mem p [] = false
mem p (q ∷ xs) = (p == q) || mem p xs

unfoldable pub erase : ℕ → List ℕ → List ℕ
erase p [] = []
erase p (q ∷ xs) = if p == q then xs else q ∷ erase p xs
