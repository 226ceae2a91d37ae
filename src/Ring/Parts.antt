-- ===== src/Ring/Parts.antt =====
-- The two-part copies of `ReadData` and `WriteData` against the window of a counter.
use native.Mathlib.Nat.{add-mod_right}
use ttserver.Base.{
  ℕ, ◌+◌, ◌-◌, ◌*◌, ◌%◌, ◌^◌, ◌≤◌, ◌<◌, ◌≡◌, refl, sym, ap, ap₂, ◌∙◌, ◌⊎◌, inl, inr, List, ◌++◌,
  append-nil, arith, length, take, drop, length-take, length-drop, take-append-drop, take-eq_self,
  subst, ltb, Bool-cases,
}
use ttserver.Ring.Defs.{copy_in, copy_out, min_len, sub32, write_parts, read_parts}
use ttserver.Ring.Copies.{copy_in_outside, copy_out-ext, copy_out-copy_in}
use ttserver.Ring.Windows.{window, window-add, window-ext, place_near, place_far, window-copy_out}

-- The buffer, its size within half of the counters' range, and a counter at the place `c`.
module _ (size : ℕ) (small : size ≤ 2 ^ 31) (c : ℕ) (inside : c < size) where
  room_ahead : sub32 size c ≡ size - c
  room_ahead = omega arith

  -- `ReadData` gives the bytes from the counter on.
  pub read_parts-window :
      (mem : ℕ → ℕ) (p q n : ℕ)
      → p ≡ c + size * q
      → n ≤ size
      → read_parts mem size c n ≡ window mem size p n
  unfolding read_parts min_len copy_out
  read_parts-window mem p q n e h = elim (Bool-cases (ltb n (size - c))) [
    | inl near ↦
        let none_left : n - n ≡ 0 = omega arith in
        rw (room_ahead, near, none_left, append-nil)
          (sym (window-copy_out size mem p c q n e (ground arith)))
    | inr far ↦
        rw (room_ahead, far)
          (sym (
            ap (window mem size p) (split (ground arith))
            ∙ (window-add mem size p (size - c) (n - (size - c)) (p + (size - c)) refl
                ∙ ap₂ ◌++◌ (window-copy_out size mem p c q (size - c) e (omega arith)) (
                    window-copy_out size mem (p + (size - c)) 0 (q + 1) (n - (size - c))
                      (omega arith) (omega arith)))))
  ]
    where
      split : size - c ≤ n → n ≡ size - c + (n - (size - c))
      split far = omega arith

  -- The lengths of the two parts of a write.
  first_part : ℕ → ℕ
  first_part len = min_len len (size - c)

  first_part_bounds :
      (len : ℕ)
      → len ≤ size
      → (first_part len ≤ len)
        × (c + first_part len ≤ size)
        × (len - first_part len ≤ c)
        × ((first_part len ≡ len) ⊎ (c + first_part len ≡ size))
  unfolding first_part min_len
  first_part_bounds len h = ground arith

  write_parts-eq :
      (mem : ℕ → ℕ) (bytes : List ℕ) (len : ℕ)
      → write_parts mem size c bytes len
        ≡ copy_in
            (copy_in mem c (take (first_part len) bytes))
            0
            (take (len - first_part len) (drop (first_part len) bytes))
  unfolding write_parts first_part
  write_parts-eq mem bytes len = rw room_ahead

  read_parts-eq :
      (mem : ℕ → ℕ) (len : ℕ)
      → read_parts mem size c len
        ≡ copy_out mem c (first_part len) ++ copy_out mem 0 (len - first_part len)
  unfolding read_parts first_part
  read_parts-eq mem len = rw room_ahead

  -- The parts of the bytes have the lengths of the parts.
  part_lengths :
      (bytes : List ℕ) (len : ℕ)
      → length bytes ≡ len
      → len ≤ size
      → (length (take (first_part len) bytes) ≡ first_part len)
        × (length (take (len - first_part len) (drop (first_part len) bytes))
            ≡ len - first_part len)
  part_lengths bytes len e h = omega (
    arith,
    first_part_bounds len h,
    length-take (first_part len) bytes,
    length-take (len - first_part len) (drop (first_part len) bytes),
    length-drop (first_part len) bytes,
  )

  untouched :
      (mem : ℕ → ℕ) (bytes : List ℕ) (len j : ℕ)
      → length bytes ≡ len
      → len ≤ size
      → (j < c) ⊎ (c + first_part len ≤ j)
      → len - first_part len ≤ j
      → write_parts mem size c bytes len j ≡ mem j
  untouched mem bytes len j e h apart low = rw (write_parts-eq mem bytes len) (
      copy_in_outside _ 0 _ j (inr (omega (arith, part_lengths bytes len e h)))
      ∙ copy_in_outside mem c _ j (omega (arith, part_lengths bytes len e h)))

  -- `WriteData` leaves the bytes ahead of the written ones alone.
  pub write_parts-outside :
      (mem : ℕ → ℕ) (bytes : List ℕ) (len q d : ℕ)
      → length bytes ≡ len
      → len ≤ d
      → d < size
      → let j = (c + size * q + d) % size in write_parts mem size c bytes len j ≡ mem j
  write_parts-outside mem bytes len q d e h hd = elim (Bool-cases (ltb (c + d) size)) [
    | inl near ↦ rw (place_near size c q d (ground arith)) (
        untouched mem bytes len (c + d) e (omega arith)
          (inr (omega (arith, first_part_bounds len (omega arith)))) (omega arith))
    | inr far ↦ rw (place_far size c q d inside hd (ground arith)) (
        untouched mem bytes len (c + d - size) e (omega arith) (inl (below (ground arith)))
          (low (ground arith)))
  ]
    where
      below : size ≤ c + d → c + d - size < c
      below far = omega arith

      low : size ≤ c + d → len - first_part len ≤ c + d - size
      low far = omega (arith, first_part_bounds len (omega arith))

  -- The bytes that it writes are those of the window at its counter.
  pub write_parts-inside :
      (mem : ℕ → ℕ) (bytes : List ℕ) (len p q : ℕ)
      → length bytes ≡ len
      → len ≤ size
      → p ≡ c + size * q
      → window (write_parts mem size c bytes len) size p len ≡ bytes
  write_parts-inside mem bytes len p q e h ep =
      sym (read_parts-window (write_parts mem size c bytes len) p q len ep h)
      ∙ (read_parts-eq (write_parts mem size c bytes len) len ∙ (ap₂ ◌++◌ first second ∙ together))
    where
      part1 : List ℕ
      part1 = take (first_part len) bytes

      part2 : List ℕ
      part2 = take (len - first_part len) (drop (first_part len) bytes)

      copied : ℕ → ℕ
      copied = copy_in mem c part1

      first : copy_out (write_parts mem size c bytes len) c (first_part len) ≡ part1
      first = rw (write_parts-eq mem bytes len) (
          copy_out-ext (copy_in copied 0 part2) copied c (first_part len) (λ i lo hi.
            copy_in_outside copied 0 part2 i
              (inr (omega (arith, part_lengths bytes len e h, first_part_bounds len h))))
          ∙ (ap (copy_out copied c) (sym (part_lengths bytes len e h).0)
              ∙ copy_out-copy_in mem c part1))

      second : copy_out (write_parts mem size c bytes len) 0 (len - first_part len) ≡ part2
      second = rw (write_parts-eq mem bytes len) (
          ap (copy_out (copy_in copied 0 part2) 0) (sym (part_lengths bytes len e h).1)
          ∙ copy_out-copy_in copied 0 part2)

      together : part1 ++ part2 ≡ bytes
      together =
          rw
            (take-eq_self (len - first_part len) (drop (first_part len) bytes)
              (omega (arith, length-drop (first_part len) bytes)))
            (take-append-drop (first_part len) bytes)

  -- A write behind a window of bytes extends it.
  pub window-write :
      (mem : ℕ → ℕ) (bytes : List ℕ) (len p t n q : ℕ)
      → length bytes ≡ len
      → p ≡ c + size * q
      → p ≡ t + n
      → n + len ≤ size
      → window (write_parts mem size c bytes len) size t (n + len) ≡ window mem size t n ++ bytes
  window-write mem bytes len p t n q e ep et h =
      window-add (write_parts mem size c bytes len) size t n len p et
      ∙ ap₂ ◌++◌ (window-ext (write_parts mem size c bytes len) mem size t n same)
          (write_parts-inside mem bytes len p q e (omega arith) ep)
    where
      same :
          (j : ℕ) → t ≤ j → j < t + n → write_parts mem size c bytes len (j % size) ≡ mem (j % size)
      same j lo hi =
          subst (λ (k : ℕ). write_parts mem size c bytes len k ≡ mem k) ahead
            (write_parts-outside mem bytes len q (size + j - p) e (omega arith) (omega arith))
        where
          ahead : (c + size * q + (size + j - p)) % size ≡ j % size
          ahead = ap (λ (k : ℕ). k % size) (omega arith) ∙ add-mod_right j size
