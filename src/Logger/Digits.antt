-- ===== src/Logger/Digits.antt =====
-- The decimal numbers of src/logger: `std::to_string` loses nothing, so the rotated files of
-- src/logger/Appender/RotateAppender.cpp have different names.
use ttserver.Base.{
  ℕ, zero, suc, ◌+◌, ◌-◌, ◌*◌, ◌/◌, ◌%◌, ◌^◌, ◌<◌, ◌≡◌, refl, sym, ◌∙◌, ap, [], ◌∷◌, ◌++◌, ltb,
  arith, Bool-cases, inl, inr, length, drop, drop-append,
}
use native.Mathlib.Numerals.{unary_clauses}
use ttserver.Logger.Text.{digits, to_string, number_of}
use ttserver.Logger.Format.{Text}
use ttserver.Logger.Rotate.{file_name}

number_of-append :
    (acc : ℕ) (s : Text) (c : ℕ) → number_of acc (s ++ c ∷ []) ≡ number_of acc s * 10 + (c - b'0')
unfolding number_of
number_of-append acc [] c = refl
number_of-append acc (d ∷ s) c = number_of-append (acc * 10 + (d - b'0')) s c

number_of-digits : (fuel n : ℕ) → n < 10 ^ fuel → number_of 0 (digits fuel n) ≡ n
unfolding digits number_of
number_of-digits zero n h = omega arith
number_of-digits (suc fuel) n h =
    let bound : n < 10 ^ fuel * 10 = simp unary_clauses at h in
    elim (Bool-cases (ltb n 10)) [
      | inl e ↦ rw e (omega arith)
      | inr e ↦
          rw
            (
              e,
              number_of-append 0 (digits fuel (n / 10)) (b'0' + n % 10),
              number_of-digits fuel (n / 10) (omega arith),
            )
            (omega arith)
    ]

pub number_of-to_string : (n : ℕ) → n < 10 ^ 20 → number_of 0 (to_string n) ≡ n
unfolding to_string
number_of-to_string n h = number_of-digits 20 n h

without_prefix : (pre s t : Text) → pre ++ s ≡ pre ++ t → s ≡ t
without_prefix pre s t e =
    sym (drop-append pre s (length pre) refl)
    ∙ ap (drop (length pre)) e
    ∙ drop-append pre t (length pre) refl

-- tbd
pub file_name-injective :
    (dir log : Text) (i j : ℕ)
    → i < 10 ^ 20
    → j < 10 ^ 20
    → file_name dir log i ≡ file_name dir log j
    → i ≡ j
unfolding file_name
file_name-injective dir log i j hi hj e =
    let named : log ++ (b'.' ∷ to_string i) ≡ log ++ (b'.' ∷ to_string j) =
      ap (drop 1) (without_prefix dir _ _ e) in
    let numbered : to_string i ≡ to_string j = ap (drop 1) (without_prefix log _ _ named) in
    sym (number_of-to_string i hi) ∙ ap (number_of 0) numbered ∙ number_of-to_string j hj
