-- ===== src/Logger/Turns.antt =====
-- The files of src/logger/Appender/RotateAppender.cpp: which names are opened, and how much is written.
use ttserver.Base.{
  ℕ, ◌+◌, ◌≤◌, ◌<◌, ◌≡◌, refl, subst, ◌∙◌, true, false, ◌&&◌, List, [], ◌∷◌, ◌++◌, ltb, leb, ◌==◌,
  if◌then◌else◌, take, length, arith, length-take, Bool-cases, inl, inr,
}
use native.Mathlib.Nat.{mod-eq_of_lt, mod_self}
use ttserver.Logger.Text.{strncpy}
use ttserver.Logger.Format.{Text}
use ttserver.Logger.Rotate.{
  Effect, mkdir, fopen, fwrite, Answers, RotateAppender, file_name, next_id, open_current,
  turn_file, check_size, open_file, write_record,
}

-- The numbers go round from 1 to `max_file_num`.
pub next_id-turn :
    (id max_num : ℕ)
    → 1 ≤ id
    → id ≤ max_num
    → next_id id max_num ≡ (if id == max_num then 1 else id + 1)
unfolding next_id
next_id-turn id max_num low high = elim (Bool-cases (id == max_num)) [
  | inl e ↦ let same : id ≡ max_num = ground arith in rw (e, same, mod_self (max_num + 1)) refl
  | inr e ↦
      let less : id + 1 < max_num + 1 = ground arith in rw (e, mod-eq_of_lt less) (ground arith)
]

-- The number is one of 1 to `max_file_num`, and the name is the one with that number.
unfoldable pub IsTurning : RotateAppender → Type 0
IsTurning r =
    (1 ≤ r.cur_file_id)
    × (r.cur_file_id ≤ r.max_file_num)
    × (r.cur_file_name ≡ file_name r.dir_name r.log_name r.cur_file_id)

-- Each file that the effects open has such a name, and nothing longer than 512 bytes is written.
unfoldable pub IsBounded : Text → Text → ℕ → Effect → Type 0
IsBounded dir log max_num (fopen name) =
    (id : ℕ) × (1 ≤ id) × (id ≤ max_num) × (name ≡ file_name dir log id)
IsBounded dir log max_num (fwrite text) = length text ≤ 512
IsBounded dir log max_num _ = Unit

unfoldable pub AreBounded : Text → Text → ℕ → List Effect → Type 0
AreBounded dir log max_num [] = Unit
AreBounded dir log max_num (e ∷ es) = IsBounded dir log max_num e × AreBounded dir log max_num es

module _ (dir log : Text) (max_num : ℕ) where
  pub AreBounded-append :
      (xs ys : List Effect)
      → AreBounded dir log max_num xs
      → AreBounded dir log max_num ys
      → AreBounded dir log max_num (xs ++ ys)
  unfolding AreBounded
  AreBounded-append [] ys hx hy = hy
  AreBounded-append (x ∷ xs) ys hx hy = (hx.0, AreBounded-append xs ys hx.1 hy)

-- What a call keeps of the appender and does outside.
unfoldable pub Kept : RotateAppender → RotateAppender × List Effect → Type 0
Kept r (r1, effects) =
    IsTurning r1
    × (r1.dir_name ≡ r.dir_name)
    × (r1.log_name ≡ r.log_name)
    × (r1.max_file_num ≡ r.max_file_num)
    × (r1.formatter ≡ r.formatter)
    × AreBounded r.dir_name r.log_name r.max_file_num effects

open_current-Kept : (r : RotateAppender) (a : Answers) → IsTurning r → Kept r (open_current r a)
unfolding open_current Kept IsTurning AreBounded IsBounded
open_current-Kept r a h =
    let opened : IsBounded r.dir_name r.log_name r.max_file_num (fopen r.cur_file_name) =
      (r.cur_file_id, h.0, h.1, h.2) in
    elim (Bool-cases r.is_open) [
      | inl e ↦ simp e (h, refl, refl, refl, refl, tt)
      | inr e ↦ elim (Bool-cases a.opens_append) [
        | inl f ↦ simp (e, f) (h, refl, refl, refl, refl, (opened, tt))
        | inr f ↦ simp (e, f) (h, refl, refl, refl, refl, (opened, (opened, tt)))
      ]
    ]

turn_file-Kept : (r : RotateAppender) (a : Answers) → IsTurning r → Kept r (turn_file r a)
unfolding turn_file Kept IsTurning AreBounded IsBounded
turn_file-Kept r a (low, high, named) =
    let id = next_id r.cur_file_id r.max_file_num in
    let turn = next_id-turn r.cur_file_id r.max_file_num low high in
    let low1 : 1 ≤ id = ground arith in
    let high1 : id ≤ r.max_file_num = ground arith in
    ((low1, high1, refl), refl, refl, refl, refl, (tt, ((id, low1, high1, refl), tt)))

check_size-Kept : (r : RotateAppender) (a : Answers) → IsTurning r → Kept r (check_size r a)
unfolding check_size Kept AreBounded
check_size-Kept r a h = elim (Bool-cases (r.is_open && leb r.max_file_size a.st_size)) [
  | inl e ↦ rw e (turn_file-Kept r a h)
  | inr e ↦ rw e (h, refl, refl, refl, refl, tt)
]

-- Two calls in a row.
pub Kept-trans :
    (r : RotateAppender) (s t : RotateAppender × List Effect)
    → Kept r s
    → Kept s.0 t
    → Kept r (t.0, s.1 ++ t.1)
unfolding Kept
Kept-trans r (r1, es) (r2, fs) (turning1, dir1, log1, num1, fmt1, bounded1)
      (turning2, dir2, log2, num2, fmt2, bounded2) =
    let fits : AreBounded r.dir_name r.log_name r.max_file_num fs =
      subst (λ d. AreBounded d r.log_name r.max_file_num fs) dir1
        (subst (λ l. AreBounded r1.dir_name l r.max_file_num fs) log1
          (subst (λ n. AreBounded r1.dir_name r1.log_name n fs) num1 bounded2)) in
    (
      turning2,
      dir2 ∙ dir1,
      log2 ∙ log1,
      num2 ∙ num1,
      fmt2 ∙ fmt1,
      AreBounded-append r.dir_name r.log_name r.max_file_num es fs bounded1 fits,
    )

-- Effects in front and behind.
Kept-front :
    (r : RotateAppender) (es : List Effect) (t : RotateAppender × List Effect)
    → AreBounded r.dir_name r.log_name r.max_file_num es
    → Kept r t
    → Kept r (t.0, es ++ t.1)
unfolding Kept
Kept-front r es (r1, fs) h (turning, dir, log, num, fmt, bounded) = (
  turning,
  dir,
  log,
  num,
  fmt,
  AreBounded-append r.dir_name r.log_name r.max_file_num es fs h bounded,
)

made-AreBounded :
    (r : RotateAppender) (a : Answers) (max_num : ℕ)
    → AreBounded r.dir_name r.log_name max_num (if a.has_dir then [] else mkdir r.dir_name ∷ [])
unfolding AreBounded IsBounded
made-AreBounded r a max_num =
    elim a.has_dir
      as (λ b. AreBounded r.dir_name r.log_name max_num (if b then [] else mkdir r.dir_name ∷ [])) [
        | true ↦ tt
        | false ↦ (tt, tt)
      ]

pub open_file-Kept : (r : RotateAppender) (a : Answers) → IsTurning r → Kept r (open_file r a)
unfolding open_file Kept AreBounded
open_file-Kept r a h = elim (Bool-cases (ltb r.max_file_num r.cur_file_id)) [
  | inl e ↦ rw e (h, refl, refl, refl, refl, tt)
  | inr e ↦
      let opened = open_current-Kept r a h in
      let checked = check_size-Kept (open_current r a).0 a opened.0 in
      let both =
        Kept-trans r (open_current r a) (check_size (open_current r a).0 a) opened checked in
      rw e (
        Kept-front r (if a.has_dir then [] else mkdir r.dir_name ∷ [])
          (
            (check_size (open_current r a).0 a).0,
            (open_current r a).1 ++ (check_size (open_current r a).0 a).1,
          )
          (made-AreBounded r a r.max_file_num) both)
]

pub write_record-AreBounded :
    (r : RotateAppender) (a : Answers) (text dir log : Text) (max_num : ℕ)
    → AreBounded dir log max_num (write_record r a text)
unfolding write_record AreBounded IsBounded
write_record-AreBounded r a text dir log max_num =
    let len = if leb 512 (length text) then 512 else length text in
    let buff = strncpy 512 text in
    let short : length (take len buff) ≤ 512 = ground (arith, length-take len buff) in
    elim (Bool-cases r.is_open) [
      | inl e ↦ elim (Bool-cases (a.written == len)) [
        | inl f ↦ rw (e, f) (short, tt)
        | inr f ↦ rw (e, f) (short, (tt, tt))
      ]
      | inr e ↦ rw e (tt, tt)
    ]
