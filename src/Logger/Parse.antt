-- ===== src/Logger/Parse.antt =====
-- The loop of `ParseFormatter` in src/logger/Formatter.cpp: its fuel is enough, and `Format` finds a
-- function for every item that it makes.
use ttserver.Base.{
  ℕ, zero, suc, ◌≤◌, ◌≡◌, refl, Bool, true, false, ◌&&◌, some, List, [], ◌∷◌, ◌++◌, length, arith,
  Option, ◌||◌,
}
use ttserver.Logger.{Level, LogRecord}
use ttserver.Logger.Format.{
  Text, Item, Parsed, flush, scan_format, time_format, is_bound, parse_item, parse_percent,
  parse_char, parse_loop, parse_formatter, find_item, format, pushed, starts_with, found_format,
  behind, bound_item, is_found, ItemFunc, item_format, appended,
}

scan_format-shorter : (s fmt : Text) (done : Bool) → length (scan_format s fmt done).2 ≤ length s
unfolding scan_format
scan_format-shorter [] fmt done = omega arith
scan_format-shorter (c ∷ s) fmt done =
    ground (arith, scan_format-shorter s (fmt ++ c ∷ []) (done || starts_with b'}' s))

behind-shorter : (s : Text) → length (behind s) ≤ length s
behind-shorter [] = omega arith
behind-shorter (c ∷ s) = omega arith

found_format-shorter :
    (s fmt : Text) (done : Bool) (rest : Text)
    → length rest ≤ length s
    → length (found_format s (fmt, done, rest)).1 ≤ length s
found_format-shorter s fmt true rest h = omega (arith, behind-shorter rest)
found_format-shorter s fmt false rest h = omega arith

time_format-shorter : (s : Text) → length (time_format s).1 ≤ length s
unfolding time_format
time_format-shorter [] = omega arith
time_format-shorter (c ∷ s) =
    let (fmt, done, rest) = scan_format s [] false in
    ground (arith, found_format-shorter (c ∷ s) fmt done rest, scan_format-shorter s [] false)

parse_char-shorter : (c : ℕ) (s : Text) (p : Parsed) → length (parse_char c s p).0 ≤ length s
unfolding parse_char parse_percent parse_item
parse_char-shorter c [] p = ground arith
parse_char-shorter c (k ∷ s) p = ground (arith, time_format-shorter s)

parse_loop-same :
    (f g : ℕ) (s : Text) (p : Parsed)
    → length s ≤ f
    → length s ≤ g
    → parse_loop f s p ≡ parse_loop g s p
unfolding parse_loop
parse_loop-same zero zero s p hf hg = refl
parse_loop-same zero (suc g) [] p hf hg = refl
parse_loop-same zero (suc g) (c ∷ s) p hf hg = absurd (omega arith)
parse_loop-same (suc f) zero [] p hf hg = refl
parse_loop-same (suc f) zero (c ∷ s) p hf hg = absurd (omega arith)
parse_loop-same (suc f) (suc g) [] p hf hg = refl
parse_loop-same (suc f) (suc g) (c ∷ s) p hf hg =
    let next = parse_char c s p in
    let shorter = parse_char-shorter c s p in
    parse_loop-same f g next.0 next.1 (omega arith) (omega arith)

-- `ParseFormatter` from a state in the middle.
unfoldable pub parse_from : Text → Parsed → Parsed
parse_from s p = parse_loop (length s) s p

-- The loop goes on behind each round.
pub parse_from-cons :
    (c : ℕ) (s : Text) (p : Parsed)
    → parse_from (c ∷ s) p ≡ parse_from (parse_char c s p).0 (parse_char c s p).1
unfolding parse_from parse_loop
parse_from-cons c s p =
    let next = parse_char c s p in
    parse_loop-same (length s) (length next.0) next.0 next.1 (parse_char-shorter c s p)
      (omega arith)

unfoldable all_bound : List Item → Bool
all_bound [] = true
all_bound (i ∷ items) = is_bound i.key && all_bound items

all_bound-append :
    (xs ys : List Item) → all_bound xs ≡ true → all_bound ys ≡ true → all_bound (xs ++ ys) ≡ true
unfolding all_bound
all_bound-append [] ys hx hy = hy
all_bound-append (x ∷ xs) ys hx hy = ground (arith, all_bound-append xs ys)

bound_s : (ts : Text) → all_bound (record { key = b's'; ex_info = ts } ∷ []) ≡ true
unfolding all_bound is_bound bound_item find_item
bound_s ts = refl

flush-all_bound : (p : Parsed) → all_bound p.items ≡ true → all_bound (flush p) ≡ true
unfolding flush
flush-all_bound p h = elim p.tem_str as (λ t. all_bound (flush (record p { tem_str = t })) ≡ true) [
  | [] ↦ h
  | t ∷ ts ↦
      all_bound-append p.items (record { key = b's'; ex_info = t ∷ ts } ∷ []) h (bound_s (t ∷ ts))
]

last-all_bound :
    (k : ℕ) (ex : Text)
    → is_bound k ≡ true
    → all_bound (record { key = k; ex_info = ex } ∷ []) ≡ true
unfolding all_bound
last-all_bound k ex h = ground arith

pushed-all_bound :
    (p : Parsed) (k : ℕ) (ex : Text)
    → is_bound k ≡ true
    → all_bound p.items ≡ true
    → all_bound (pushed p k ex).items ≡ true
unfolding pushed
pushed-all_bound p k ex hk h =
    all_bound-append (flush p) (record { key = k; ex_info = ex } ∷ []) (flush-all_bound p h)
      (last-all_bound k ex hk)

parse_char-all_bound :
    (c : ℕ) (s : Text) (p : Parsed)
    → all_bound p.items ≡ true
    → all_bound (parse_char c s p).1.items ≡ true
unfolding parse_char parse_percent parse_item
parse_char-all_bound c [] p h = ground arith
parse_char-all_bound c (k ∷ s) p h =
    ground (arith, pushed-all_bound p k (time_format s).0, pushed-all_bound p k [])

parse_loop-all_bound :
    (fuel : ℕ) (s : Text) (p : Parsed)
    → all_bound p.items ≡ true
    → all_bound (parse_loop fuel s p).items ≡ true
unfolding parse_loop
parse_loop-all_bound zero s p h = h
parse_loop-all_bound (suc fuel) [] p h = h
parse_loop-all_bound (suc fuel) (c ∷ s) p h =
    let next = parse_char c s p in
    parse_loop-all_bound fuel next.0 next.1 (parse_char-all_bound c s p h)

found-some : (o : Option ItemFunc) → is_found o ≡ true → (f : ItemFunc) × (o ≡ some f)
found-some (some f) h = (f, refl)
found-some Option.none h = absurd (ground arith)

module _ (strftime : Text → ℕ → Text) where
  format-all_bound :
      (items : List Item) (level : Level) (name : Text) (r : LogRecord)
      → all_bound items ≡ true
      → (out : Text) × (format strftime items level name r ≡ some out)
  unfolding format all_bound is_bound appended
  format-all_bound [] level name r h = ([], refl)
  format-all_bound (i ∷ items) level name r h =
      let (rest, e) = format-all_bound items level name r (ground arith) in
      let found : is_found (bound_item i.key) ≡ true = ground arith in
      let (f, e1) = found-some (bound_item i.key) found in
      (item_format strftime f level name r i.ex_info ++ rest, rw (e, e1) refl)

  pub format-parse_formatter :
      (pattern : Text) (level : Level) (name : Text) (r : LogRecord)
      → (out : Text) × (format strftime (parse_formatter pattern) level name r ≡ some out)
  unfolding parse_formatter all_bound
  format-parse_formatter pattern level name r =
      format-all_bound (parse_formatter pattern) level name r
        (parse_loop-all_bound (length pattern) pattern (record { tem_str = []; items = [] }) refl)
