-- ===== src/Logger/Levels.antt =====
-- What src/logger/Logger.cpp promises: which levels are written, with which pattern, and that a call
-- always comes to its end.
use ttserver.Base.{
  ℕ, suc, ◌≡◌, refl, ◌∙◌, ap, Bool, ◌&&◌, leb, true, false, Option, none, some, List, [], ◌∷◌, ◌++◌,
  ltb, if◌then◌else◌, Bool-cases, inl, inr,
}
use ttserver.Logger.{Level, LogRecord}
use ttserver.Logger.Format.{
  Text, Item, Formatter, format, parse_formatter, new_formatter, default_pattern,
}
use ttserver.Logger.Parse.{format-parse_formatter}
use ttserver.Logger.Rotate.{
  Effect, Answers, RotateAppender, new_rotate, append, open_file, open_current, check_size,
  turn_file,
}
use ttserver.Logger.Record.{
  Appender, file_appender, rotate_appender, stdout_appender, Logger, is_above, with_file,
  with_rotate, with_stdout, new_logger, append_to, append_all, patterned, add_appender,
}

unfoldable pub items_of : Appender → List Item
items_of (file_appender f) = f.formatter.vec_items
items_of (rotate_appender r) = r.formatter.vec_items
items_of (stdout_appender s) = s.formatter.vec_items

-- The pointers are not null, and every appender writes with the default pattern.
unfoldable pub AreDefault : List (Option Appender) → Type 0
AreDefault [] = Unit
AreDefault (none ∷ appenders) = ⊥
AreDefault (some a ∷ appenders) =
    (items_of a ≡ parse_formatter default_pattern) × AreDefault appenders

AreDefault-snoc :
    (appenders : List (Option Appender)) (a : Appender)
    → AreDefault appenders
    → items_of a ≡ parse_formatter default_pattern
    → AreDefault (appenders ++ some a ∷ [])
unfolding AreDefault
AreDefault-snoc [] a h e = (e, tt)
AreDefault-snoc (some b ∷ appenders) a h e = (h.0, AreDefault-snoc appenders a h.1 e)
AreDefault-snoc (none ∷ appenders) a h e = h

patterned-items :
    (pattern : Option Text) (f : Formatter) → (patterned pattern f).vec_items ≡ f.vec_items
patterned-items none f = refl
patterned-items (some p) f = refl

added-AreDefault :
    (b : Bool) (l : Logger) (a : Appender)
    → AreDefault l.list_appender
    → items_of a ≡ parse_formatter default_pattern
    → AreDefault (if b then add_appender l (some a) else l).list_appender
added-AreDefault true l a h e = AreDefault-snoc l.list_appender a h e
added-AreDefault false l a h e = h

with_file-AreDefault :
    (l : Logger) (flags : ℕ) (pattern file : Option Text)
    → AreDefault l.list_appender
    → AreDefault (with_file l flags pattern file).list_appender
unfolding with_file items_of new_formatter
with_file-AreDefault l flags pattern none h = h
with_file-AreDefault l flags pattern (some file) h =
    added-AreDefault _ l _ h (patterned-items pattern (new_formatter default_pattern))

with_rotate-AreDefault :
    (l : Logger) (flags : ℕ) (pattern file dir : Option Text) (max_size max_num : ℕ)
    → AreDefault l.list_appender
    → AreDefault (with_rotate l flags pattern file dir max_size max_num).list_appender
unfolding with_rotate items_of new_rotate new_formatter
with_rotate-AreDefault l flags pattern none dir max_size max_num h = h
with_rotate-AreDefault l flags pattern (some file) none max_size max_num h = h
with_rotate-AreDefault l flags pattern (some file) (some dir) max_size max_num h =
    added-AreDefault _ l _ h (patterned-items pattern (new_formatter default_pattern))

with_stdout-AreDefault :
    (l : Logger) (flags : ℕ) (pattern : Option Text)
    → AreDefault l.list_appender
    → AreDefault (with_stdout l flags pattern).list_appender
unfolding with_stdout items_of new_formatter
with_stdout-AreDefault l flags pattern h =
    added-AreDefault _ l _ h (patterned-items pattern (new_formatter default_pattern))

-- tbd
pub new_logger-AreDefault :
    (name : Text) (level : Level) (flags : ℕ) (pattern file dir : Option Text)
    (max_size max_num : ℕ)
    → AreDefault (new_logger name level flags pattern file dir max_size max_num).list_appender
unfolding new_logger AreDefault
new_logger-AreDefault name level flags pattern file dir max_size max_num =
    let l : Logger = record { name = name; level = level; list_appender = [] } in
    let l1 = with_file l flags pattern file in
    let l2 = with_rotate l1 flags pattern file dir max_size max_num in
    with_stdout-AreDefault l2 flags pattern (
      with_rotate-AreDefault l1 flags pattern file dir max_size max_num
        (with_file-AreDefault l flags pattern file tt))

open_current-formatter :
    (r : RotateAppender) (a : Answers) → (open_current r a).0.formatter ≡ r.formatter
unfolding open_current
open_current-formatter r a = elim (Bool-cases r.is_open) [
  | inl e ↦ simp e refl
  | inr e ↦ elim (Bool-cases a.opens_append) [ inl f ↦ simp (e, f) refl | inr f ↦ simp (e, f) refl ]
]

check_size-formatter :
    (r : RotateAppender) (a : Answers) → (check_size r a).0.formatter ≡ r.formatter
unfolding check_size turn_file
check_size-formatter r a = elim (Bool-cases (r.is_open && leb r.max_file_size a.st_size)) [
  | inl e ↦ rw e refl
  | inr e ↦ rw e refl
]

open_file-formatter : (r : RotateAppender) (a : Answers) → (open_file r a).0.formatter ≡ r.formatter
unfolding open_file
open_file-formatter r a = elim (Bool-cases (ltb r.max_file_num r.cur_file_id)) [
  | inl e ↦ rw e refl
  | inr e ↦ rw e (check_size-formatter (open_current r a).0 a ∙ open_current-formatter r a)
]

module _ (strftime : Text → ℕ → Text) where
  -- An appender with the default items writes, and keeps them.
  abbrev Writes : Option (Appender × List Effect) → Type 0
  Writes o =
      (s : Appender × List Effect) × (o ≡ some s) × (items_of s.0 ≡ parse_formatter default_pattern)

  append_to-Writes :
      (a : Appender) (answers : Answers) (limit level : Level) (name : Text) (rec : LogRecord)
      → items_of a ≡ parse_formatter default_pattern
      → Writes (append_to strftime a answers limit level name rec)
  unfolding append_to append items_of
  append_to-Writes (file_appender f) answers limit level name rec e =
      let (text, formatted) = format-parse_formatter strftime default_pattern level name rec in
      let again : format strftime f.formatter.vec_items level name rec ≡ some text =
        ap (λ items. format strftime items level name rec) e ∙ formatted in
      elim (Bool-cases (is_above level limit)) [
        | inl g ↦ rw g ((file_appender f, []), refl, e)
        | inr g ↦ rw (g, again) (_, refl, e)
      ]
  append_to-Writes (rotate_appender r) answers limit level name rec e =
      let (text, formatted) = format-parse_formatter strftime default_pattern level name rec in
      let again : format strftime r.formatter.vec_items level name rec ≡ some text =
        ap (λ items. format strftime items level name rec) e ∙ formatted in
      rw again (_, refl, ap (λ f. f.vec_items) (open_file-formatter r answers) ∙ e)
  append_to-Writes (stdout_appender s) answers limit level name rec e =
      let (text, formatted) = format-parse_formatter strftime default_pattern level name rec in
      let again : format strftime s.formatter.vec_items level name rec ≡ some text =
        ap (λ items. format strftime items level name rec) e ∙ formatted in
      elim (Bool-cases (is_above level limit)) [
        | inl g ↦ rw g ((stdout_appender s, []), refl, e)
        | inr g ↦ rw (g, again) (_, refl, e)
      ]

  pub append_all-AreDefault :
      (appenders : List (Option Appender)) (i : ℕ) (answers : ℕ → Answers) (limit level : Level)
      (name : Text) (rec : LogRecord)
      → AreDefault appenders
      → (s : List (Option Appender) × List Effect) × (append_all strftime appenders i answers limit
            level name rec
          ≡ some s)
        × AreDefault s.0
  unfolding append_all AreDefault
  append_all-AreDefault [] i answers limit level name rec h = (([], []), refl, tt)
  append_all-AreDefault (none ∷ appenders) i answers limit level name rec h = absurd h
  append_all-AreDefault (some a ∷ appenders) i answers limit level name rec h =
      let (s, done, items) = append_to-Writes a (answers i) limit level name rec h.0 in
      let (t, rest, kept) =
        append_all-AreDefault appenders (suc i) answers limit level name rec h.1 in
      ((some s.0 ∷ t.0, s.1 ++ t.1), rw (done, rest) refl, (items, kept))
