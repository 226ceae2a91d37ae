-- ===== src/Logger/Files.antt =====
-- Whole runs of the appender in src/logger/Appender/RotateAppender.cpp.
use ttserver.Base.{ℕ, ◌≤◌, ◌≡◌, refl, ◌∙◌, ap, ap₂, Option, none, some, List, [], ◌∷◌, ◌++◌, arith}
use ttserver.Logger.{Level, LogRecord}
use ttserver.Logger.Format.{Text, format, parse_formatter, default_pattern, new_formatter}
use ttserver.Logger.Parse.{format-parse_formatter}
use ttserver.Logger.Rotate.{
  Effect, Answers, RotateAppender, file_name, new_rotate, open_file, write_record, append_text,
  append,
}
use ttserver.Logger.Turns.{
  IsTurning, AreBounded, AreBounded-append, Kept, Kept-trans, open_file-Kept,
  write_record-AreBounded,
}

-- One call of `Append`: how the system answers, the level, the logger's name and the record.
pub record Call : Type 0 where
  pub answers : Answers
  pub level : Level
  pub name : Text
  pub log_record : LogRecord

append_text-Kept :
    (r : RotateAppender) (a : Answers) (text : Text)
    → IsTurning r
    → (s : RotateAppender × List Effect) × (append_text r a (some text) ≡ some s) × Kept r s
unfolding Kept
append_text-Kept r a text h =
    let opened = open_file-Kept r a h in
    let r1 = (open_file r a).0 in
    let wrote = write_record-AreBounded r1 a text r.dir_name r.log_name r.max_file_num in
    (
      (r1, (open_file r a).1 ++ write_record r1 a text),
      refl,
      (
        opened.0,
        opened.1,
        opened.2,
        opened.3,
        opened.4,
        AreBounded-append r.dir_name r.log_name r.max_file_num (open_file r a).1 _ opened.5 wrote,
      ),
    )

abbrev pub and_then :
    Option (RotateAppender × List Effect) → List Effect → Option (RotateAppender × List Effect)
and_then none es = none
and_then (some (r, fs)) es = some (r, es ++ fs)

-- What calls make of an appender that has had some effects already.
abbrev AppendsWell : RotateAppender → Option (RotateAppender × List Effect) → Type 0
AppendsWell r o = (s : RotateAppender × List Effect) × (o ≡ some s) × Kept r s

module _ (strftime : Text → ℕ → Text) where
  abbrev pub log_one :
      Call → Option (RotateAppender × List Effect) → Option (RotateAppender × List Effect)
  log_one c none = none
  log_one c (some (r, es)) = and_then (append strftime r c.answers c.level c.name c.log_record) es

  -- The calls in a row, with all that they do outside.
  unfoldable pub log_all :
      List Call → Option (RotateAppender × List Effect) → Option (RotateAppender × List Effect)
  log_all [] o = o
  log_all (c ∷ calls) o = log_all calls (log_one c o)

  -- `Append` with the items of a pattern always comes to its end.
  append-Kept :
      (r : RotateAppender) (c : Call) (pattern : Text)
      → r.formatter.vec_items ≡ parse_formatter pattern
      → IsTurning r
      → AppendsWell r (append strftime r c.answers c.level c.name c.log_record)
  unfolding append
  append-Kept r c pattern e h =
      let (text, formatted) = format-parse_formatter strftime pattern c.level c.name c.log_record in
      let again : format strftime r.formatter.vec_items c.level c.name c.log_record ≡ some text =
        ap (λ items. format strftime items c.level c.name c.log_record) e ∙ formatted in
      rw again (append_text-Kept r c.answers text h)

  log_all-Kept :
      (calls : List Call) (r0 r : RotateAppender) (es : List Effect) (pattern : Text)
      → r0.formatter.vec_items ≡ parse_formatter pattern
      → Kept r0 (r, es)
      → AppendsWell r0 (log_all calls (some (r, es)))
  unfolding log_all Kept
  log_all-Kept [] r0 r es pattern e h = ((r, es), refl, h)
  log_all-Kept (c ∷ calls) r0 r es pattern e h =
      let (s, done, kept) = append-Kept r c pattern (ap (λ f. f.vec_items) h.4 ∙ e) h.0 in
      rw done (log_all-Kept calls r0 s.0 (es ++ s.1) pattern e (Kept-trans r0 (r, es) s h kept))

  -- A new RotateAppender with at least one file ends every run of Append calls, however the
  -- system answers: each file that it opens is its directory and name with a number from 1 to the
  -- number of files, each write is at most 512 bytes, and at the end the present number is in
  -- that range and the present name is the one with that number.
  pub log_all-AreBounded :
      (dir log : Text) (max_size max_num : ℕ) (calls : List Call)
      → 1 ≤ max_num
      → (r : RotateAppender) × (effects : List Effect) × (log_all calls
            (some (new_rotate dir log max_size max_num, []))
          ≡ some (r, effects))
        × (1 ≤ r.cur_file_id)
        × (r.cur_file_id ≤ max_num)
        × (r.cur_file_name ≡ file_name dir log r.cur_file_id)
        × AreBounded dir log max_num effects
  unfolding new_rotate new_formatter Kept IsTurning AreBounded
  log_all-AreBounded dir log max_size max_num calls h =
      let r0 = new_rotate dir log max_size max_num in
      let start : IsTurning r0 = (omega arith, h, refl) in
      let (s, done, kept) =
        log_all-Kept calls r0 r0 [] default_pattern refl (start, refl, refl, refl, refl, tt) in
      let turning = kept.0 in
      let num : s.0.max_file_num ≡ max_num = kept.3 in
      let high : s.0.cur_file_id ≤ s.0.max_file_num = turning.1 in
      let named = turning.2 ∙ ap₂ (λ d l. file_name d l s.0.cur_file_id) kept.1 kept.2 in
      (s.0, s.1, done, turning.0, omega arith, named, kept.5)
