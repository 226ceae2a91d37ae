-- ===== src/Logger/Records.antt =====
-- Runs of `Logger::Record` in src/logger/Logger.cpp on a logger that its constructor made.
use ttserver.Base.{
  ℕ, ◌≡◌, refl, ap, ◌∙◌, if◌then◌else◌, Bool, true, false, Option, none, some, List, [], ◌∷◌, ◌++◌,
  Bool-cases, inl, inr,
}
use ttserver.Logger.{Level, LogRecord}
use ttserver.Logger.Format.{Text}
use ttserver.Logger.Rotate.{Effect, Answers}
use ttserver.Logger.Record.{
  Logger, is_above, new_logger, with_file, with_rotate, with_stdout, record_one, debug, info, warn,
  error, fatal, add_appender, Appender,
}
use ttserver.Logger.Levels.{AreDefault, append_all-AreDefault, new_logger-AreDefault}

-- One call of `Record`: how the system answers each appender, the level and the record.
pub record LogCall : Type 0 where
  pub answers : ℕ → Answers
  pub level : Level
  pub log_record : LogRecord

abbrev pub behind_effects :
    Option (Logger × List Effect) → List Effect → Option (Logger × List Effect)
behind_effects none es = none
behind_effects (some (l, fs)) es = some (l, es ++ fs)

added-level :
    (b : Bool) (l : Logger) (a : Option Appender)
    → (if b then add_appender l a else l).level ≡ l.level
added-level true l a = refl
added-level false l a = refl

with_rotate-level :
    (l : Logger) (flags : ℕ) (pattern file dir : Option Text) (max_size max_num : ℕ)
    → (with_rotate l flags pattern file dir max_size max_num).level ≡ l.level
unfolding with_rotate
with_rotate-level l flags pattern none dir max_size max_num = refl
with_rotate-level l flags pattern (some file) none max_size max_num = refl
with_rotate-level l flags pattern (some file) (some dir) max_size max_num = added-level _ l _

with_file-level :
    (l : Logger) (flags : ℕ) (pattern file : Option Text)
    → (with_file l flags pattern file).level ≡ l.level
unfolding with_file
with_file-level l flags pattern none = refl
with_file-level l flags pattern (some file) = added-level _ l _

new_logger-level :
    (name : Text) (level : Level) (flags : ℕ) (pattern file dir : Option Text)
    (max_size max_num : ℕ)
    → (new_logger name level flags pattern file dir max_size max_num).level ≡ level
unfolding new_logger with_stdout
new_logger-level name level flags pattern file dir max_size max_num =
    let l : Logger = record { name = name; level = level; list_appender = [] } in
    let l1 = with_file l flags pattern file in
    let l2 = with_rotate l1 flags pattern file dir max_size max_num in
    added-level _ l2 _
    ∙ with_rotate-level l1 flags pattern file dir max_size max_num
    ∙ with_file-level l flags pattern file

module _ (strftime : Text → ℕ → Text) where
  abbrev pub record_call : LogCall → Option (Logger × List Effect) → Option (Logger × List Effect)
  record_call c none = none
  record_call c (some (l, es)) =
      behind_effects (record_one strftime l c.answers c.level c.log_record) es

  -- The calls in a row, with all that they do outside.
  unfoldable pub record_all :
      List LogCall → Option (Logger × List Effect) → Option (Logger × List Effect)
  record_all [] o = o
  record_all (c ∷ calls) o = record_all calls (record_call c o)

  record_one-silent :
      (l : Logger) (answers : ℕ → Answers) (level : Level) (rec : LogRecord)
      → is_above level l.level ≡ true
      → record_one strftime l answers level rec ≡ some (l, [])
  unfolding record_one
  record_one-silent l answers level rec h = rw h refl

  record_one-AreDefault :
      (l : Logger) (c : LogCall)
      → AreDefault l.list_appender
      → (s : Logger × List Effect) × (record_one strftime l c.answers c.level c.log_record ≡ some s)
        × AreDefault s.0.list_appender
  unfolding record_one
  record_one-AreDefault l c h =
      let (s, done, kept) =
        append_all-AreDefault strftime l.list_appender 0 c.answers l.level c.level l.name
          c.log_record h in
      elim (Bool-cases (is_above c.level l.level)) [
        | inl e ↦ rw e ((l, []), refl, h)
        | inr e ↦ rw (e, done) ((record l { list_appender = s.0 }, s.1), refl, kept)
      ]

  record_all-AreDefault :
      (calls : List LogCall) (l : Logger) (es : List Effect)
      → AreDefault l.list_appender
      → (s : Logger × List Effect) × (record_all calls (some (l, es)) ≡ some s)
        × AreDefault s.0.list_appender
  unfolding record_all
  record_all-AreDefault [] l es h = ((l, es), refl, h)
  record_all-AreDefault (c ∷ calls) l es h =
      let (s, done, kept) = record_one-AreDefault l c h in
      rw done (record_all-AreDefault calls s.0 (es ++ s.1) kept)

  -- Every run of Record calls on a logger that the constructor made, with any arguments and
  -- however the system answers, ends without a null pointer or an unbound item, and every
  -- appender of the logger still writes the items of the default pattern, whatever pattern was
  -- given.
  pub record_all-new_logger :
      (name : Text) (level : Level) (flags : ℕ) (pattern file dir : Option Text)
      (max_size max_num : ℕ) (calls : List LogCall)
      → (s : Logger × List Effect) × (record_all calls
            (some (new_logger name level flags pattern file dir max_size max_num, []))
          ≡ some s)
        × AreDefault s.0.list_appender
  record_all-new_logger name level flags pattern file dir max_size max_num calls =
      record_all-AreDefault calls (new_logger name level flags pattern file dir max_size max_num) []
        (new_logger-AreDefault name level flags pattern file dir max_size max_num)

  -- A logger made with the level NONE writes nothing: Debug, Info, Warn, Error and Fatal leave it
  -- as it is and have no effect.
  new_logger-silent :
      (name : Text) (flags : ℕ) (pattern file dir : Option Text) (max_size max_num : ℕ)
      (answers : ℕ → Answers) (rec : LogRecord)
      → let l = new_logger name Level.none flags pattern file dir max_size max_num in
        (debug strftime l answers rec ≡ some (l, []))
        × (info strftime l answers rec ≡ some (l, []))
        × (warn strftime l answers rec ≡ some (l, []))
        × (error strftime l answers rec ≡ some (l, []))
        × (fatal strftime l answers rec ≡ some (l, []))
  unfolding debug info warn error fatal
  new_logger-silent name flags pattern file dir max_size max_num answers rec =
      let l = new_logger name Level.none flags pattern file dir max_size max_num in
      let e = new_logger-level name Level.none flags pattern file dir max_size max_num in
      let silent : (level : Level)
          → is_above level Level.none ≡ true
          → record_one strftime l answers level rec ≡ some (l, []) =
        λ level h. record_one-silent l answers level rec (ap (is_above level) e ∙ h) in
      (
        silent Level.debug refl,
        silent Level.info refl,
        silent Level.warn refl,
        silent Level.error refl,
        silent Level.fatal refl,
      )
