-- ===== src/Logger/Record.antt =====
-- src/logger/Logger.cpp and the appenders of src/logger/Appender: which records are written, where.
use ttserver.Base.{
  ℕ, suc, ◌/◌, ◌%◌, Bool, Option, none, some, List, [], ◌∷◌, ◌++◌, ltb, ◌==◌, if◌then◌else◌,
}
use ttserver.Logger.{Level, level_number, LogRecord}
use ttserver.Logger.Format.{Text, Formatter, format, new_formatter, default_pattern, set_pattern}
use ttserver.Logger.Rotate.{
  Effect, cout, fopen, fwrite, fclose, Answers, RotateAppender, new_rotate, append,
}

-- `FileAppender`; its stream is closed between two calls.
pub record FileAppender : Type 0 where
  pub file_name : Text
  pub formatter : Formatter

-- `StdoutAppender`.
pub record StdoutAppender : Type 0 where
  pub formatter : Formatter

-- `BaseAppender`: one of the three classes.
pub data Appender : Type 0 where
  file_appender : FileAppender → Appender
  rotate_appender : RotateAppender → Appender
  stdout_appender : StdoutAppender → Appender

-- The fields; an appender of the list may be a null pointer.
pub record Logger : Type 0 where
  pub name : Text
  pub level : Level
  pub list_appender : List (Option Appender)

-- `eLevel > m_eLevel`.
abbrev pub is_above : Level → Level → Bool
is_above level limit = ltb (level_number limit) (level_number level)

-- `AddAppender`.
abbrev pub add_appender : Logger → Option Appender → Logger
add_appender l a = record l { list_appender = l.list_appender ++ a ∷ [] }

-- The loop of `DelAppender`: its condition assigns, so it holds for every pointer that is not null.
unfoldable pub del_from : Option Appender → List (Option Appender) → List (Option Appender)
del_from a [] = []
del_from (some a) (_ ∷ appenders) = appenders
del_from none (_ ∷ appenders) = none ∷ del_from none appenders

-- `DelAppender`.
abbrev pub del_appender : Logger → Option Appender → Logger
unfolding del_from
del_appender l a = record l { list_appender = del_from a l.list_appender }

abbrev pub patterned : Option Text → Formatter → Formatter
patterned none f = f
patterned (some pattern) f = set_pattern f pattern

abbrev has_bit : ℕ → ℕ → Bool
has_bit flags bit = (flags / bit) % 2 == 1

-- The three blocks of the constructor: `iAppender`, `szPattern`, `szFileName`, `szLogDir`.
unfoldable pub with_file : Logger → ℕ → Option Text → Option Text → Logger
with_file l flags pattern none = l
with_file l flags pattern (some file) =
    if has_bit flags 2
    then add_appender l (
        some (
          file_appender (record {
            file_name = file;
            formatter = patterned pattern (new_formatter default_pattern);
          })))
    else l

unfoldable pub with_rotate : Logger → ℕ → Option Text → Option Text → Option Text → ℕ → ℕ → Logger
with_rotate l flags pattern (some file) (some dir) max_size max_num =
    let r = new_rotate dir file max_size max_num in
    if has_bit flags 4
    then add_appender l
        (some (rotate_appender (record r { formatter = patterned pattern r.formatter })))
    else l
with_rotate l flags pattern _ _ max_size max_num = l

unfoldable pub with_stdout : Logger → ℕ → Option Text → Logger
with_stdout l flags pattern =
    if has_bit flags 8
    then add_appender l (
        some (
          stdout_appender
            (record { formatter = patterned pattern (new_formatter default_pattern) })))
    else l

-- The constructor.
unfoldable pub new_logger :
    Text → Level → ℕ → Option Text → Option Text → Option Text → ℕ → ℕ → Logger
new_logger name level flags pattern file dir max_size max_num =
    let l : Logger = record { name = name; level = level; list_appender = [] } in
    let l1 = with_file l flags pattern file in
    let l2 = with_rotate l1 flags pattern file dir max_size max_num in with_stdout l2 flags pattern

-- What `FileAppender::Append` and `StdoutAppender::Append` do with the text of `Format`.
abbrev file_effects : FileAppender → Answers → Text → List Effect
file_effects f a text =
    if a.opens_append
    then fopen f.file_name ∷ cout text ∷ fwrite text ∷ fclose ∷ []
    else cout text ∷ []

abbrev file_append : FileAppender → Answers → Option Text → Option (Appender × List Effect)
file_append f a none = none
file_append f a (some text) = some (file_appender f, file_effects f a text)

abbrev stdout_append : StdoutAppender → Option Text → Option (Appender × List Effect)
stdout_append s none = none
stdout_append s (some text) = some (stdout_appender s, cout text ∷ [])

abbrev pub rotate_append : Option (RotateAppender × List Effect) → Option (Appender × List Effect)
rotate_append none = none
rotate_append (some (r, effects)) = some (rotate_appender r, effects)

abbrev pub joined :
    Option (Appender × List Effect)
    → Option (List (Option Appender) × List Effect)
    → Option (List (Option Appender) × List Effect)
joined (some (a, es)) (some (rest, fs)) = some (some a ∷ rest, es ++ fs)
joined _ _ = none

abbrev pub kept_in :
    Logger → Option (List (Option Appender) × List Effect) → Option (Logger × List Effect)
kept_in l none = none
kept_in l (some (appenders, effects)) = some (record l { list_appender = appenders }, effects)

module _ (strftime : Text → ℕ → Text) where
  -- `Append` of the three classes; `limit` is the logger's level.
  unfoldable pub append_to :
      Appender → Answers → Level → Level → Text → LogRecord → Option (Appender × List Effect)
  append_to (file_appender f) a limit level name rec =
      if is_above level limit
      then some (file_appender f, [])
      else file_append f a (format strftime f.formatter.vec_items level name rec)
  append_to (rotate_appender r) a limit level name rec =
      rotate_append (append strftime r a level name rec)
  append_to (stdout_appender s) a limit level name rec =
      if is_above level limit
      then some (stdout_appender s, [])
      else stdout_append s (format strftime s.formatter.vec_items level name rec)

  -- The loop of `Record`; the system answers the appender at position `i` with `answers i`. A null
  -- pointer ends the program.
  unfoldable pub append_all :
      List (Option Appender)
      → ℕ
      → (ℕ → Answers)
      → Level
      → Level
      → Text
      → LogRecord
      → Option (List (Option Appender) × List Effect)
  append_all [] i answers limit level name rec = some ([], [])
  append_all (none ∷ appenders) i answers limit level name rec = none
  append_all (some a ∷ appenders) i answers limit level name rec =
      joined (append_to a (answers i) limit level name rec)
        (append_all appenders (suc i) answers limit level name rec)

  -- `Record`.
  unfoldable pub record_one :
      Logger → (ℕ → Answers) → Level → LogRecord → Option (Logger × List Effect)
  record_one l answers level rec =
      if is_above level l.level
      then some (l, [])
      else kept_in l (append_all l.list_appender 0 answers l.level level l.name rec)

  -- `Debug`, `Info`, `Warn`, `Error` and `Fatal`.
  unfoldable pub debug : Logger → (ℕ → Answers) → LogRecord → Option (Logger × List Effect)
  debug l answers rec = record_one l answers Level.debug rec

  unfoldable pub info : Logger → (ℕ → Answers) → LogRecord → Option (Logger × List Effect)
  info l answers rec = record_one l answers Level.info rec

  unfoldable pub warn : Logger → (ℕ → Answers) → LogRecord → Option (Logger × List Effect)
  warn l answers rec = record_one l answers Level.warn rec

  unfoldable pub error : Logger → (ℕ → Answers) → LogRecord → Option (Logger × List Effect)
  error l answers rec = record_one l answers Level.error rec

  unfoldable pub fatal : Logger → (ℕ → Answers) → LogRecord → Option (Logger × List Effect)
  fatal l answers rec = record_one l answers Level.fatal rec
