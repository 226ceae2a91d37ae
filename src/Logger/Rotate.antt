-- ===== src/Logger/Rotate.antt =====
-- src/logger/Appender/RotateAppender.cpp: the appender that writes a ring of numbered files.
use ttserver.Base.{
  ℕ, ◌+◌, ◌%◌, Bool, true, false, not, ◌&&◌, Option, none, some, List, [], ◌∷◌, ◌++◌, ltb, leb,
  ◌==◌, if◌then◌else◌, take, length,
}
use ttserver.Logger.{Level, LogRecord}
use ttserver.Logger.Text.{codes, to_string, strncpy}
use ttserver.Logger.Format.{Text, Formatter, format, new_formatter, default_pattern}

-- `MAX_FMT_CONTENT_SIZE`.
abbrev pub max_fmt_content_size : ℕ
max_fmt_content_size = 512

-- What an appender does outside itself.
pub data Effect : Type 0 where
  cout : Text → Effect
  mkdir : Text → Effect
  fopen : Text → Effect
  fclose : Effect
  fwrite : Text → Effect

-- How the system answers in one `Append`: whether the directory is there, `fopen` with "ab+" and with
-- "w" succeed, what `stat` says of the size, whether `fopen` with "wb+" succeeds, what `fwrite` returns.
pub record Answers : Type 0 where
  pub has_dir : Bool
  pub opens_append : Bool
  pub opens_write : Bool
  pub st_size : ℕ
  pub reopens : Bool
  pub written : ℕ

-- The fields; `is_open` says that `m_pstFile` is not null. `max_file_num` is zero for a negative one,
-- with which the appender does the same.
pub record RotateAppender : Type 0 where
  pub dir_name : Text
  pub log_name : Text
  pub max_file_size : ℕ
  pub max_file_num : ℕ
  pub cur_file_id : ℕ
  pub cur_file_name : Text
  pub is_open : Bool
  pub formatter : Formatter

unfoldable pub file_name : Text → Text → ℕ → Text
file_name dir log id = dir ++ (b'/' ∷ (log ++ (b'.' ∷ to_string id)))

-- The constructor, with the default pattern as `Logger` calls it.
unfoldable pub new_rotate : Text → Text → ℕ → ℕ → RotateAppender
new_rotate dir log max_size max_num = record {
  dir_name = dir;
  log_name = log;
  max_file_size = max_size;
  max_file_num = max_num;
  cur_file_id = 1;
  cur_file_name = file_name dir log 1;
  is_open = false;
  formatter = new_formatter default_pattern;
}

-- The number of the next file.
unfoldable pub next_id : ℕ → ℕ → ℕ
next_id id max_num = let turned = (id + 1) % (max_num + 1) in if turned == 0 then 1 else turned

-- The file is open already, or one of two modes opens it.
unfoldable pub open_current : RotateAppender → Answers → RotateAppender × List Effect
open_current r a =
    if r.is_open
    then (r, [])
    else if a.opens_append
    then (record r { is_open = true }, fopen r.cur_file_name ∷ [])
    else (record r { is_open = a.opens_write }, fopen r.cur_file_name ∷ fopen r.cur_file_name ∷ [])

-- The file is full: the next one is emptied and opened.
unfoldable pub turn_file : RotateAppender → Answers → RotateAppender × List Effect
turn_file r a =
    let id = next_id r.cur_file_id r.max_file_num in
    let name = file_name r.dir_name r.log_name id in
    (
      record r { cur_file_id = id; cur_file_name = name; is_open = a.reopens },
      fclose ∷ fopen name ∷ [],
    )

-- `OpenFile` behind the check of the directory.
unfoldable pub check_size : RotateAppender → Answers → RotateAppender × List Effect
check_size r a = if r.is_open && leb r.max_file_size a.st_size then turn_file r a else (r, [])

-- `OpenFile`.
unfoldable pub open_file : RotateAppender → Answers → RotateAppender × List Effect
open_file r a =
    if ltb r.max_file_num r.cur_file_id
    then (r, [])
    else (let made = if a.has_dir then [] else mkdir r.dir_name ∷ [] in
        let (r1, opened) = open_current r a in
        let (r2, turned) = check_size r1 a in (r2, made ++ (opened ++ turned)))

-- What `Append` does with the text, behind `OpenFile`.
unfoldable pub write_record : RotateAppender → Answers → Text → List Effect
write_record r a text =
    let buff = strncpy max_fmt_content_size text in
    let len =
      if leb max_fmt_content_size (length text) then max_fmt_content_size else length text in
    let failed =
      if a.written == len
      then []
      else cout (codes "write error: " ++ (to_string a.written ++ b'\n' ∷ [])) ∷ [] in
    if not r.is_open
    then cout (codes "file error: " ++ (r.cur_file_name ++ b'\n' ∷ [])) ∷ []
    else fwrite (take len buff) ∷ failed

-- `Append` with the text that `Format` returned, if it did.
abbrev pub append_text :
    RotateAppender → Answers → Option Text → Option (RotateAppender × List Effect)
append_text r a none = none
append_text r a (some text) =
    let (r1, effects) = open_file r a in some (r1, effects ++ write_record r1 a text)

module _ (strftime : Text → ℕ → Text) where
  -- `Append`.
  unfoldable pub append :
      RotateAppender → Answers → Level → Text → LogRecord → Option (RotateAppender × List Effect)
  append r a level name rec = append_text r a (format strftime r.formatter.vec_items level name rec)
