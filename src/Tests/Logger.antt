-- ===== src/Tests/Logger.antt =====
-- The theorems on the logger, with a concrete record.
use ttserver.Base.{ℕ, ◌≡◌, ◌≤◌, refl, arith, true, List, [], ◌∷◌, some}
use ttserver.Logger.{Level, LogRecord}
use ttserver.Logger.Text.{codes, digits, to_string}
use ttserver.Logger.Format.{
  Text, format, parse_formatter, is_bound, bound_item, find_item, default_pattern, parse_char,
  parse_percent, parse_item, appended, item_format,
}
use ttserver.Logger.Pattern.{
  Piece, print_pieces, all_items, ArePieces, IsPiece, has, parse_formatter-print_pieces,
}
use ttserver.Logger.Rotate.{Effect, Answers, RotateAppender, file_name, new_rotate}
use ttserver.Logger.Turns.{AreBounded}
use ttserver.Logger.Files.{Call, log_all, log_all-AreBounded}
use ttserver.Logger.Record.{Logger, new_logger}
use ttserver.Logger.Levels.{AreDefault}
use ttserver.Logger.Records.{LogCall, record_all, record_all-new_logger}

-- A clock that prints every time as its format.
abbrev strftime : Text → ℕ → Text
strftime fmt sec = fmt

abbrev demo_record : LogRecord
demo_record = record {
  sec = 1700000000;
  usec = 5;
  file = codes "a.cpp";
  line_num = 42;
  thread_id = 0;
  fiber_id = 0;
  thread_name = [];
  func_name = codes "main";
  content = codes "hello";
}

-- A full file in a directory that is there.
abbrev full_file : Answers
full_file = record {
  has_dir = true;
  opens_append = true;
  opens_write = true;
  st_size = 100;
  reopens = true;
  written = 5;
}

-- The line of the default pattern: five microseconds are written as `.5`.
default_line :
    format strftime (parse_formatter default_pattern) Level.info [] demo_record
    ≡ some (codes "[%Y-%m-%d %H:%M:%S.5]|INFO|a.cpp:42|main|0|0|hello \n")
unfolding format parse_formatter parse_char parse_percent parse_item is_bound bound_item appended
    item_format to_string digits
default_line = refl

-- `[%d{%H}]%m end`
abbrev pieces : List Piece
pieces =
    record { literal = codes "["; key = b'd'; date_format = codes "%H" }
    ∷ record { literal = codes "]"; key = b'm'; date_format = [] }
    ∷ []

parse_formatter-print_pieces_example :
    parse_formatter (print_pieces pieces (codes " end")) ≡ all_items pieces
unfolding ArePieces IsPiece has is_bound bound_item find_item print_pieces
parse_formatter-print_pieces_example =
    parse_formatter-print_pieces pieces (codes " end")
      ((refl, refl, refl, refl, refl), ((refl, refl, refl, refl, refl), refl))

abbrev calls : List Call
calls =
    record { answers = full_file; level = Level.info; name = []; log_record = demo_record }
    ∷ record { answers = full_file; level = Level.info; name = []; log_record = demo_record }
    ∷ []

log_all-AreBounded_example :
    (r : RotateAppender) × (effects : List Effect) × (log_all strftime calls
        (some (new_rotate (codes "log") (codes "net") 100 2, []))
      ≡ some (r, effects))
    × (1 ≤ r.cur_file_id)
    × (r.cur_file_id ≤ 2)
    × (r.cur_file_name ≡ file_name (codes "log") (codes "net") r.cur_file_id)
    × AreBounded (codes "log") (codes "net") 2 effects
log_all-AreBounded_example =
    log_all-AreBounded strftime (codes "log") (codes "net") 100 2 calls (omega arith)

-- A logger of level DEBUG to a rotated file and to the terminal, with a pattern of its own.
abbrev demo_logger : Level → Logger
demo_logger level =
    new_logger (codes "root") level 12 (some (codes "%m")) (some (codes "net")) (some (codes "log"))
      100 2

abbrev log_calls : List LogCall
log_calls = record { answers = λ i. full_file; level = Level.debug; log_record = demo_record } ∷ []

record_all-new_logger_example :
    (s : Logger × List Effect) × (record_all strftime log_calls (some (demo_logger Level.debug, []))
      ≡ some s)
    × AreDefault s.0.list_appender
record_all-new_logger_example =
    record_all-new_logger strftime (codes "root") Level.debug 12 (some (codes "%m"))
      (some (codes "net")) (some (codes "log")) 100 2 log_calls
