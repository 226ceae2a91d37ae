-- ===== src/Logger/Format.antt =====
-- src/logger/Formatter.cpp: the pattern is parsed into items, and a record is written item by item.
use ttserver.Base.{
  ℕ, zero, suc, Bool, true, false, ◌||◌, not, Option, some, List, [], ◌∷◌, ◌++◌, ◌==◌,
  if◌then◌else◌, length,
}
use ttserver.Logger.{Level, LogRecord}
use ttserver.Logger.Text.{codes, to_string}

abbrev pub Text : Type 0
Text = List ℕ

-- One of `m_vecItems`: the key and the text that comes with it.
pub record Item : Type 0 where
  pub key : ℕ
  pub ex_info : Text

-- The functions that `m_mapItemFmt` holds.
pub data ItemFunc : Type 0 where
  message_item : ItemFunc
  level_item : ItemFunc
  name_item : ItemFunc
  thread_id_item : ItemFunc
  new_line_item : ItemFunc
  date_time_item : ItemFunc
  filename_item : ItemFunc
  line_num_item : ItemFunc
  tab_item : ItemFunc
  fiber_id_item : ItemFunc
  thread_name_item : ItemFunc
  func_name_item : ItemFunc
  string_item : ItemFunc

-- `BindItemAndFmtFunc`.
abbrev pub map_item_fmt : List (ℕ × ItemFunc)
map_item_fmt =
    (b'm', message_item)
    ∷ (b'L', level_item)
    ∷ (b'c', name_item)
    ∷ (b't', thread_id_item)
    ∷ (b'n', new_line_item)
    ∷ (b'd', date_time_item)
    ∷ (b'f', filename_item)
    ∷ (b'l', line_num_item)
    ∷ (b'T', tab_item)
    ∷ (b'F', fiber_id_item)
    ∷ (b'N', thread_name_item)
    ∷ (b'U', func_name_item)
    ∷ (b's', string_item)
    ∷ []

-- `m_mapItemFmt.find`.
unfoldable pub find_item : ℕ → List (ℕ × ItemFunc) → Option ItemFunc
find_item k [] = Option.none
find_item k ((j, f) ∷ m) = if k == j then some f else find_item k m

-- `m_mapItemFmt[k]` of a key that is there.
unfoldable pub bound_item : ℕ → Option ItemFunc
unfolding find_item
bound_item k = find_item k map_item_fmt

abbrev pub is_found : Option ItemFunc → Bool
is_found Option.none = false
is_found (some _) = true

unfoldable pub is_bound : ℕ → Bool
is_bound k = is_found (bound_item k)

-- The parser's state: the text that waits (`sTemStr`) and the items so far.
pub record Parsed : Type 0 where
  pub tem_str : Text
  pub items : List Item

-- The items with the waiting text behind them, if there is any.
unfoldable pub flush : Parsed → List Item
flush p = elim p.tem_str [
  | [] ↦ p.items
  | t ∷ ts ↦ p.items ++ record { key = b's'; ex_info = t ∷ ts } ∷ []
]

abbrev pub starts_with : ℕ → Text → Bool
starts_with c [] = false
starts_with c (d ∷ _) = d == c

-- The inner `while` of the date's format: the format so far, `bSucc`, and the text from `iIdx` on.
unfoldable pub scan_format : Text → Text → Bool → Text × Bool × Text
scan_format [] fmt done = (fmt, done, [])
scan_format (c ∷ s) fmt done =
    let further = scan_format s (fmt ++ c ∷ []) (done || starts_with b'}' s) in
    if c == b'}' then (fmt, done, c ∷ s) else further

abbrev pub behind : Text → Text
behind [] = []
behind (_ ∷ s) = s

-- The date's format and the text behind it; `s` is the text behind `%d`.
abbrev pub found_format : Text → Text × Bool × Text → Text × Text
found_format s (fmt, true, rest) = (fmt, behind rest)
found_format s (fmt, false, rest) = ([], s)

unfoldable pub time_format : Text → Text × Text
unfolding scan_format
time_format [] = ([], [])
time_format (c ∷ s) =
    if c == b'{' then found_format (c ∷ s) (scan_format s [] false) else ([], c ∷ s)

unfoldable pub pushed : Parsed → ℕ → Text → Parsed
unfolding flush
pushed p key ex = record {
  tem_str = [];
  items = flush p ++ record { key = key; ex_info = ex } ∷ [];
}

-- The branch for a bound key `k` behind the `%`; `s` is the text behind the key.
unfoldable pub parse_item : ℕ → Text → Parsed → Text × Parsed
unfolding pushed time_format
parse_item k s p =
    if k == b'd'
    then (let (fmt, rest) = time_format s in (rest, pushed p k fmt))
    else (s, pushed p k [])

-- The text behind a `%`.
unfoldable pub parse_percent : Text → Parsed → Text × Parsed
parse_percent [] p = ([], p)
parse_percent (k ∷ s) p = if is_bound k then parse_item k s p else (k ∷ s, p)

-- One round of the loop at the character `c`: the text that is left and the new state.
unfoldable pub parse_char : ℕ → Text → Parsed → Text × Parsed
parse_char c s p =
    if not (c == b'%') then (s, record p { tem_str = p.tem_str ++ c ∷ [] }) else parse_percent s p

-- The loop; every round takes a character at least, so the text's length is fuel enough.
unfoldable pub parse_loop : ℕ → Text → Parsed → Parsed
parse_loop zero s p = p
parse_loop (suc fuel) [] p = p
parse_loop (suc fuel) (c ∷ s) p = let next = parse_char c s p in parse_loop fuel next.0 next.1

-- `ParseFormatter` of a formatter that has no items yet.
unfoldable pub parse_formatter : Text → List Item
unfolding parse_loop
parse_formatter s = (parse_loop (length s) s (record { tem_str = []; items = [] })).items

-- `Formatter`: the pattern and the items that were made of it.
pub record Formatter : Type 0 where
  pub formatter : Text
  pub vec_items : List Item

-- `DEFAULT_FORMATTER_PATTERN`.
abbrev pub default_pattern : Text
default_pattern = codes "[%d]|%L|%f:%l|%U|%t|%F|%m %n"

-- The constructor and `Init`, which every appender calls one after the other.
unfoldable pub new_formatter : Text → Formatter
new_formatter pattern = record { formatter = pattern; vec_items = parse_formatter pattern }

-- `SetPattern`.
abbrev pub set_pattern : Formatter → Text → Formatter
set_pattern f pattern = record f { formatter = pattern }

-- `LevelToString`.
abbrev pub level_to_string : Level → Text
level_to_string Level.none = codes "UNKNOW"
level_to_string Level.debug = codes "DEBUG"
level_to_string Level.info = codes "INFO"
level_to_string Level.warn = codes "WARN"
level_to_string Level.error = codes "ERROR"
level_to_string Level.fatal = codes "FATAL"

-- `strftime` stands for `localtime_r` and `strftime` on a format and the seconds.
module _ (strftime : Text → ℕ → Text) where
  -- `DateTimeItemFormat`.
  unfoldable pub date_time_format : LogRecord → Text → Text
  date_time_format r [] = strftime (codes "%Y-%m-%d %H:%M:%S") r.sec ++ (b'.' ∷ to_string r.usec)
  date_time_format r (c ∷ s) = strftime (c ∷ s) r.sec

  -- The thirteen functions on a level, the logger's name, a record and the item's text.
  unfoldable pub item_format : ItemFunc → Level → Text → LogRecord → Text → Text
  unfolding date_time_format
  item_format message_item level name r ex = r.content
  item_format level_item level name r ex = level_to_string level
  item_format name_item level name r ex = name
  item_format thread_id_item level name r ex = to_string r.thread_id
  item_format new_line_item level name r ex = b'\n' ∷ []
  item_format date_time_item level name r ex = date_time_format r ex
  item_format filename_item level name r ex = r.file
  item_format line_num_item level name r ex = to_string r.line_num
  item_format tab_item level name r ex = b'\t' ∷ []
  item_format fiber_id_item level name r ex = to_string r.fiber_id
  item_format thread_name_item level name r ex = r.thread_name
  item_format func_name_item level name r ex = r.func_name
  item_format string_item level name r ex = ex

  unfoldable pub appended :
      Option ItemFunc → Option Text → Level → Text → LogRecord → Text → Option Text
  appended (some f) (some rest) level name r ex = some (item_format f level name r ex ++ rest)
  appended _ _ level name r ex = Option.none

  -- `Format`; an item that is not bound would throw.
  unfoldable pub format : List Item → Level → Text → LogRecord → Option Text
  format [] level name r = some []
  format (i ∷ items) level name r =
      appended (bound_item i.key) (format items level name r) level name r i.ex_info
