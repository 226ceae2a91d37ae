-- ===== src/Logger.antt =====
-- src/logger: the data that the logger's parts share, LoggerCommDef.h. `Logger.Format` is Formatter.cpp,
-- `Logger.Rotate` the appender of rotated files, `Logger.Record` Logger.cpp with all its appenders.
pub mod Text
pub mod Format
pub mod Parse
pub mod Pattern
pub mod Rotate
pub mod Turns
pub mod Files
pub mod Digits
pub mod Record
pub mod Levels
pub mod Records
use ttserver.Base.{ℕ, List}

-- `EnmLoggerLevel`.
pub data Level : Type 0 where
  none : Level
  debug : Level
  info : Level
  warn : Level
  error : Level
  fatal : Level

abbrev pub level_number : Level → ℕ
level_number none = 0
level_number debug = 1
level_number info = 2
level_number warn = 3
level_number error = 4
level_number fatal = 5

-- `STLogRecord`; `sec` and `usec` are the fields of `m_valTime`, texts are their bytes.
pub record LogRecord : Type 0 where
  pub sec : ℕ
  pub usec : ℕ
  pub file : List ℕ
  pub line_num : ℕ
  pub thread_id : ℕ
  pub fiber_id : ℕ
  pub thread_name : List ℕ
  pub func_name : List ℕ
  pub content : List ℕ
