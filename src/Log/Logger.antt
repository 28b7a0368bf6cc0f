-- ===== src/Log/Logger.antt =====
-- log/logger.h and log/logger.cpp: class Logger and the macros. One logged statement is a function:
-- the constructor, the values streamed and the destructor; what `g_output` and `g_flush` do is the
-- effects, in order.
pub mod Lines
use sinetlib.Base.Int.{ℤ, pos}
use sinetlib.Base.{
  ℕ, Bool, true, false, Option, none, some, List, [], ◌∷◌, ◌++◌, leb, ◌==◌, Bytes, codes,
}
use sinetlib.Log.Stream.{
  FixedBuffer, new_buffer, small_buffer_size, Value, char, int, c_string, put_all,
}

pub data LogLevel : Type 0 where
  debug info warn error fatal : LogLevel

-- The numbers of the enumeration.
abbrev pub level_number : LogLevel → ℕ
level_number debug = 0
level_number info = 1
level_number warn = 2
level_number error = 3
level_number fatal = 4

-- `g_loglevel_name`.
abbrev pub loglevel_name : LogLevel → Bytes
loglevel_name debug = codes "DEBUG "
loglevel_name info = codes "INFO  "
loglevel_name warn = codes "WARN  "
loglevel_name error = codes "ERROR "
loglevel_name fatal = codes "FATAL "

-- InitLogLevel; whether the environment has LOG_DEBUG.
unfoldable pub init_log_level : Bool → LogLevel
init_log_level true = debug
init_log_level false = info

-- The tests of the macros, over the global level.
unfoldable pub is_logged : LogLevel → LogLevel → Bool
is_logged global debug = level_number global == level_number debug
is_logged global info = leb (level_number global) (level_number info)
is_logged global warn = true
is_logged global error = true
is_logged global fatal = true

-- Where the statement stands.
pub record Place : Type 0 where
  pub file_name : Bytes
  pub line : ℕ
  pub func_name : Bytes

pub data LogEffect : Type 0 where
  output : Bytes → LogEffect
  flush abort : LogEffect

abbrev pub text : Bytes → Value
text bytes = c_string (some bytes)

-- The constructor.
unfoldable pub new_logger : LogLevel → Place → FixedBuffer
new_logger level place =
    put_all (new_buffer small_buffer_size)
      (text (loglevel_name level) ∷ text place.func_name ∷ text (codes "():") ∷ [])

abbrev pub end_effects : LogLevel → List LogEffect
end_effects fatal = flush ∷ abort ∷ []
end_effects _ = []

-- The destructor.
unfoldable pub end_logger : LogLevel → Place → FixedBuffer → List LogEffect
end_logger level place stream =
    let b = put_all stream (
      text (codes " - ")
      ∷ text place.file_name
      ∷ char b':'
      ∷ int (pos place.line)
      ∷ char 10
      ∷ []) in
    output b.data_ ∷ end_effects level

-- `LOG_… << values`.
unfoldable pub log : LogLevel → LogLevel → Place → List Value → List LogEffect
log global level place values =
    let effects = end_logger level place (put_all (new_logger level place) values) in
    elim (is_logged global level) [ true ↦ effects | false ↦ [] ]
