-- ===== src/LogBuffer.antt =====
-- src/shared/log-buffer.mts: the ring buffer of log entries behind the dashboard.
pub mod Last
mod Tests
use tsbootkit.Base.{ℕ, Option, none, some, List, [], ◌∷◌, ◌++◌, if◌then◌else◌, ltb, length}
use tsbootkit.Base.Text.{Str, codes}

pub record BufferedLogEntry : Type 0 where
  pub timestamp : Str
  pub level : Str
  pub label : Str
  pub message : Str

-- LogBufferTransport
pub record LogBuffer : Type 0 where
  pub buffer : List BufferedLogEntry
  pub max_size : ℕ

-- The fields of a message that are read.
pub record LogInfo : Type 0 where
  pub timestamp : Option Str
  pub level : Str
  pub label : Option Str
  pub message : Str

abbrev pub or_text : Option Str → Str → Str
or_text none s = s
or_text (some t) s = t

abbrev pub new_log_buffer : Option ℕ → LogBuffer
new_log_buffer none = record { buffer = []; max_size = 500 }
new_log_buffer (some size) = record { buffer = []; max_size = size }

-- `now` is the time as a text.
abbrev pub entry_of : Str → LogInfo → BufferedLogEntry
entry_of now info = record {
  timestamp = or_text info.timestamp now;
  level = info.level;
  label = or_text info.label [];
  message = info.message;
}

-- buffer.shift()
abbrev pub shift : List BufferedLogEntry → List BufferedLogEntry
shift [] = []
shift (e ∷ es) = es

abbrev pub pushed : List BufferedLogEntry → ℕ → BufferedLogEntry → List BufferedLogEntry
pushed buffer max_size e =
    let more = buffer ++ (e ∷ []) in if ltb max_size (length more) then shift more else more

unfoldable pub log : Str → LogInfo → LogBuffer → LogBuffer
log now info b = record b { buffer = pushed b.buffer b.max_size (entry_of now info) }
