-- ===== src/LogBuffer/Tests.antt =====
-- A concrete buffer on which the theorem of the last entries is used.
use tsbootkit.Base.{◌≡◌, arith, [], ◌∷◌, some, none}
use tsbootkit.Base.Text.{Str, codes}
use tsbootkit.LogBuffer.{LogInfo, BufferedLogEntry, entry_of, new_log_buffer}
use tsbootkit.LogBuffer.Last.{log_all, log_all-last_of}

abbrev message : Str → Str × LogInfo
message s =
    (codes "t", record { timestamp = none; level = codes "info"; label = none; message = s })

abbrev entry : Str → BufferedLogEntry
entry s = entry_of (message s).0 (message s).1

log_all-last_of_example :
    (log_all
      (message (codes "a") ∷ message (codes "b") ∷ message (codes "c") ∷ [])
      (new_log_buffer (some 2))).buffer
    ≡ entry (codes "b") ∷ entry (codes "c") ∷ []
log_all-last_of_example =
    log_all-last_of (message (codes "a") ∷ message (codes "b") ∷ message (codes "c") ∷ [])
      (new_log_buffer (some 2)) (omega arith)
