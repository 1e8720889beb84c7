-- ===== src/Tftp/ErrorCode.antt =====
-- src/tftp/types.mts: enum ErrorCode.
use tsbootkit.Base.{ℕ}

abbrev pub not_defined : ℕ
not_defined = 0

abbrev pub file_not_found : ℕ
file_not_found = 1

abbrev pub access_violation : ℕ
access_violation = 2

abbrev pub disk_full : ℕ
disk_full = 3

abbrev pub illegal_operation : ℕ
illegal_operation = 4

abbrev pub unknown_transfer_id : ℕ
unknown_transfer_id = 5

abbrev pub file_already_exists : ℕ
file_already_exists = 6

abbrev pub no_such_user : ℕ
no_such_user = 7

abbrev pub option_negotiation : ℕ
option_negotiation = 8
