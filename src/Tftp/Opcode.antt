-- ===== src/Tftp/Opcode.antt =====
-- src/tftp/types.mts: enum Opcode.
use tsbootkit.Base.{ℕ}

abbrev pub rrq : ℕ
rrq = 1

abbrev pub wrq : ℕ
wrq = 2

abbrev pub data_op : ℕ
data_op = 3

abbrev pub ack : ℕ
ack = 4

abbrev pub error : ℕ
error = 5

abbrev pub oack : ℕ
oack = 6
