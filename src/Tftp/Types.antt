-- ===== src/Tftp/Types.antt =====
-- src/tftp/types.mts: opcodes, options, packets and constants.
use tsbootkit.Base.{ℕ, List, [], ◌∷◌, Option, ◌+◌}
use tsbootkit.Base.Text.{Str, codes}
use tsbootkit.Base.Buffer.{Buffer}
use tsbootkit.Base.Store.{Map}

-- ERROR_MESSAGES, indexed by the error code.
abbrev pub error_messages : List Str
error_messages =
    codes "Not defined, see error message (if any)."
    ∷ codes "File not found."
    ∷ codes "Access violation."
    ∷ codes "Disk full or allocation exceeded."
    ∷ codes "Illegal TFTP operation."
    ∷ codes "Unknown transfer ID."
    ∷ codes "File already exists."
    ∷ codes "No such user."
    ∷ codes "Option negotiation failed."
    ∷ []

-- TransferMode and TRANSFER_MODES
abbrev pub transfer_modes : List Str
transfer_modes = codes "netascii" ∷ codes "octet" ∷ []

-- OptionName and OPTION_NAMES
abbrev pub blksize_name : Str
blksize_name = codes "blksize"

abbrev pub timeout_name : Str
timeout_name = codes "timeout"

abbrev pub tsize_name : Str
tsize_name = codes "tsize"

abbrev pub windowsize_name : Str
windowsize_name = codes "windowsize"

abbrev pub option_names : List Str
option_names = blksize_name ∷ timeout_name ∷ tsize_name ∷ windowsize_name ∷ []

-- OPTION_LIMITS
pub record Limits : Type 0 where
  pub low : ℕ
  pub high : ℕ

abbrev pub blksize_limits : Limits
blksize_limits = record { low = 8; high = 65464 }

abbrev pub timeout_limits : Limits
timeout_limits = record { low = 1; high = 255 }

abbrev pub windowsize_limits : Limits
windowsize_limits = record { low = 1; high = 65535 }

-- RawOptions: the properties of the object in the order in which they were set.
abbrev pub RawOptions : Type 0
RawOptions = Map Str

pub record ValidatedOptions : Type 0 where
  pub blksize : ℕ
  pub timeout : Option ℕ
  pub tsize : Option ℕ
  pub windowsize : ℕ

-- RRQPacket and WRQPacket, but for the opcode.
pub record Request : Type 0 where
  pub filename : Str
  pub mode : Str
  pub options : RawOptions

-- TFTPPacket
pub data Packet : Type 0 where
  rrq wrq : Request → Packet
  data_packet : ℕ → Buffer → Packet
  ack : ℕ → Packet
  error : ℕ → Str → Packet
  oack : RawOptions → Packet

abbrev pub default_block_size : ℕ
default_block_size = 512

abbrev pub default_window_size : ℕ
default_window_size = 1

abbrev pub lan_block_size : ℕ
lan_block_size = 1400

abbrev pub lan_window_size : ℕ
lan_window_size = 8

abbrev pub blocknum_reset : ℕ
blocknum_reset = 1

abbrev pub opcode_len : ℕ
opcode_len = 2

abbrev pub blocknum_len : ℕ
blocknum_len = 2

abbrev pub data_header_len : ℕ
data_header_len = opcode_len + blocknum_len
