-- ===== src/Tftp/Client.antt =====
-- src/tftp/client.mts: the settings of TFTPClient, and what its two transfers share. A handler of the
-- socket gives the transfer's changed variables and its effects on the outside in their order. A
-- handler runs to its end before the next message, where the text does not say otherwise; local
-- file operations and sends succeed. The interactive shell is left out.
pub mod Get
pub mod Put
mod Tests
use tsbootkit.Base.{
  ℕ, Bool, true, false, Option, none, some, List, [], ◌∷◌, ◌++◌, ◌==◌, ◌||◌, if◌then◌else◌,
}
use tsbootkit.Base.Text.{Str, codes, to_decimal}
use tsbootkit.Base.Buffer.{Buffer}
use tsbootkit.Tftp.Types.{
  RawOptions, ValidatedOptions, default_block_size, default_window_size, lan_block_size,
  lan_window_size,
}
use tsbootkit.Tftp.ErrorCode
use tsbootkit.Tftp.Options.{PartialOptions, get_or, validated_to_raw}
use tsbootkit.Tftp.Encode.{encode_error, encode_rrq}
use tsbootkit.Tftp.Opcode
use tsbootkit.Tftp.Parse.{get_opcode}

-- TFTPClientOptions
pub record ClientOptions : Type 0 where
  pub host : Str
  pub port : Option ℕ
  pub mode : Option Str
  pub rfc1350 : Option Bool
  pub lan : Option Bool
  pub options : Option PartialOptions
  pub timeout : Option ℕ
  pub max_retries : Option ℕ
  pub local_port : Option ℕ

pub record ClientSettings : Type 0 where
  pub host : Str
  pub port : ℕ
  pub mode : Str
  pub opts : PartialOptions
  pub rfc1350 : Bool
  pub timeout : ℕ
  pub max_retries : ℕ
  pub local_port : ℕ

-- RFC1350_DEFAULTS and LAN_DEFAULTS
abbrev pub rfc1350_defaults : PartialOptions
rfc1350_defaults = record {
  blksize = some default_block_size;
  timeout = none;
  tsize = none;
  windowsize = some default_window_size;
}

abbrev pub lan_defaults : PartialOptions
lan_defaults = record {
  blksize = some lan_block_size;
  timeout = none;
  tsize = none;
  windowsize = some lan_window_size;
}

abbrev pub no_options : PartialOptions
no_options = record { blksize = none; timeout = none; tsize = none; windowsize = none }

-- The constructor.
unfoldable pub new_client : ClientOptions → ClientSettings
new_client o = record {
  host = o.host;
  port = get_or o.port 69;
  mode = get_or o.mode (codes "octet");
  opts =
      if get_or o.rfc1350 false
      then rfc1350_defaults
      else if get_or o.lan false
      then lan_defaults
      else get_or o.options no_options;
  rfc1350 = get_or o.rfc1350 false;
  timeout = get_or o.timeout 10;
  max_retries = get_or o.max_retries 5;
  local_port = get_or o.local_port 0;
}

-- The options of the request, with the `tsize` that the transfer asks for or announces.
unfoldable pub request_options : ClientSettings → ℕ → RawOptions
request_options c tsize =
    if c.rfc1350
    then []
    else validated_to_raw (record {
      blksize = get_or c.opts.blksize default_block_size;
      timeout = c.opts.timeout;
      tsize = some tsize;
      windowsize = get_or c.opts.windowsize default_window_size;
    })

-- What holds where no OACK came.
abbrev pub unnegotiated : ClientSettings → ValidatedOptions
unnegotiated c = record {
  blksize = get_or c.opts.blksize default_block_size;
  timeout = none;
  tsize = none;
  windowsize = get_or c.opts.windowsize default_window_size;
}

abbrev pub block_size_of : Option ValidatedOptions → ℕ
block_size_of none = default_block_size
block_size_of (some v) = v.blksize

abbrev pub window_size_of : Option ValidatedOptions → ℕ
window_size_of none = default_window_size
window_size_of (some v) = v.windowsize

-- What a transfer does to the outside. A packet goes to a port of the host that it came from, or
-- of the server. `rejected` and `resolved` settle the promise.
pub data ClientEffect : Type 0 where
  send_to : ℕ → Buffer → ClientEffect
  open_local : ClientEffect
  write_local : Buffer → ClientEffect
  close_local : ClientEffect
  restart_timer : ClientEffect
  stop_timer : ClientEffect
  resolved : ℕ → Option ValidatedOptions → ClientEffect
  rejected : Str → ClientEffect

-- The closure `cleanup`; it also removes the listener.
abbrev pub cleanup : Bool → List ClientEffect
cleanup is_open = stop_timer ∷ (if is_open then close_local ∷ [] else [])

-- A packet from another port than the server's is answered with an ERROR.
abbrev pub wrong_port : ℕ → List ClientEffect
wrong_port port = elim (encode_error ErrorCode.unknown_transfer_id none) [
  | none ↦ []
  | some p ↦ send_to port p ∷ []
]

-- The sender of a datagram.
pub record Sender : Type 0 where
  pub address : Str
  pub port : ℕ

-- The text of the rejection for an ERROR packet.
unfoldable pub error_text : ℕ → Str → Str
unfolding to_decimal
error_text code message = codes "TFTP error [" ++ (to_decimal code ++ (codes "]: " ++ message))

-- ping: the request for a file that is not there, and what the first message answers.
unfoldable pub ping_request : Option Buffer
ping_request = encode_rrq (codes "__tsbootkit_ping__") (codes "octet") []

unfoldable pub on_ping_message : Buffer → Bool
on_ping_message msg = elim (get_opcode msg) [
  | none ↦ false
  | some opcode ↦ (opcode == Opcode.error) || (opcode == Opcode.data_op)
]
