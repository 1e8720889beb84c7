-- ===== src/Config.antt =====
-- src/config.mts: the data of a configuration, and its validation. The fields of the YAML mapping
-- have the types that the source declares for them; their numbers are integers or NaN. Reading the
-- file and parsing YAML are left out. The texts of the error messages are left out, their order is
-- not.
pub mod Validate
pub mod Reservations
pub mod Accepted
mod Tests
use tsbootkit.Base.{
  ℕ, zero, suc, Option, none, some, Bool, true, false, ◌&&◌, ◌||◌, not, ◌==◌, List, [], ◌∷◌,
  if◌then◌else◌, ltb,
}
use tsbootkit.Base.Text.{Str, JsInt, int, minus, nan, is_hex, is_empty, str_eq}
use tsbootkit.BootFile.{BootFileMap}

-- isValidMAC of src/shared/network.mts: groups of two hexadecimal digits, `more` of them before the last.
abbrev pub is_mac_from : ℕ → Str → Bool
is_mac_from zero (h ∷ l ∷ []) = is_hex h && is_hex l
is_mac_from (suc more) (h ∷ l ∷ c ∷ rest) =
    (is_hex h && is_hex l) && ((c == b':') && is_mac_from more rest)
is_mac_from more s = false

abbrev pub is_valid_mac : Str → Bool
is_valid_mac s = is_mac_from 5 s

-- Comparisons with NaN are false.
abbrev pub below : JsInt → ℕ → Bool
below nan bound = false
below (int n) bound = ltb n bound
below (minus n) bound = true

abbrev pub above : JsInt → ℕ → Bool
above nan bound = false
above (int n) bound = ltb bound n
above (minus n) bound = false

abbrev pub is_nonzero : JsInt → Bool
is_nonzero (int zero) = false
is_nonzero n = true

pub record DhcpConfig : Type 0 where
  pub lease_time : Option JsInt
  pub answer_all : Option Bool

pub record BootpConfig : Type 0 where
  pub allocation_lifetime : Option JsInt

pub record TftpConfig : Type 0 where
  pub port : Option JsInt
  pub max_transfers : Option JsInt
  pub allow_write : Option Bool

pub record HttpConfig : Type 0 where
  pub port : Option JsInt
  pub host : Option Str
  pub max_file_size : Option JsInt

pub record LoggingConfig : Type 0 where
  pub level : Option Str
  pub file : Option Str
  pub buffer : Option JsInt

pub record NetconsoleConfig : Type 0 where
  pub port : Option JsInt
  pub address : Option Str
  pub level : Option Str

-- HookConfig of src/shared/hooks.mts
pub record HookConfig : Type 0 where
  pub exec : Option Str
  pub events : Option (List Str)
  pub extra_args : Option (List Str)

pub record RawReservation : Type 0 where
  pub mac : Option Str
  pub ip : Option Str
  pub boot_file : Option Str
  pub hostname : Option Str
  pub boot_files : Option BootFileMap

pub record Reservation : Type 0 where
  pub mac : Str
  pub ip : Str
  pub boot_file : Option Str
  pub hostname : Option Str
  pub boot_files : Option BootFileMap

-- The sections that are passed on as they are.
pub record Sections : Type 0 where
  pub dhcp : Option DhcpConfig
  pub bootp : Option BootpConfig
  pub tftp : Option TftpConfig
  pub logging : Option LoggingConfig
  pub health_port : Option JsInt
  pub http_port : Option JsInt
  pub http : Option HttpConfig
  pub mdns_address : Option Str
  pub boot_files : Option BootFileMap
  pub follow_symlinks : Option Bool
  pub wait : Option Bool
  pub wait_timeout : Option JsInt
  pub netconsole : Option NetconsoleConfig

-- The network addresses, passed on too.
pub record Addresses : Type 0 where
  pub server_ip : Option Str
  pub subnet_mask : Option Str
  pub router : Option Str
  pub tftp_server : Option Str
  pub dns_servers : Option (List Str)

pub record RawConfig : Type 0 where
  pub interface : Option Str
  pub boot_file : Option Str
  pub tftp_root : Option Str
  pub mode : Option Str
  pub addresses : Addresses
  pub sections : Sections
  pub hooks : Option (List HookConfig)
  pub reservations : Option (List RawReservation)

-- PXEMode
pub data PxeMode : Type 0 where
  dhcp_mode : PxeMode
  bootp_mode : PxeMode

-- TSBootKitConfig
pub record Config : Type 0 where
  pub interface : Str
  pub boot_file : Str
  pub tftp_root : Str
  pub mode : PxeMode
  pub addresses : Addresses
  pub sections : Sections
  pub hooks : Option (List HookConfig)
  pub reservations : List Reservation
  pub config_dir : Option Str

-- The errors, with what their messages tell.
pub data Issue : Type 0 where
  missing_field : Str → Issue
  invalid_mode : Str → Issue
  invalid_address : Str → Str → Issue
  reservation_missing : ℕ → Str → Issue
  reservation_invalid : ℕ → Str → Str → Issue
  duplicate_mac : ℕ → Str → Str → Issue
  duplicate_ip : ℕ → Str → Str → Issue
  out_of_range : Str → Issue
  invalid_level : Str → Issue
  hook_missing_exec : ℕ → Issue
  hook_not_found : ℕ → Str → Issue
