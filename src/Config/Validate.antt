-- ===== src/Config/Validate.antt =====
-- src/config.mts: validateConfig and findReservation.
use tsbootkit.Base.{
  ℕ, suc, Option, none, some, Bool, true, false, ◌&&◌, ◌||◌, not, List, [], ◌∷◌, ◌++◌,
  if◌then◌else◌, Result, ok, err,
}
use tsbootkit.Base.Text.{Str, codes, JsInt, is_empty, str_eq}
use tsbootkit.Net.{is_valid_ipv4}
use tsbootkit.Config.{
  is_valid_mac, below, above, is_nonzero, DhcpConfig, BootpConfig, TftpConfig, HttpConfig,
  LoggingConfig, NetconsoleConfig, HookConfig, RawReservation, Reservation, RawConfig, PxeMode,
  dhcp_mode, bootp_mode, Config, Issue, missing_field, invalid_mode, invalid_address,
  reservation_missing, reservation_invalid, duplicate_mac, duplicate_ip, out_of_range,
  invalid_level, hook_missing_exec, hook_not_found,
}

-- `if (!field)`
abbrev pub is_blank : Option Str → Bool
is_blank none = true
is_blank (some s) = is_empty s

abbrev pub issue_if : Bool → Issue → List Issue
issue_if true issue = issue ∷ []
issue_if false issue = []

abbrev pub check_required : Str → Option Str → List Issue
check_required name field = issue_if (is_blank field) (missing_field name)

abbrev pub check_mode : Option Str → List Issue
check_mode none = []
check_mode (some mode) =
    issue_if
      (not (is_empty mode)
        && (not (str_eq mode (codes "dhcp")) && not (str_eq mode (codes "bootp"))))
      (invalid_mode mode)

abbrev pub check_address : Str → Option Str → List Issue
check_address name none = []
check_address name (some ip) =
    issue_if (not (is_empty ip) && not (is_valid_ipv4 ip)) (invalid_address name ip)

abbrev pub check_dns : List Str → List Issue
check_dns [] = []
check_dns (dns ∷ rest) =
    issue_if (not (is_valid_ipv4 dns)) (invalid_address (codes "dnsServers") dns) ++ check_dns rest

abbrev pub check_dns_servers : Option (List Str) → List Issue
check_dns_servers none = []
check_dns_servers (some servers) = check_dns servers

-- reservations.find((existing) => existing.mac === mac), and the same for the address.
abbrev pub find_mac : Str → List Reservation → Option Reservation
find_mac mac [] = none
find_mac mac (r ∷ rs) = if str_eq r.mac mac then some r else find_mac mac rs

abbrev pub find_ip : Str → List Reservation → Option Reservation
find_ip ip [] = none
find_ip ip (r ∷ rs) = if str_eq r.ip ip then some r else find_ip ip rs

abbrev pub reservation_of : RawReservation → Str → Str → Reservation
reservation_of r mac ip = record {
  mac = mac;
  ip = ip;
  boot_file = r.boot_file;
  hostname = r.hostname;
  boot_files = r.boot_files;
}

abbrev pub check_duplicates :
    ℕ → Option Reservation → Option Reservation → Reservation → Result Issue Reservation
check_duplicates i (some dup) other r = err (duplicate_mac i r.mac dup.ip)
check_duplicates i none (some dup) r = err (duplicate_ip i r.ip dup.mac)
check_duplicates i none none r = ok r

-- One round: the reservation to keep, or why the round ends without one.
abbrev pub check_ip :
    ℕ → List Reservation → RawReservation → Str → Option Str → Result Issue Reservation
check_ip i kept r mac none = err (reservation_missing i (codes "ip"))
check_ip i kept r mac (some ip) =
    if is_empty ip
    then err (reservation_missing i (codes "ip"))
    else if not (is_valid_ipv4 ip)
    then err (reservation_invalid i (codes "IP") ip)
    else check_duplicates i (find_mac mac kept) (find_ip ip kept) (reservation_of r mac ip)

abbrev pub check_reservation :
    ℕ → List Reservation → RawReservation → Option Str → Result Issue Reservation
check_reservation i kept r none = err (reservation_missing i (codes "mac"))
check_reservation i kept r (some mac) =
    if is_empty mac
    then err (reservation_missing i (codes "mac"))
    else if not (is_valid_mac mac)
    then err (reservation_invalid i (codes "MAC") mac)
    else check_ip i kept r mac r.ip

abbrev pub keep :
    Result Issue Reservation → List Issue × List Reservation → List Issue × List Reservation
keep (err issue) (issues, kept) = (issues ++ (issue ∷ []), kept)
keep (ok r) (issues, kept) = (issues, kept ++ (r ∷ []))

-- The loop over the reservations, from number `i` on.
unfoldable pub check_reservations :
    ℕ → List RawReservation → List Issue × List Reservation → List Issue × List Reservation
check_reservations i [] acc = acc
check_reservations i (r ∷ rs) acc =
    check_reservations (suc i) rs (keep (check_reservation i acc.1 r r.mac) acc)

abbrev pub reservations_of : Option (List RawReservation) → List Issue × List Reservation
reservations_of none = ([], [])
reservations_of (some rs) = check_reservations 0 rs ([], [])

-- value !== undefined && (value < low || value > high)
abbrev pub check_range : Str → ℕ → ℕ → Option JsInt → List Issue
check_range name low high none = []
check_range name low high (some n) = issue_if (below n low || above n high) (out_of_range name)

-- The same for a value whose 0 means disabled.
abbrev pub check_range_or_zero : Str → ℕ → ℕ → Option JsInt → List Issue
check_range_or_zero name low high none = []
check_range_or_zero name low high (some n) =
    issue_if (is_nonzero n && (below n low || above n high)) (out_of_range name)

abbrev pub check_size : Option JsInt → List Issue
check_size none = []
check_size (some n) = issue_if (below n 0) (out_of_range (codes "http.maxFileSize"))

abbrev pub check_dhcp : Option DhcpConfig → List Issue
check_dhcp none = []
check_dhcp (some c) = check_range (codes "dhcp.leaseTime") 60 86400 c.lease_time

abbrev pub check_bootp : Option BootpConfig → List Issue
check_bootp none = []
check_bootp (some c) =
    check_range (codes "bootp.allocationLifetime") 60 604800 c.allocation_lifetime

abbrev pub check_http : Option HttpConfig → List Issue
check_http none = []
check_http (some c) =
    check_range_or_zero (codes "http.port") 1 65535 c.port ++ check_size c.max_file_size

abbrev pub check_tftp : Option TftpConfig → List Issue
check_tftp none = []
check_tftp (some c) =
    check_range (codes "tftp.port") 1 65535 c.port
    ++ check_range (codes "tftp.maxTransfers") 1 1024 c.max_transfers

abbrev pub is_level : Str → Bool
is_level s =
    str_eq s (codes "error")
    || (str_eq s (codes "warn")
        || (str_eq s (codes "info") || (str_eq s (codes "debug") || str_eq s (codes "trace"))))

abbrev pub check_level : Option Str → List Issue
check_level none = []
check_level (some level) =
    issue_if (not (is_empty level) && not (is_level level)) (invalid_level level)

abbrev pub check_netconsole : Option NetconsoleConfig → List Issue
check_netconsole none = []
check_netconsole (some c) =
    check_range_or_zero (codes "netconsole.port") 1 65535 c.port
    ++ (check_address (codes "netconsole.address") c.address ++ check_level c.level)

abbrev pub check_logging : Option LoggingConfig → List Issue
check_logging none = []
check_logging (some c) = check_range_or_zero (codes "logging.buffer") 1 10000 c.buffer

-- The errors of the first part, in the order of the checks.
unfoldable pub issues_of : RawConfig → List Issue
issues_of raw =
    check_required (codes "interface") raw.interface
    ++ (check_required (codes "bootFile") raw.boot_file
        ++ (check_required (codes "tftpRoot") raw.tftp_root
            ++ (check_mode raw.mode
                ++ (check_address (codes "serverIP") raw.addresses.server_ip
                    ++ (check_address (codes "subnetMask") raw.addresses.subnet_mask
                        ++ (check_address (codes "router") raw.addresses.router
                            ++ (check_address (codes "tftpServer") raw.addresses.tftp_server
                                ++ (check_dns_servers raw.addresses.dns_servers
                                    ++ ((reservations_of raw.reservations).0
                                        ++ (check_dhcp raw.sections.dhcp
                                            ++ (check_bootp raw.sections.bootp
                                                ++ (check_http raw.sections.http
                                                    ++ (check_tftp raw.sections.tftp
                                                        ++ (check_netconsole raw.sections.netconsole
                                                            ++ check_logging
                                                            raw.sections.logging))))))))))))))

abbrev pub text_of : Option Str → Str
text_of none = []
text_of (some s) = s

abbrev pub mode_of : Option Str → PxeMode
mode_of none = dhcp_mode
mode_of (some s) = if str_eq s (codes "bootp") then bootp_mode else dhcp_mode

-- Each part throws where it found errors.
abbrev pub unless_issues : List Issue → Result (List Issue) Config → Result (List Issue) Config
unless_issues [] rest = rest
unless_issues (issue ∷ issues) rest = err (issue ∷ issues)

-- The file system and the paths of Node, which the second part uses.
pub record Paths : Type 0 where
  pub is_absolute : Str → Bool
  pub resolve : Str → Str → Str
  pub exists : Str → Bool

module _ (paths : Paths) (config_dir : Option Str) where
  abbrev pub resolved_exec : Str → Str
  resolved_exec exec = elim config_dir [
    | none ↦ exec
    | some dir ↦
        if not (is_empty dir) && not (paths.is_absolute exec) then paths.resolve dir exec else exec
  ]

  abbrev pub check_hook : ℕ → HookConfig → Option Str → HookConfig × List Issue
  check_hook i hook none = (hook, hook_missing_exec i ∷ [])
  check_hook i hook (some exec) = if is_empty exec then (hook, hook_missing_exec i ∷ []) else (
    record hook { exec = some (resolved_exec exec) },
    issue_if (not (paths.exists (resolved_exec exec))) (hook_not_found i (resolved_exec exec)),
  )

  abbrev pub check_hooks : ℕ → List HookConfig → List HookConfig × List Issue
  check_hooks i [] = ([], [])
  check_hooks i (hook ∷ hooks) =
      let (checked, issues) = check_hook i hook hook.exec in
      let (more, rest) = check_hooks (suc i) hooks in (checked ∷ more, issues ++ rest)

  abbrev pub hooks_of : Option (List HookConfig) → Option (List HookConfig) × List Issue
  hooks_of none = (none, [])
  hooks_of (some hooks) = let (checked, issues) = check_hooks 0 hooks in (some checked, issues)

  abbrev pub config_of : RawConfig → Option (List HookConfig) → Config
  config_of raw hooks = record {
    interface = text_of raw.interface;
    boot_file = text_of raw.boot_file;
    tftp_root = text_of raw.tftp_root;
    mode = mode_of raw.mode;
    addresses = raw.addresses;
    sections = raw.sections;
    hooks = hooks;
    reservations = (reservations_of raw.reservations).1;
    config_dir = config_dir;
  }

  unfoldable pub validate_config : RawConfig → Result (List Issue) Config
  unfolding issues_of
  validate_config raw =
      let (hooks, hook_issues) = hooks_of raw.hooks in
      unless_issues (issues_of raw) (unless_issues hook_issues (ok (config_of raw hooks)))

-- findReservation
abbrev pub find_reservation : Config → Str → Option Reservation
find_reservation config mac = find_mac mac config.reservations
