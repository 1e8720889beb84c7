-- ===== src/Config/Accepted.antt =====
-- What holds of a configuration that src/config.mts accepts.
use tsbootkit.Base.{
  ℕ, ◌≡◌, ◌≤◌, refl, subst, arith, ◌⊎◌, inl, inr, Option, none, some, Bool, true, false, not, ◌&&◌,
  ◌||◌, List, [], ◌∷◌, ◌++◌, Result, ok, All, ltb,
}
use tsbootkit.Base.Text.{Str, JsInt, int, minus, nan, is_empty}
use tsbootkit.Net.{is_valid_ipv4}
use tsbootkit.Config.{
  Config, RawConfig, RawReservation, Reservation, Issue, DhcpConfig, BootpConfig, TftpConfig,
  HookConfig,
}
use tsbootkit.Config.Validate.{
  validate_config, issues_of, issue_if, check_required, check_address, check_dns, check_dns_servers,
  check_range, check_dhcp, check_bootp, check_tftp, reservations_of, unless_issues, Paths, text_of,
  config_of, hooks_of, find_reservation,
}
use tsbootkit.Config.Reservations.{
  AreValid, check_reservations-AreValid, find_mac-AreValid, unnegated,
}

-- A value that passed a range check: an integer in the range, or NaN.
abbrev pub InRange : ℕ → ℕ → Option JsInt → Type 0
InRange low high none = Unit {0}
InRange low high (some nan) = Unit {0}
InRange low high (some (int n)) = (low ≤ n) × (n ≤ high)
InRange low high (some (minus n)) = ⊥

abbrev pub IsAddressOrBlank : Option Str → Type 0
IsAddressOrBlank none = Unit {0}
IsAddressOrBlank (some ip) = (is_empty ip ≡ true) ⊎ (is_valid_ipv4 ip ≡ true)

abbrev pub AreAddresses : Option (List Str) → Type 0
AreAddresses none = Unit {0}
AreAddresses (some servers) = All (λ ip. is_valid_ipv4 ip ≡ true) servers

abbrev pub DhcpInRange : Option DhcpConfig → Type 0
DhcpInRange none = Unit {0}
DhcpInRange (some c) = InRange 60 86400 c.lease_time

abbrev pub BootpInRange : Option BootpConfig → Type 0
BootpInRange none = Unit {0}
BootpInRange (some c) = InRange 60 604800 c.allocation_lifetime

abbrev pub TftpInRange : Option TftpConfig → Type 0
TftpInRange none = Unit {0}
TftpInRange (some c) = InRange 1 65535 c.port × InRange 1 1024 c.max_transfers

pub record IsAccepted (config : Config) : Type 0 where
  pub interface : is_empty config.interface ≡ false
  pub boot_file : is_empty config.boot_file ≡ false
  pub tftp_root : is_empty config.tftp_root ≡ false
  pub server_ip : IsAddressOrBlank config.addresses.server_ip
  pub subnet_mask : IsAddressOrBlank config.addresses.subnet_mask
  pub router : IsAddressOrBlank config.addresses.router
  pub tftp_server : IsAddressOrBlank config.addresses.tftp_server
  pub dns_servers : AreAddresses config.addresses.dns_servers
  pub reservations : AreValid config.reservations
  pub dhcp : DhcpInRange config.sections.dhcp
  pub bootp : BootpInRange config.sections.bootp
  pub tftp : TftpInRange config.sections.tftp

nil_left : (xs ys : List Issue) → xs ++ ys ≡ [] → (xs ≡ []) × (ys ≡ [])
nil_left [] ys h = (refl, h)
nil_left (x ∷ xs) ys h = cc

no_issue : (b : Bool) (issue : Issue) → issue_if b issue ≡ [] → b ≡ false
no_issue true issue h = cc
no_issue false issue h = refl

required_lem :
    (name : Str) (field : Option Str)
    → check_required name field ≡ []
    → is_empty (text_of field) ≡ false
required_lem name none h = cc
required_lem name (some s) h = no_issue (is_empty s) _ h

address_cases : (a b : Bool) → not a && not b ≡ false → (a ≡ true) ⊎ (b ≡ true)
address_cases true b h = inl refl
address_cases false true h = inr refl
address_cases false false h = cc

address_lem :
    (name : Str) (field : Option Str) → check_address name field ≡ [] → IsAddressOrBlank field
address_lem name none h = tt
address_lem name (some ip) h = address_cases (is_empty ip) (is_valid_ipv4 ip) (no_issue _ _ h)

dns_lem :
    (servers : List Str) → check_dns servers ≡ [] → All (λ ip. is_valid_ipv4 ip ≡ true) servers
dns_lem [] h = tt
dns_lem (dns ∷ rest) h =
    let (here, more) = nil_left _ (check_dns rest) h in
    (unnegated (is_valid_ipv4 dns) (no_issue _ _ here), dns_lem rest more)

dns_servers_lem :
    (servers : Option (List Str)) → check_dns_servers servers ≡ [] → AreAddresses servers
dns_servers_lem none h = tt
dns_servers_lem (some servers) h = dns_lem servers h

range_lem :
    (name : Str) (low high : ℕ) (value : Option JsInt)
    → check_range name low high value ≡ []
    → InRange low high value
range_lem name low high none h = tt
range_lem name low high (some nan) h = tt
range_lem name low high (some (int n)) h =
    let within = no_issue (ltb n low || ltb high n) _ h in ground (arith, within)
range_lem name low high (some (minus n)) h = cc

dhcp_lem : (c : Option DhcpConfig) → check_dhcp c ≡ [] → DhcpInRange c
dhcp_lem none h = tt
dhcp_lem (some c) h = range_lem _ 60 86400 c.lease_time h

bootp_lem : (c : Option BootpConfig) → check_bootp c ≡ [] → BootpInRange c
bootp_lem none h = tt
bootp_lem (some c) h = range_lem _ 60 604800 c.allocation_lifetime h

tftp_lem : (c : Option TftpConfig) → check_tftp c ≡ [] → TftpInRange c
tftp_lem none h = tt
tftp_lem (some c) h =
    let (port, transfers) = nil_left _ _ h in
    (range_lem _ 1 65535 c.port port, range_lem _ 1 1024 c.max_transfers transfers)

reservations_lem : (rs : Option (List RawReservation)) → AreValid (reservations_of rs).1
reservations_lem none = (tt, tt)
reservations_lem (some rs) = check_reservations-AreValid 0 rs [] [] (tt, tt)

unless_issues_ok :
    (issues : List Issue) (rest : Result (List Issue) Config) (config : Config)
    → unless_issues issues rest ≡ ok config
    → (issues ≡ []) × (rest ≡ ok config)
unless_issues_ok [] rest config h = (refl, h)
unless_issues_ok (issue ∷ issues) rest config h = cc

abbrev Outcome : Type 0
Outcome = Result (List Issue) Config

ok_injective : (a b : Config) → ◌≡◌ {A = Outcome} (ok a) (ok b) → a ≡ b
ok_injective a b h = cc

module _ (paths : Paths) (config_dir : Option Str) where
  no_issues-IsAccepted :
      (raw : RawConfig) (hooks : Option (List HookConfig))
      → issues_of raw ≡ []
      → IsAccepted (config_of paths config_dir raw hooks)
  unfolding issues_of
  no_issues-IsAccepted raw hooks h =
      let (interface, h1) = nil_left _ _ h in
      let (boot_file, h2) = nil_left _ _ h1 in
      let (tftp_root, h3) = nil_left _ _ h2 in
      let (mode, h4) = nil_left _ _ h3 in
      let (server_ip, h5) = nil_left _ _ h4 in
      let (subnet_mask, h6) = nil_left _ _ h5 in
      let (router, h7) = nil_left _ _ h6 in
      let (tftp_server, h8) = nil_left _ _ h7 in
      let (dns, h9) = nil_left _ _ h8 in
      let (reservations, h10) = nil_left _ _ h9 in
      let (dhcp, h11) = nil_left _ _ h10 in
      let (bootp, h12) = nil_left _ _ h11 in
      let (http, h13) = nil_left _ _ h12 in
      let (tftp, h14) = nil_left _ _ h13 in
      record {
        interface = required_lem _ raw.interface interface;
        boot_file = required_lem _ raw.boot_file boot_file;
        tftp_root = required_lem _ raw.tftp_root tftp_root;
        server_ip = address_lem _ raw.addresses.server_ip server_ip;
        subnet_mask = address_lem _ raw.addresses.subnet_mask subnet_mask;
        router = address_lem _ raw.addresses.router router;
        tftp_server = address_lem _ raw.addresses.tftp_server tftp_server;
        dns_servers = dns_servers_lem raw.addresses.dns_servers dns;
        reservations = reservations_lem raw.reservations;
        dhcp = dhcp_lem raw.sections.dhcp dhcp;
        bootp = bootp_lem raw.sections.bootp bootp;
        tftp = tftp_lem raw.sections.tftp tftp;
      }

  -- An accepted configuration has an interface, a boot file and a TFTP root; its addresses are valid where they are set and not
  -- empty, and so are all its name servers; its reservations have valid addresses, none of them twice; and the numbers of
  -- its DHCP, BOOTP and TFTP sections are in their ranges, where they are set and not NaN.
  pub validate_config-IsAccepted :
      (raw : RawConfig) (config : Config)
      → validate_config paths config_dir raw ≡ ok config
      → IsAccepted config
  unfolding validate_config
  validate_config-IsAccepted raw config h =
      let (none_first, second) = unless_issues_ok (issues_of raw) _ config h in
      let (none_second, same) =
        unless_issues_ok (hooks_of paths config_dir raw.hooks).1 _ config second in
      subst IsAccepted (ok_injective _ config same)
        (no_issues-IsAccepted raw (hooks_of paths config_dir raw.hooks).0 none_first)

  -- In an accepted configuration, wherever a reservation stands in the list, it is the one that is found for its MAC address.
  pub reservation_found :
      (raw : RawConfig) (config : Config) (before after : List Reservation) (r : Reservation)
      → validate_config paths config_dir raw ≡ ok config
      → config.reservations ≡ before ++ (r ∷ after)
      → find_reservation config r.mac ≡ some r
  reservation_found raw config before after r h e =
      let accepted = validate_config-IsAccepted raw config h in
      rw e (find_mac-AreValid before after r (subst AreValid e accepted.reservations))
