-- ===== src/Config/Tests.antt =====
-- A concrete configuration on which the theorems of the validation are used.
use tsbootkit.Base.{◌≡◌, refl, [], ◌∷◌, some, none, ok, true}
use tsbootkit.Base.Text.{codes, int, split}
use tsbootkit.Net.{is_valid_ipv4}
use tsbootkit.Config.{RawConfig, Config, Addresses, Sections, Reservation, dhcp_mode}
use tsbootkit.Config.Validate.{
  Paths, validate_config, find_reservation, issues_of, check_reservations,
}
use tsbootkit.Config.Accepted.{IsAccepted, validate_config-IsAccepted, reservation_found}

abbrev paths : Paths
paths = record { is_absolute = λ p. true; resolve = λ dir p. p; exists = λ p. true }

abbrev addresses : Addresses
addresses = record {
  server_ip = some (codes "10.0.0.1");
  subnet_mask = none;
  router = none;
  tftp_server = none;
  dns_servers = some (codes "8.8.8.8" ∷ []);
}

abbrev sections : Sections
sections = record {
  dhcp = some (record { lease_time = some (int 600); answer_all = none });
  bootp = none;
  tftp = some (record { port = some (int 69); max_transfers = none; allow_write = none });
  logging = none;
  health_port = none;
  http_port = none;
  http = none;
  mdns_address = none;
  boot_files = none;
  follow_symlinks = none;
  wait = none;
  wait_timeout = none;
  netconsole = none;
}

abbrev raw : RawConfig
raw = record {
  interface = some (codes "eth0");
  boot_file = some (codes "pxelinux.0");
  tftp_root = some (codes "/tftpboot");
  mode = some (codes "dhcp");
  addresses = addresses;
  sections = sections;
  hooks = none;
  reservations = some (
      record {
        mac = some (codes "aa:bb:cc:dd:ee:01");
        ip = some (codes "10.0.0.5");
        boot_file = none;
        hostname = none;
        boot_files = none;
      }
      ∷ []);
}

abbrev kept : Reservation
kept = record {
  mac = codes "aa:bb:cc:dd:ee:01";
  ip = codes "10.0.0.5";
  boot_file = none;
  hostname = none;
  boot_files = none;
}

abbrev config : Config
config = record {
  interface = codes "eth0";
  boot_file = codes "pxelinux.0";
  tftp_root = codes "/tftpboot";
  mode = dhcp_mode;
  addresses = addresses;
  sections = sections;
  hooks = none;
  reservations = kept ∷ [];
  config_dir = none;
}

raw_accepted : validate_config paths none raw ≡ ok config
unfolding validate_config issues_of check_reservations is_valid_ipv4 split
raw_accepted = refl

validate_config-IsAccepted_example : IsAccepted config
validate_config-IsAccepted_example = validate_config-IsAccepted paths none raw config raw_accepted

reservation_found_example : find_reservation config (codes "aa:bb:cc:dd:ee:01") ≡ some kept
reservation_found_example = reservation_found paths none raw config [] [] kept raw_accepted refl
