-- ===== src/Bootp/Tests.antt =====
-- A concrete BOOTP client on which the theorem is used.
use tsbootkit.Base.{ℕ, ◌+◌, ◌≡◌, ◌≢◌, refl, none, some, []}
use tsbootkit.Base.Text.{codes, split, join, number, to_decimal, decimal_loop}
use tsbootkit.Base.Store.{get, has, add}
use tsbootkit.Net.{
  ipv4_to_int, ipv4_of_parts, int_to_ipv4, quads, generate_random_ip, try_addresses, candidate_of,
  is_skipped, compute_cidr, netmask_to_prefix,
}
use tsbootkit.Bootp.{BootpConfig, BootpPacket, BootpState, handle_bootp_request, allocate, track}
use tsbootkit.Bootp.Repeats.{replied_ip, repeated_request_moves}

abbrev subnet : BootpConfig
subnet = record {
  server_ip = codes "10.0.0.1";
  subnet_mask = codes "255.255.255.0";
  boot_file = codes "a";
  boot_files = none;
  hostname = codes "h";
  allocation_lifetime = 86400;
}

abbrev unused : BootpState
unused = record { allocated_ips = []; allocations = []; reservations = [] }

abbrev draws : ℕ → ℕ
draws i = 7 + i

abbrev asks : BootpPacket
asks = record {
  op = 1;
  message_type = none;
  sname = [];
  chaddr = codes "c";
  ciaddr = codes "0.0.0.0";
  client_arch = none;
}

no_reservation : get asks.chaddr unused.reservations ≡ none
unfolding get
no_reservation = refl

first_reply :
    replied_ip (handle_bootp_request subnet 3 draws asks unused).1 ≡ some (codes "10.0.0.7")
unfolding handle_bootp_request allocate get generate_random_ip try_addresses candidate_of is_skipped
    compute_cidr netmask_to_prefix ipv4_to_int ipv4_of_parts int_to_ipv4 quads split join number
    to_decimal decimal_loop has
first_reply = refl

second_reply :
    replied_ip
      (handle_bootp_request subnet 4 draws asks
        (handle_bootp_request subnet 3 draws asks unused).0).1
    ≡ some (codes "10.0.0.8")
unfolding handle_bootp_request allocate get generate_random_ip try_addresses candidate_of is_skipped
    compute_cidr netmask_to_prefix ipv4_to_int ipv4_of_parts int_to_ipv4 quads split join number
    to_decimal decimal_loop has track add
second_reply = refl

repeated_request_moves_example : codes "10.0.0.8" ≢ codes "10.0.0.7"
repeated_request_moves_example =
    repeated_request_moves subnet 3 4 draws draws asks unused (codes "10.0.0.7") (codes "10.0.0.8")
      no_reservation first_reply second_reply
