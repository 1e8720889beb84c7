-- ===== src/Dhcp/Tests.antt =====
-- Concrete options, leases and messages on which the theorems of the DHCP part are used.
use tsbootkit.Base.{
  ℕ, ◌+◌, ◌≡◌, sym, ap, subst, ◌∙◌, ◌≢◌, refl, arith, [], ◌∷◌, some, none, true, false,
}
use tsbootkit.Base.Text.{Str, codes, split, join, number, to_decimal, decimal_loop}
use tsbootkit.Base.Store.{get, set, has, add, str_eq_iff}
use tsbootkit.BootFile.{Reservation}
use tsbootkit.Net.{
  ipv4_to_int, ipv4_of_parts, int_to_ipv4, quads, generate_random_ip, try_addresses, candidate_of,
  is_skipped, compute_cidr, netmask_to_prefix,
}
use tsbootkit.Dhcp.Options.{parse_options}
use tsbootkit.Dhcp.Options.RoundTrip.{parse_options_total}
use tsbootkit.Dhcp.Types.{Lease, Config, Packet, State}
use tsbootkit.Dhcp.Leases.{
  handle_message, handle_request, handle_discover, gc_leases, gc_offers, gc_expired, new_lease,
  allocate_ip, find_lease_by_mac, record_offer, nak_reason, choose_ip, is_in_subnet,
  leased_to_other,
}
use tsbootkit.Dhcp.Leases.Invariant.{IsConsistent, LeavesConsistent, handle_message-IsConsistent}
use tsbootkit.Dhcp.Leases.Requests.{request_spares_others}
use tsbootkit.Dhcp.Leases.Replies.{offered_ip, acked_ip}
use tsbootkit.Dhcp.Leases.Exchange.{
  offer_is_not_acknowledged, reserved_offer_is_acknowledged, acked_is_leased,
}
use tsbootkit.Dhcp.Leases.Expiry.{gc_leases_frees_expired}

parse_options_total_example : parse_options (53 ∷ 1 ∷ 1 ∷ 255 ∷ []) ≢ none
parse_options_total_example = parse_options_total (53 ∷ 1 ∷ 1 ∷ 255 ∷ [])

abbrev subnet : Config
subnet = record {
  server_ip = codes "10.0.0.1";
  subnet_mask = codes "255.255.255.0";
  boot_file = codes "a";
  boot_files = none;
  answer_all = true;
}

-- One client with a lease until 5, and a reservation for another client.
abbrev reserved : Reservation
reserved = record { ip = codes "10.0.0.9"; boot_file = none; boot_files = none }

abbrev held : Lease
held = record { ip = codes "10.0.0.8"; mac = codes "m"; expires = 5; uuid = none }

abbrev one_lease : State
one_lease = record {
  leases = (codes "10.0.0.8", held) ∷ [];
  offers = [];
  allocated_ips = codes "10.0.0.8" ∷ codes "10.0.0.9" ∷ [];
  reservations = (codes "r", reserved) ∷ [];
}

one_lease-own_key :
    (k : Str) (l : Lease) → get k one_lease.leases ≡ some l → (held ≡ l) × (codes "10.0.0.8" ≡ k)
unfolding get
one_lease-own_key k l h = (ground (arith, h), ground (arith, str_eq_iff (codes "10.0.0.8") k, h))

one_lease-IsConsistent : IsConsistent one_lease
unfolding has
one_lease-IsConsistent = record {
  is_map = (refl, tt);
  own_key = λ k l h. let (a, b) = one_lease-own_key k l h in sym (ap Lease.ip a) ∙ b;
  is_allocated =
      λ k l h. subst (λ x. has x one_lease.allocated_ips ≡ true) (one_lease-own_key k l h).1 refl;
  one_lease = λ j k l m h g e. sym (one_lease-own_key j l h).1 ∙ (one_lease-own_key k m g).1;
}

abbrev draws : ℕ → ℕ
draws i = 7 + i

abbrev asks : Packet
asks = record {
  message_type = 1;
  is_pxe = true;
  chaddr = codes "c";
  ciaddr = codes "0.0.0.0";
  requested_ip = none;
  server_id = none;
  client_uuid = none;
  client_arch = none;
}

handle_message-IsConsistent_example :
    LeavesConsistent (handle_message subnet 3 draws asks one_lease)
handle_message-IsConsistent_example =
    handle_message-IsConsistent subnet 3 draws asks one_lease one_lease-IsConsistent

abbrev wants_held : Packet
wants_held = record asks { message_type = 3; requested_ip = some (codes "10.0.0.8") }

held_there : get (codes "10.0.0.8") one_lease.leases ≡ some held
unfolding get
held_there = refl

no_reservation : get (codes "c") one_lease.reservations ≡ none
unfolding get
no_reservation = refl

no_lease : find_lease_by_mac (codes "c") one_lease.leases ≡ none
unfolding find_lease_by_mac
no_lease = refl

request_spares_others_example :
    get (codes "10.0.0.8") (handle_request subnet 3 draws wants_held one_lease).0.leases ≡ some held
request_spares_others_example =
    request_spares_others subnet 3 draws wants_held one_lease (codes "10.0.0.8") held
      one_lease-IsConsistent no_reservation held_there refl

gc_leases_frees_expired_example :
    (get (codes "10.0.0.8") (gc_leases 5 one_lease).leases ≡ none)
    × (has (codes "10.0.0.8") (gc_leases 5 one_lease).allocated_ips ≡ false)
gc_leases_frees_expired_example =
    gc_leases_frees_expired 5 one_lease (codes "10.0.0.8") held held_there (omega arith)

-- The client with the reservation.
abbrev reserved_asks : Packet
reserved_asks = record asks { chaddr = codes "r" }

abbrev reserved_wants : Packet
reserved_wants = record reserved_asks { message_type = 3; requested_ip = some (codes "10.0.0.9") }

reservation_there : get (codes "r") one_lease.reservations ≡ some reserved
unfolding get
reservation_there = refl

reserved_inside : is_in_subnet subnet (codes "10.0.0.9") ≡ true
unfolding is_in_subnet ipv4_to_int ipv4_of_parts split number
reserved_inside = refl

reserved_unleased : get (codes "10.0.0.9") one_lease.leases ≡ none
unfolding get
reserved_unleased = refl

reserved_offer_is_acknowledged_example :
    (offered_ip (handle_discover subnet 3 draws reserved_asks one_lease).1
      ≡ some (codes "10.0.0.9"))
    × (acked_ip
          (handle_request subnet 4 draws reserved_wants
            (handle_discover subnet 3 draws reserved_asks one_lease).0).1
        ≡ some (codes "10.0.0.9"))
reserved_offer_is_acknowledged_example =
    reserved_offer_is_acknowledged subnet 3 4 draws draws reserved_asks reserved_wants one_lease
      reserved refl reservation_there refl refl reserved_inside
      (ap (leased_to_other (codes "r")) reserved_unleased)

-- A new client is offered 10.0.0.7, asks for it, and is acknowledged 10.0.0.10: draw 7 is taken
-- by the offer, and 8 and 9 are allocated.
abbrev wants_offered : Packet
wants_offered = record asks { message_type = 3; requested_ip = some (codes "10.0.0.7") }

abbrev offered_state : State
offered_state = (handle_message subnet 3 draws asks one_lease).0

new_offer : offered_ip (handle_message subnet 3 draws asks one_lease).1 ≡ some (codes "10.0.0.7")
unfolding handle_message gc_leases gc_offers gc_expired handle_discover allocate_ip
    find_lease_by_mac get generate_random_ip try_addresses candidate_of is_skipped compute_cidr
    netmask_to_prefix ipv4_to_int ipv4_of_parts int_to_ipv4 quads split join number to_decimal
    decimal_loop has
new_offer = refl

new_ack :
    acked_ip (handle_message subnet 4 draws wants_offered offered_state).1
    ≡ some (codes "10.0.0.10")
unfolding handle_message gc_leases gc_offers gc_expired handle_discover allocate_ip
    find_lease_by_mac get generate_random_ip try_addresses candidate_of is_skipped compute_cidr
    netmask_to_prefix ipv4_to_int ipv4_of_parts int_to_ipv4 quads split join number to_decimal
    decimal_loop has handle_request nak_reason choose_ip is_in_subnet record_offer add set
new_ack = refl

offer_is_not_acknowledged_example : codes "10.0.0.10" ≢ codes "10.0.0.7"
offer_is_not_acknowledged_example =
    offer_is_not_acknowledged subnet 3 4 draws draws asks wants_offered one_lease (codes "10.0.0.7")
      (codes "10.0.0.10") one_lease-IsConsistent tt refl no_reservation no_lease (omega arith)
      new_offer new_ack

request_ack :
    acked_ip
      (handle_request subnet 4 draws wants_offered
        (handle_discover subnet 3 draws asks one_lease).0).1
    ≡ some (codes "10.0.0.10")
unfolding handle_discover allocate_ip find_lease_by_mac get generate_random_ip try_addresses
    candidate_of is_skipped compute_cidr netmask_to_prefix ipv4_to_int ipv4_of_parts int_to_ipv4
    quads split join number to_decimal decimal_loop has handle_request nak_reason choose_ip
    is_in_subnet record_offer add
request_ack = refl

acked_is_leased_example :
    get
      (codes "10.0.0.10")
      (handle_request subnet 4 draws wants_offered
        (handle_discover subnet 3 draws asks one_lease).0).0.leases
    ≡ some (new_lease 4 wants_offered (codes "10.0.0.10"))
acked_is_leased_example =
    acked_is_leased subnet 4 draws wants_offered (handle_discover subnet 3 draws asks one_lease).0
      (codes "10.0.0.10") request_ack
