-- ===== src/Dhcp/Leases.antt =====
-- src/dhcp/server.mts: the lease state of the DHCP server and its message handlers. The clock is an
-- argument (`now`, in ms), and so is the sequence of numbers that one message draws from
-- Math.random. What a handler sends is a value: the address, the boot file and the client that the
-- reply's encoder is given. Logging, events and hooks change no state and are left out.
pub mod Invariant
pub mod Requests
pub mod Collected
pub mod Replies
pub mod Exchange
pub mod Expiry
use Prim.Native.Nat.{bit_and}
use tsbootkit.Base.{
  ℕ, zero, suc, ◌+◌, ◌*◌, Option, none, some, Bool, true, false, ◌&&◌, ◌||◌, not, if◌then◌else◌,
  ◌==◌, leb, List, [], ◌∷◌, ◌++◌, ◌≡◌, Result, ok, err,
}
use tsbootkit.Base.Text.{Str, codes, str_eq, is_empty}
use tsbootkit.Base.Store
use tsbootkit.Base.Store.{Map}
use tsbootkit.Net.{ipv4_to_int, generate_random_ip}
use tsbootkit.BootFile.{BootFileMap, Reservation, resolve_boot_file}
use tsbootkit.Dhcp.Types.{
  Lease, Offer, Config, Packet, State, Reply, silent, offer, ack, nak, threw, default_offer_ttl,
  internal_lease_time, zero_address, discover, request,
}

unfoldable pub add_reservation : Str → Reservation → State → State
add_reservation mac r st = record {
  leases = st.leases;
  offers = st.offers;
  allocated_ips = Store.add r.ip st.allocated_ips;
  reservations = Store.set mac r st.reservations;
}

-- Only an address that no lease claimed is freed.
abbrev pub free_unless_leased : Str → Option Lease → List Str → List Str
free_unless_leased ip none ips = Store.remove ip ips
free_unless_leased ip (some l) ips = ips

abbrev pub drop_offer : Str → State → State
drop_offer ip st = record {
  leases = st.leases;
  offers = Store.delete ip st.offers;
  allocated_ips = free_unless_leased ip (Store.get ip st.leases) st.allocated_ips;
  reservations = st.reservations;
}

abbrev pub drop_lease : Str → State → State
drop_lease ip st = record {
  leases = Store.delete ip st.leases;
  offers = st.offers;
  allocated_ips = Store.remove ip st.allocated_ips;
  reservations = st.reservations;
}

-- The two loops of gcLeases, over the entries that the maps had when the loop began.
unfoldable pub gc_offers : ℕ → Map Offer → State → State
gc_offers now [] st = st
gc_offers now ((ip, o) ∷ os) st =
    gc_offers now os (if leb o.expires now then drop_offer ip st else st)

unfoldable pub gc_expired : ℕ → Map Lease → State → State
gc_expired now [] st = st
gc_expired now ((ip, l) ∷ ls) st =
    gc_expired now ls (if leb l.expires now then drop_lease ip st else st)

unfoldable pub gc_leases : ℕ → State → State
gc_leases now st = let cleaned = gc_offers now st.offers st in gc_expired now cleaned.leases cleaned

unfoldable pub find_lease_by_mac : Str → Map Lease → Option Lease
find_lease_by_mac mac [] = none
find_lease_by_mac mac ((ip, l) ∷ ls) = if str_eq l.mac mac then some l else find_lease_by_mac mac ls

unfoldable pub is_in_subnet : Config → Str → Bool
is_in_subnet config ip =
    bit_and (ipv4_to_int ip) (ipv4_to_int config.subnet_mask)
    == bit_and (ipv4_to_int config.server_ip) (ipv4_to_int config.subnet_mask)

abbrev pub reserved_or : Option Reservation → Result Str Str → Result Str Str
reserved_or none ip = ip
reserved_or (some r) ip = ok r.ip

abbrev pub leased_or : Option Lease → Result Str Str → Result Str Str
leased_or none ip = ip
leased_or (some l) ip = ok l.ip

unfoldable pub allocate_ip : Config → State → (ℕ → ℕ) → Str → Result Str Str
allocate_ip config st random mac = reserved_or (Store.get mac st.reservations) (
    leased_or (find_lease_by_mac mac st.leases)
      (generate_random_ip config.server_ip config.subnet_mask st.allocated_ips random))

unfoldable pub get_boot_file_for_mac : Config → State → Str → Option ℕ → Str
get_boot_file_for_mac config st mac arch =
    resolve_boot_file (Store.get mac st.reservations) config.boot_files config.boot_file arch

unfoldable pub record_offer : ℕ → Packet → Str → State → State
record_offer now p ip st = record {
  leases = st.leases;
  offers =
      Store.set ip (record { ip = ip; mac = p.chaddr; expires = now + default_offer_ttl * 1000 })
        st.offers;
  allocated_ips = Store.add ip st.allocated_ips;
  reservations = st.reservations;
}

abbrev pub offered : Config → ℕ → Packet → State → Result Str Str → State × Reply
offered config now p st (err e) = (st, threw e)
offered config now p st (ok ip) =
    (record_offer now p ip st, offer ip (get_boot_file_for_mac config st p.chaddr p.client_arch))

unfoldable pub handle_discover : Config → ℕ → (ℕ → ℕ) → Packet → State → State × Reply
handle_discover config now random p st =
    offered config now p st (allocate_ip config st random p.chaddr)

-- packet.requestedIP ?? packet.ciaddr
abbrev pub requested : Packet → Str
requested p = elim p.requested_ip [ none ↦ p.ciaddr | some ip ↦ ip ]

-- !requestedIP || requestedIP === '0.0.0.0'
abbrev pub is_unset : Str → Bool
is_unset ip = is_empty ip || str_eq ip zero_address

abbrev pub leased_to_other : Str → Option Lease → Bool
leased_to_other mac none = false
leased_to_other mac (some l) = not (str_eq l.mac mac)

abbrev pub holder : Option Lease → Str
holder none = []
holder (some l) = l.mac

unfoldable pub nak_reason : Config → State → Packet → Option Str
nak_reason config st p =
    let ip = requested p in
    if is_unset ip
    then none
    else if not (is_in_subnet config ip)
    then some (codes "requested IP " ++ (ip ++ codes " is outside subnet"))
    else if leased_to_other p.chaddr (Store.get ip st.leases)
    then some (
        codes "requested IP "
        ++ (ip ++ (codes " is leased to " ++ holder (Store.get ip st.leases))))
    else none

unfoldable pub choose_ip : Config → (ℕ → ℕ) → Packet → State → Result Str Str
choose_ip config random p st =
    let ip = requested p in
    if not (is_unset ip) && (not (Store.has ip st.allocated_ips) && is_in_subnet config ip)
    then ok ip
    else allocate_ip config st random p.chaddr

-- The client's earlier lease is given up before the new one is registered.
abbrev pub give_up : Option Lease → State → State
give_up none st = st
give_up (some l) st = drop_lease l.ip st

unfoldable pub release_lease_of : Str → State → State
release_lease_of mac st = give_up (find_lease_by_mac mac st.leases) st

abbrev pub new_lease : ℕ → Packet → Str → Lease
new_lease now p ip = record {
  ip = ip;
  mac = p.chaddr;
  expires = now + internal_lease_time * 1000;
  uuid = p.client_uuid;
}

unfoldable pub register_lease : ℕ → Packet → Str → State → State
register_lease now p ip st = record {
  leases = Store.set ip (new_lease now p ip) st.leases;
  offers = Store.delete ip st.offers;
  allocated_ips = Store.add ip st.allocated_ips;
  reservations = st.reservations;
}

abbrev pub acknowledged : Config → ℕ → Packet → State → Result Str Str → State × Reply
acknowledged config now p st (err e) = (st, threw e)
acknowledged config now p st (ok ip) = (
  register_lease now p ip (release_lease_of p.chaddr st),
  ack ip (get_boot_file_for_mac config st p.chaddr p.client_arch),
)

-- packet.serverID && packet.serverID !== this.config.serverIP
abbrev pub is_for_other_server : Config → Packet → Bool
is_for_other_server config p = elim p.server_id [
  | none ↦ false
  | some id ↦ not (is_empty id) && not (str_eq id config.server_ip)
]

abbrev pub nak_or : Option Str → State → State × Reply → State × Reply
nak_or none st r = r
nak_or (some reason) st r = (st, nak reason)

unfoldable pub handle_request : Config → ℕ → (ℕ → ℕ) → Packet → State → State × Reply
handle_request config now random p st =
    if is_for_other_server config p
    then (st, silent)
    else nak_or (nak_reason config st p) st
        (acknowledged config now p st (choose_ip config random p st))

-- handleMessage from the parsed packet on.
unfoldable pub handle_message : Config → ℕ → (ℕ → ℕ) → Packet → State → State × Reply
handle_message config now random p st =
    if not ((p.message_type == discover) || (p.message_type == request))
    then (st, silent)
    else if not p.is_pxe && not config.answer_all
    then (st, silent)
    else if p.message_type == discover
    then handle_discover config now random p (gc_leases now st)
    else handle_request config now random p (gc_leases now st)
