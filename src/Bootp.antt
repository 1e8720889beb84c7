-- ===== src/Bootp.antt =====
-- src/bootp/server.mts: the allocation state of the BOOTP server and its message handler. The clock
-- is an argument (`now`, in ms), and so are the numbers drawn from Math.random for one message.
-- What is sent is a value: the address, the boot file and the target of the reply.
pub mod Packet
pub mod Repeats
mod Tests
use tsbootkit.Base.{
  ℕ, ◌+◌, ◌*◌, Option, none, some, Bool, true, false, ◌&&◌, ◌||◌, not, if◌then◌else◌, ◌==◌, leb,
  List, [], ◌∷◌, Result, ok, err,
}
use tsbootkit.Base.Text.{Str, codes, str_eq, is_empty}
use tsbootkit.Base.Store
use tsbootkit.Base.Store.{Map}
use tsbootkit.Net.{generate_random_ip, compute_cidr}
use tsbootkit.BootFile.{BootFileMap, Reservation, resolve_boot_file}

pub record Allocation : Type 0 where
  pub ip : Str
  pub last_seen : ℕ

pub record BootpConfig : Type 0 where
  pub server_ip : Str
  pub subnet_mask : Str
  pub boot_file : Str
  pub boot_files : Option BootFileMap
  pub hostname : Str
  pub allocation_lifetime : ℕ

-- The fields of a parsed packet that the handler reads.
pub record BootpPacket : Type 0 where
  pub op : ℕ
  pub message_type : Option ℕ
  pub sname : Str
  pub chaddr : Str
  pub ciaddr : Str
  pub client_arch : Option ℕ

pub record BootpState : Type 0 where
  pub allocated_ips : List Str
  pub allocations : Map Allocation
  pub reservations : Map Reservation

-- A reply has an address, a boot file and a target.
pub data BootpReply : Type 0 where
  ignored : BootpReply
  replied : Str → Str → Str → BootpReply
  failed : Str → BootpReply

unfoldable pub reserve : Str → Reservation → BootpState → BootpState
reserve mac r st = record {
  allocated_ips = Store.add r.ip st.allocated_ips;
  allocations = st.allocations;
  reservations = Store.set mac r st.reservations;
}

abbrev pub reserved_or : Option Reservation → Result Str Str → Result Str Str
reserved_or none ip = ip
reserved_or (some r) ip = ok r.ip

unfoldable pub allocate : BootpConfig → BootpState → (ℕ → ℕ) → Str → Result Str Str
allocate config st random mac =
    reserved_or (Store.get mac st.reservations)
      (generate_random_ip config.server_ip config.subnet_mask st.allocated_ips random)

-- A known client keeps the address of its entry; only the time is renewed.
abbrev pub seen_at : ℕ → Str → Option Allocation → Allocation
seen_at now ip none = record { ip = ip; last_seen = now }
seen_at now ip (some a) = record { ip = a.ip; last_seen = now }

unfoldable pub track : ℕ → Str → Str → BootpState → BootpState
track now mac ip st = record {
  allocated_ips = Store.add ip st.allocated_ips;
  allocations = Store.set mac (seen_at now ip (Store.get mac st.allocations)) st.allocations;
  reservations = st.reservations;
}

unfoldable pub boot_file_for : BootpConfig → BootpState → BootpPacket → Str
boot_file_for config st p =
    resolve_boot_file (Store.get p.chaddr st.reservations) config.boot_files config.boot_file
      p.client_arch

-- sendReply broadcasts unless the client has an address.
abbrev pub target_of : BootpConfig → BootpPacket → Str
target_of config p =
    if is_empty p.ciaddr || str_eq p.ciaddr (codes "0.0.0.0")
    then (compute_cidr config.server_ip config.subnet_mask).broadcast
    else p.ciaddr

abbrev pub answered :
    BootpConfig → ℕ → BootpPacket → BootpState → Result Str Str → BootpState × BootpReply
answered config now p st (err e) = (st, failed e)
answered config now p st (ok ip) =
    (track now p.chaddr ip st, replied ip (boot_file_for config st p) (target_of config p))

unfoldable pub handle_bootp_request :
    BootpConfig → ℕ → (ℕ → ℕ) → BootpPacket → BootpState → BootpState × BootpReply
handle_bootp_request config now random p st =
    answered config now p st (allocate config st random p.chaddr)

abbrev pub is_dhcp : Option ℕ → Bool
is_dhcp none = false
is_dhcp (some t) = true

-- handleMessage from the parsed packet on.
unfoldable pub handle_bootp_message :
    BootpConfig → ℕ → (ℕ → ℕ) → BootpPacket → BootpState → BootpState × BootpReply
handle_bootp_message config now random p st =
    if not (p.op == 1)
    then (st, ignored)
    else if is_dhcp p.message_type
    then (st, ignored)
    else if not (is_empty p.sname) && not (str_eq p.sname config.hostname)
    then (st, ignored)
    else handle_bootp_request config now random p st

-- gcAllocations, over the entries that the map had when the loop began.
abbrev pub reclaim : Str → Allocation → BootpState → BootpState
reclaim mac a st = record {
  allocated_ips = Store.remove a.ip st.allocated_ips;
  allocations = Store.delete mac st.allocations;
  reservations = st.reservations;
}

unfoldable pub gc_entries : BootpConfig → ℕ → Map Allocation → BootpState → BootpState
gc_entries config now [] st = st
gc_entries config now ((mac, a) ∷ entries) st =
    gc_entries config now entries
      (if leb (a.last_seen + config.allocation_lifetime * 1000) now then reclaim mac a st else st)

unfoldable pub gc_allocations : BootpConfig → ℕ → BootpState → BootpState
gc_allocations config now st = gc_entries config now st.allocations st
