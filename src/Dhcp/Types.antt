-- ===== src/Dhcp/Types.antt =====
-- The data of src/dhcp/server.mts and the fields of src/dhcp/types.mts that it reads.
use tsbootkit.Base.{ℕ, Option, Bool, List}
use tsbootkit.Base.Text.{Str, codes}
use tsbootkit.Base.Store.{Map}
use tsbootkit.BootFile.{BootFileMap, Reservation}

pub record Lease : Type 0 where
  pub ip : Str
  pub mac : Str
  pub expires : ℕ
  pub uuid : Option Str

pub record Offer : Type 0 where
  pub ip : Str
  pub mac : Str
  pub expires : ℕ

pub record Config : Type 0 where
  pub server_ip : Str
  pub subnet_mask : Str
  pub boot_file : Str
  pub boot_files : Option BootFileMap
  pub answer_all : Bool

-- The fields of a parsed packet that the handlers read.
pub record Packet : Type 0 where
  pub message_type : ℕ
  pub is_pxe : Bool
  pub chaddr : Str
  pub ciaddr : Str
  pub requested_ip : Option Str
  pub server_id : Option Str
  pub client_uuid : Option Str
  pub client_arch : Option ℕ

pub record State : Type 0 where
  pub leases : Map Lease
  pub offers : Map Offer
  pub allocated_ips : List Str
  pub reservations : Map Reservation

-- What comes of a message.
pub data Reply : Type 0 where
  silent : Reply
  offer : Str → Str → Reply
  ack : Str → Str → Reply
  nak : Str → Reply
  threw : Str → Reply

abbrev pub default_offer_ttl : ℕ
default_offer_ttl = 60

abbrev pub internal_lease_time : ℕ
internal_lease_time = 900

abbrev pub zero_address : Str
zero_address = codes "0.0.0.0"

-- DHCPMessageType
abbrev pub discover : ℕ
discover = 1

abbrev pub request : ℕ
request = 3
