-- ===== src/Dhcp/Packet/Tests.antt =====
-- A concrete request and reply on which the theorems of the DHCP packets are used.
use tsbootkit.Base.{◌≡◌, ◌≤◌, ◌<◌, ◌≢◌, ◌⊎◌, refl, arith, [], ◌∷◌, some, none, ok, err, true}
use tsbootkit.Base.Text.{codes, join, to_decimal, decimal_loop, hex_byte}
use tsbootkit.Base.Buffer.{Buffer, uint32_at}
use tsbootkit.Dhcp.Options.{OptionMap}
use tsbootkit.Dhcp.Packet.{
  DhcpPacket, too_short, bad_cookie, parse_dhcp_packet, packet_of, dotted, magic_cookie,
}
use tsbootkit.Dhcp.Packet.Fields.{IsAddress, IsMac}
use tsbootkit.Dhcp.Packet.Encode.{ReplyData, encode_dhcp_reply, encode_dhcp_nak, nak_type}
use tsbootkit.Dhcp.Packet.RoundTrip.{IsReplyData, Answers, parse-encode_dhcp_reply}
use tsbootkit.Dhcp.Packet.Nak.{parse-encode_dhcp_nak}
use tsbootkit.Dhcp.Packet.Errors.{parse_dhcp_packet_cases}

abbrev request : DhcpPacket
request = record {
  op = 1;
  htype = 1;
  hlen = 6;
  hops = 0;
  xid = 305419896;
  secs = 0;
  flags = 0;
  ciaddr = codes "0.0.0.0";
  yiaddr = codes "0.0.0.0";
  siaddr = codes "0.0.0.0";
  giaddr = codes "0.0.0.0";
  chaddr = codes "52:54:00:0a:00:ff";
  sname = [];
  file = [];
  options = [];
  message_type = some 3;
  is_pxe = true;
  requested_ip = none;
  client_uuid = none;
  client_arch = none;
  hostname = none;
  server_id = none;
}

abbrev reply : ReplyData
reply = record {
  offered_ip = codes "10.0.0.50";
  server_ip = codes "10.0.0.1";
  tftp_server_ip = codes "10.0.0.1";
  boot_file = codes "pxelinux.0";
  reply_type = 5;
  subnet_mask = codes "255.255.255.0";
  router = codes "10.0.0.1";
  lease_time = 600;
  dns_servers = codes "10.0.0.1" ∷ [];
}

server-IsAddress : IsAddress (codes "10.0.0.1")
unfolding dotted join to_decimal decimal_loop
server-IsAddress = record { a = 10; b = 0; c = 0; d = 1; bytes = ground arith; form = refl }

zero-IsAddress : IsAddress (codes "0.0.0.0")
unfolding dotted join to_decimal decimal_loop
zero-IsAddress = record { a = 0; b = 0; c = 0; d = 0; bytes = ground arith; form = refl }

offered-IsAddress : IsAddress (codes "10.0.0.50")
unfolding dotted join to_decimal decimal_loop
offered-IsAddress = record { a = 10; b = 0; c = 0; d = 50; bytes = ground arith; form = refl }

client-IsMac : IsMac (codes "52:54:00:0a:00:ff")
unfolding join hex_byte
client-IsMac = record {
  a = 82;
  b = 84;
  c = 0;
  d = 10;
  e = 0;
  f = 255;
  bytes = ground arith;
  form = refl;
}

reply-IsReplyData : IsReplyData request reply
reply-IsReplyData = record {
  xid = omega arith;
  lease_time = omega arith;
  dns_servers = omega arith;
  ciaddr = zero-IsAddress;
  offered_ip = offered-IsAddress;
  tftp_server_ip = server-IsAddress;
  server_ip = server-IsAddress;
  boot_file = ground arith;
  chaddr = client-IsMac;
}

parse-encode_dhcp_reply_example :
    (buf : Buffer) × (p : DhcpPacket) × (encode_dhcp_reply request reply ≡ some buf)
    × (parse_dhcp_packet buf ≡ ok p)
    × Answers request reply p
parse-encode_dhcp_reply_example = parse-encode_dhcp_reply request reply reply-IsReplyData

parse-encode_dhcp_nak_example :
    (buf : Buffer) × (p : DhcpPacket) × (encode_dhcp_nak request (codes "10.0.0.1") ≡ some buf)
    × (parse_dhcp_packet buf ≡ ok p)
    × (p.message_type ≡ some nak_type)
    × (p.server_id ≡ some (codes "10.0.0.1"))
    × (p.xid ≡ 305419896)
    × (p.chaddr ≡ codes "52:54:00:0a:00:ff")
    × (p.flags ≡ 32768)
    × (p.yiaddr ≡ codes "0.0.0.0")
parse-encode_dhcp_nak_example =
    parse-encode_dhcp_nak request (codes "10.0.0.1") (omega arith) client-IsMac server-IsAddress

abbrev short : Buffer
short = 2 ∷ 1 ∷ 6 ∷ []

parse_dhcp_packet_cases_example :
    ((3 < 240) × (parse_dhcp_packet short ≡ err (too_short 3)))
    ⊎ (((240 ≤ 3)
          × (uint32_at short 236 ≢ magic_cookie)
          × (parse_dhcp_packet short ≡ err (bad_cookie (uint32_at short 236))))
        ⊎ ((240 ≤ 3)
            × (uint32_at short 236 ≡ magic_cookie)
            × (options : OptionMap) × (parse_dhcp_packet short ≡ ok (packet_of short options))))
parse_dhcp_packet_cases_example = parse_dhcp_packet_cases short
