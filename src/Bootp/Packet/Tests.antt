-- ===== src/Bootp/Packet/Tests.antt =====
-- A concrete request and reply on which the theorem of the BOOTP packets is used.
use tsbootkit.Base.{◌≡◌, ◌≤◌, refl, arith, [], ◌∷◌, some, none, ok, false, length}
use tsbootkit.Base.Text.{codes, join, to_decimal, decimal_loop, hex_byte}
use tsbootkit.Base.Buffer.{Buffer}
use tsbootkit.Dhcp.Packet.{DhcpPacket, parse_dhcp_packet, dotted}
use tsbootkit.Bootp.Packet.{BootpReplyData, encode_bootp_reply}
use tsbootkit.Bootp.Packet.RoundTrip.{IsBootpReplyData, AnswersBootp, parse-encode_bootp_reply}

abbrev request : DhcpPacket
request = record {
  op = 1;
  htype = 1;
  hlen = 6;
  hops = 0;
  xid = 7;
  secs = 0;
  flags = 0;
  ciaddr = codes "0.0.0.0";
  yiaddr = codes "0.0.0.0";
  siaddr = codes "0.0.0.0";
  giaddr = codes "0.0.0.0";
  chaddr = codes "52:54:00:0a:00:ff";
  sname = [];
  file = [];
  options = [];
  message_type = none;
  is_pxe = false;
  requested_ip = none;
  client_uuid = none;
  client_arch = none;
  hostname = none;
  server_id = none;
}

abbrev reply : BootpReplyData
reply = record {
  offered_ip = codes "10.0.0.50";
  tftp_server_ip = codes "10.0.0.1";
  boot_file = codes "vmlinux";
  server_hostname = codes "boot";
  subnet_mask = codes "255.255.255.0";
  router = codes "10.0.0.2";
  dns_servers = codes "10.0.0.3" ∷ codes "10.0.0.4" ∷ [];
}

reply-IsBootpReplyData : IsBootpReplyData request reply
unfolding dotted join to_decimal decimal_loop hex_byte
reply-IsBootpReplyData = record {
  xid = omega arith;
  dns_servers = omega arith;
  offered_ip = record { a = 10; b = 0; c = 0; d = 50; bytes = ground arith; form = refl };
  tftp_server_ip = record { a = 10; b = 0; c = 0; d = 1; bytes = ground arith; form = refl };
  chaddr = record {
    a = 82;
    b = 84;
    c = 0;
    d = 10;
    e = 0;
    f = 255;
    bytes = ground arith;
    form = refl;
  };
  subnet_mask = record { a = 255; b = 255; c = 255; d = 0; bytes = ground arith; form = refl };
  router = record { a = 10; b = 0; c = 0; d = 2; bytes = ground arith; form = refl };
  name_servers = (
    record { a = 10; b = 0; c = 0; d = 3; bytes = ground arith; form = refl },
    (record { a = 10; b = 0; c = 0; d = 4; bytes = ground arith; form = refl }, tt),
  );
  server_hostname = ground arith;
  boot_file = ground arith;
}

parse-encode_bootp_reply_example :
    (buf : Buffer) × (p : DhcpPacket) × (encode_bootp_reply request reply ≡ some buf)
    × (parse_dhcp_packet buf ≡ ok p)
    × AnswersBootp request reply p
    × (300 ≤ length buf)
parse-encode_bootp_reply_example = parse-encode_bootp_reply request reply reply-IsBootpReplyData
