-- ===== src/Dhcp/Packet/Errors.antt =====
-- Which buffers src/dhcp/protocol.mts takes for a DHCP packet.
use tsbootkit.Base.{
  ◌==◌, ◌≡◌, ◌≤◌, ◌<◌, ◌⊎◌, inl, inr, ◌≢◌, refl, Option, some, none, ok, err, length, ltb,
  Bool-cases, ==→eq, not_==→neq, ltb→lt, not_ltb→ge, drop,
}
use tsbootkit.Base.Buffer.{Buffer, uint32_at}
use tsbootkit.Dhcp.Options.{OptionMap, parse_options}
use tsbootkit.Dhcp.Options.RoundTrip.{parse_options_total}
use tsbootkit.Dhcp.Packet.{too_short, bad_cookie, parse_dhcp_packet, packet_of, magic_cookie}

option_cases : {A : Type 0} (o : Option A) → (o ≡ none) ⊎ ((a : A) × (o ≡ some a))
option_cases none = inl refl
option_cases (some a) = inr (a, refl)

-- Every buffer is parsed, whatever its options, or refused for one of two reasons: it has fewer than 240 bytes, or it has
-- as many and not the magic cookie.
pub parse_dhcp_packet_cases :
    (buf : Buffer)
    → ((length buf < 240) × (parse_dhcp_packet buf ≡ err (too_short (length buf))))
      ⊎ (((240 ≤ length buf)
            × (uint32_at buf 236 ≢ magic_cookie)
            × (parse_dhcp_packet buf ≡ err (bad_cookie (uint32_at buf 236))))
          ⊎ ((240 ≤ length buf)
              × (uint32_at buf 236 ≡ magic_cookie)
              × (options : OptionMap) × (parse_dhcp_packet buf ≡ ok (packet_of buf options))))
unfolding parse_dhcp_packet
parse_dhcp_packet_cases buf = elim (Bool-cases (ltb (length buf) 240)) [
  | inl short ↦ inl (ltb→lt (length buf) 240 short, rw short refl)
  | inr long ↦ elim (Bool-cases (uint32_at buf 236 == magic_cookie)) [
    | inr other ↦ inr (
        inl (
          not_ltb→ge (length buf) 240 long,
          not_==→neq (uint32_at buf 236) magic_cookie other,
          rw (long, other) refl,
        ))
    | inl same ↦ elim (option_cases (parse_options (drop 240 buf))) [
      | inl out ↦ absurd (parse_options_total (drop 240 buf) out)
      | inr (options, parsed) ↦ inr (
          inr (
            not_ltb→ge (length buf) 240 long,
            ==→eq (uint32_at buf 236) magic_cookie same,
            options,
            rw (long, same, parsed) refl,
          ))
    ]
  ]
]
