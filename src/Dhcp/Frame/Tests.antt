-- ===== src/Dhcp/Frame/Tests.antt =====
-- Concrete headers on which the theorems of the checksum are used.
use tsbootkit.Base.{◌-◌, ◌≡◌, ◌≤◌, arith, [], ◌∷◌, some}
use tsbootkit.Base.Text.{codes}
use tsbootkit.Base.Buffer.{Buffer}
use tsbootkit.Dhcp.Frame.{ip_header, checked_header, ip_sum, ip_checksum}
use tsbootkit.Dhcp.Frame.Checksum.{
  ip_checksum-ones_complement, checked_header_verifies, ones_complement, word_sum,
}

abbrev odd_bytes : Buffer
odd_bytes = 255 ∷ 255 ∷ 1 ∷ 2 ∷ 3 ∷ []

ip_checksum-ones_complement_example :
    (ip_checksum odd_bytes ≡ 65535 - ones_complement (word_sum odd_bytes))
    × (ones_complement (word_sum odd_bytes) ≤ 65535)
ip_checksum-ones_complement_example = ip_checksum-ones_complement odd_bytes (ground arith)

checked_header_verifies_example :
    (header : Buffer) × (checked : Buffer) × (ip_header 328
        (codes "10.0.0.1")
        (codes "255.255.255.255")
      ≡ some header)
    × (checked_header header ≡ some checked)
    × (ip_sum 0 checked ≡ 65535)
checked_header_verifies_example =
    checked_header_verifies 328 (codes "10.0.0.1") (codes "255.255.255.255") (omega arith)
