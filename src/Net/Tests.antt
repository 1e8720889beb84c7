-- ===== src/Net/Tests.antt =====
-- A concrete network, address and draw on which the theorems of the addresses are used.
use tsbootkit.Base.{ℕ, ◌+◌, ◌≡◌, refl, arith, List, [], ◌∷◌, false, ok}
use tsbootkit.Base.Text.{Str, codes, split, join, number, to_decimal, decimal_loop}
use tsbootkit.Base.Store.{has}
use tsbootkit.Net.{
  ipv4_to_int, int_to_ipv4, ipv4_of_parts, quads, generate_random_ip, try_addresses, candidate_of,
  is_skipped, compute_cidr, netmask_to_prefix,
}
use tsbootkit.Net.Random.{IsFree, generate_random_ip-IsFree, generate_random_ip_succeeds}

abbrev address : Str
address = codes "10.0.0.1"

abbrev netmask : Str
netmask = codes "255.255.255.0"

abbrev allocated : List Str
allocated = codes "10.0.0.7" ∷ []

abbrev draws : ℕ → ℕ
draws i = 7 + i

second_is_free : is_skipped address netmask allocated (candidate_of address netmask 8) ≡ false
unfolding candidate_of is_skipped compute_cidr netmask_to_prefix ipv4_to_int ipv4_of_parts
    int_to_ipv4 quads split join number to_decimal decimal_loop has
second_is_free = refl

generated : generate_random_ip address netmask allocated draws ≡ ok (codes "10.0.0.8")
unfolding generate_random_ip try_addresses candidate_of is_skipped compute_cidr netmask_to_prefix
    ipv4_to_int ipv4_of_parts int_to_ipv4 quads split join number to_decimal decimal_loop has
generated = refl

generate_random_ip-IsFree_example : IsFree address netmask allocated (codes "10.0.0.8")
generate_random_ip-IsFree_example =
    generate_random_ip-IsFree address netmask allocated draws (codes "10.0.0.8") generated

generate_random_ip_succeeds_example :
    (ip : Str) × (generate_random_ip address netmask allocated draws ≡ ok ip)
    × IsFree address netmask allocated ip
generate_random_ip_succeeds_example =
    generate_random_ip_succeeds address netmask allocated draws 1 (omega arith) second_is_free
