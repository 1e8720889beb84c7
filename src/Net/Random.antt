-- ===== src/Net/Random.antt =====
-- The random choice of an address: what it gives is free and lies in the server's network, and it
-- fails only when every attempt was refused.
use Prim.Native.Nat.{bit_and}
use tsbootkit.Base.{
  ℕ, zero, suc, ◌+◌, ◌^◌, ◌≤◌, ◌<◌, ◌≡◌, refl, sym, subst, ◌∙◌, arith, List, true, false, ◌==◌,
  Result, ok, err, Bool-cases, inl, inr, ==_iff, ◌≢◌,
}
use tsbootkit.Base.Bits.{bit_and_below, bit_or_below, mask_of_parts}
use tsbootkit.Base.Text.{Str}
use tsbootkit.Base.Store.{has}
use tsbootkit.Net.{
  ipv4_to_int, int_to_ipv4, compute_cidr, complement, candidate_of, is_skipped, try_addresses,
  generate_random_ip,
}
use tsbootkit.Net.Quad.{ipv4_to_int-int_to_ipv4, ipv4_to_int_below}

module _ (address netmask : Str) (allocated : List Str) where
  -- An address that may be handed out.
  pub record IsFree (ip : Str) : Type 0 where
    pub in_network :
        bit_and (ipv4_to_int ip) (ipv4_to_int netmask)
        ≡ bit_and (ipv4_to_int address) (ipv4_to_int netmask)
    pub not_server : ipv4_to_int ip ≢ ipv4_to_int address
    pub not_network : ipv4_to_int ip ≢ ipv4_to_int (compute_cidr address netmask).network
    pub not_broadcast : ipv4_to_int ip ≢ ipv4_to_int (compute_cidr address netmask).broadcast
    pub not_allocated : has ip allocated ≡ false

  candidate_below : (e : ℕ) → candidate_of address netmask e < 2 ^ 32
  unfolding candidate_of
  candidate_below e =
      let mask = ipv4_to_int netmask in
      let low = ipv4_to_int_below netmask in
      bit_or_below 32 (bit_and (ipv4_to_int address) mask) (bit_and e (complement mask))
        (bit_and_below 32 (ipv4_to_int address) mask low)
        (bit_and_below 32 e (complement mask) (omega arith))

  candidate_in_network :
      (e : ℕ)
      → bit_and (candidate_of address netmask e) (ipv4_to_int netmask)
        ≡ bit_and (ipv4_to_int address) (ipv4_to_int netmask)
  unfolding candidate_of
  candidate_in_network e =
      mask_of_parts 32 (ipv4_to_int address) e (ipv4_to_int netmask) (ipv4_to_int_below netmask)

  candidate-IsFree :
      (e : ℕ)
      → is_skipped address netmask allocated (candidate_of address netmask e) ≡ false
      → IsFree (int_to_ipv4 (candidate_of address netmask e))
  unfolding is_skipped
  candidate-IsFree e h =
      let c = candidate_of address netmask e in
      let back : ipv4_to_int (int_to_ipv4 c) ≡ c = ipv4_to_int-int_to_ipv4 c (candidate_below e) in
      record {
        in_network = rw back (candidate_in_network e);
        not_server = λ q. ground (arith, sym back ∙ q);
        not_network = λ q. ground (arith, sym back ∙ q);
        not_broadcast = λ q. ground (arith, sym back ∙ q);
        not_allocated = ground arith;
      }

  -- What the attempts come to: a free address, or every attempt refused.
  abbrev IsAnswer : (ℕ → ℕ) → ℕ → ℕ → Result Str Str → Type 0
  IsAnswer random first left (ok ip) = IsFree ip
  IsAnswer random first left (err e) =
      (i : ℕ)
      → first ≤ i
      → i < first + left
      → is_skipped address netmask allocated (candidate_of address netmask (random i)) ≡ true

  try_addresses-IsAnswer :
      (left : ℕ) (random : ℕ → ℕ) (first : ℕ)
      → IsAnswer random first left (try_addresses left address netmask allocated random first)
  unfolding try_addresses
  try_addresses-IsAnswer zero random first = λ i p q. absurd (omega arith)
  try_addresses-IsAnswer (suc left) random first =
      let c = candidate_of address netmask (random first) in
      elim (Bool-cases (is_skipped address netmask allocated c)) [
        | inl e ↦ rw e (
            add_attempt (try_addresses left address netmask allocated random (suc first)) e
              (try_addresses-IsAnswer left random (suc first)))
        | inr e ↦ rw e (candidate-IsFree (random first) e)
      ]
    where
      add_attempt :
          (r : Result Str Str)
          → is_skipped address netmask allocated (candidate_of address netmask (random first))
            ≡ true
          → IsAnswer random (suc first) left r
          → IsAnswer random first (suc left) r
      add_attempt (ok ip) e h = h
      add_attempt (err m) e h = λ i p q. elim (Bool-cases (i == first)) [
        | inl same ↦
            subst
              (λ j.
                is_skipped address netmask allocated (candidate_of address netmask (random j))
                ≡ true)
              (sym ((==_iff i first).0 same)) e
        | inr other ↦ h i (ground arith) (omega arith)
      ]

  attempts :
      (random : ℕ → ℕ)
      → IsAnswer random 0 1000 (generate_random_ip address netmask allocated random)
  unfolding generate_random_ip
  attempts random = try_addresses-IsAnswer 1000 random 0

  -- An address that generateRandomIP returns is in the network of the server's address, is not the
  -- server's, the network's or the broadcast address, and is not allocated.
  pub generate_random_ip-IsFree :
      (random : ℕ → ℕ) (ip : Str)
      → generate_random_ip address netmask allocated random ≡ ok ip
      → IsFree ip
  generate_random_ip-IsFree random ip h = subst (IsAnswer random 0 1000) h (attempts random)

  -- One draw among the 1000 that gives an address which may be handed out is enough: the call
  -- returns an address, and it is one that is free.
  pub generate_random_ip_succeeds :
      (random : ℕ → ℕ) (i : ℕ)
      → i < 1000
      → is_skipped address netmask allocated (candidate_of address netmask (random i)) ≡ false
      → (ip : Str) × (generate_random_ip address netmask allocated random ≡ ok ip) × IsFree ip
  generate_random_ip_succeeds random i p h =
      decided (generate_random_ip address netmask allocated random) (attempts random)
    where
      decided :
          (r : Result Str Str) → IsAnswer random 0 1000 r → (ip : Str) × (r ≡ ok ip) × IsFree ip
      decided (ok ip) free = (ip, refl, free)
      decided (err m) refused = absurd (ground (arith, refused i (omega arith) (omega arith)))
