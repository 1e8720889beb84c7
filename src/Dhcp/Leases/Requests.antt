-- ===== src/Dhcp/Leases/Requests.antt =====
-- What a request does to the clients, the one that sends it and the others.
use tsbootkit.Base.{
  ℕ, Option, none, some, false, not, ◌&&◌, ◌≡◌, refl, sym, ap, ◌∙◌, Result, ok, err, arith,
  Bool-cases, inl, inr,
}
use tsbootkit.Base.Text.{Str, str_eq}
use tsbootkit.Base.Store.{get, has, get-set, get-delete, str_eq_iff}
use tsbootkit.Net.{generate_random_ip}
use tsbootkit.Net.Random.{generate_random_ip-IsFree}
use tsbootkit.Dhcp.Types.{Lease, Config, Packet, State}
use tsbootkit.Dhcp.Leases.{
  allocate_ip, reserved_or, leased_or, find_lease_by_mac, choose_ip, requested, is_unset,
  is_in_subnet, acknowledged, register_lease, release_lease_of, give_up, handle_request, nak_or,
  nak_reason, is_for_other_server, new_lease,
}
use tsbootkit.Dhcp.Leases.Invariant.{IsConsistent, find_lease_by_mac-some}

-- An address chosen for a client without a reservation is not leased to another one.
allocate_ip-spares :
    (config : Config) (random : ℕ → ℕ) (st : State) (mac ip k : Str) (l : Lease)
    → IsConsistent st
    → get mac st.reservations ≡ none
    → get k st.leases ≡ some l
    → str_eq l.mac mac ≡ false
    → allocate_ip config st random mac ≡ ok ip
    → str_eq ip k ≡ false
unfolding allocate_ip
allocate_ip-spares config random st mac ip k l h no_reservation e other a =
    by_lease (find_lease_by_mac mac st.leases) refl (
      ap
        (λ r. reserved_or r (
          leased_or (find_lease_by_mac mac st.leases)
            (generate_random_ip config.server_ip config.subnet_mask st.allocated_ips random)))
        (sym no_reservation)
      ∙ a)
  where
    by_lease :
        (o : Option Lease)
        → find_lease_by_mac mac st.leases ≡ o
        → leased_or o
            (generate_random_ip config.server_ip config.subnet_mask st.allocated_ips random)
          ≡ ok ip
        → str_eq ip k ≡ false
    by_lease none q b =
        let free =
          generate_random_ip-IsFree config.server_ip config.subnet_mask st.allocated_ips random ip
            b in
        ground (
          arith,
          free.not_allocated,
          h.is_allocated k l e,
          str_eq_iff ip k,
          ap (λ x. has x st.allocated_ips),
        )
    by_lease (some m) q b =
        let held = find_lease_by_mac-some mac m st.leases h.is_map q in
        ground (
          arith,
          h.own_key held.0 m held.1,
          held.2,
          str_eq_iff ip k,
          ap (λ x. get x st.leases),
          ap Lease.mac,
        )

choose_ip-spares :
    (config : Config) (random : ℕ → ℕ) (p : Packet) (st : State) (ip k : Str) (l : Lease)
    → IsConsistent st
    → get p.chaddr st.reservations ≡ none
    → get k st.leases ≡ some l
    → str_eq l.mac p.chaddr ≡ false
    → choose_ip config random p st ≡ ok ip
    → str_eq ip k ≡ false
unfolding choose_ip
choose_ip-spares config random p st ip k l h no_reservation e other a =
    elim (Bool-cases (
      not (is_unset (requested p))
      && (not (has (requested p) st.allocated_ips) && is_in_subnet config (requested p)))) [
        | inl q ↦
            ground
              (arith, q, h.is_allocated k l e, str_eq_iff ip k, ap (λ x. has x st.allocated_ips), a)
        | inr q ↦
            allocate_ip-spares config random st p.chaddr ip k l h no_reservation e other
              (ground arith)
      ]

give_up-spares :
    (mac k : Str) (l : Lease) (st : State) (o : Option Lease)
    → IsConsistent st
    → find_lease_by_mac mac st.leases ≡ o
    → get k st.leases ≡ some l
    → str_eq l.mac mac ≡ false
    → get k (give_up o st).leases ≡ some l
give_up-spares mac k l st none h q e other = e
give_up-spares mac k l st (some m) h q e other =
    let held = find_lease_by_mac-some mac m st.leases h.is_map q in
    let elsewhere : str_eq m.ip k ≡ false = ground (
      arith,
      h.own_key held.0 m held.1,
      held.1,
      held.2,
      str_eq_iff m.ip k,
      ap (λ x. get x st.leases),
      ap Lease.mac,
    ) in
    rw (get-delete m.ip k st.leases, elsewhere) e

acknowledged-spares :
    (config : Config) (now : ℕ) (p : Packet) (st : State) (k : Str) (l : Lease) (r : Result Str Str)
    → IsConsistent st
    → get k st.leases ≡ some l
    → str_eq l.mac p.chaddr ≡ false
    → ((ip : Str) → r ≡ ok ip → str_eq ip k ≡ false)
    → get k (acknowledged config now p st r).0.leases ≡ some l
unfolding register_lease release_lease_of
acknowledged-spares config now p st k l (err m) h e other apart = e
acknowledged-spares config now p st k l (ok ip) h e other apart =
    rw (get-set ip k (new_lease now p ip) (release_lease_of p.chaddr st).leases, apart ip refl)
      (give_up-spares p.chaddr k l st _ h refl e other)

-- In a consistent state, a request by a client without a reservation leaves the lease of every
-- other client as it is, whatever address it asks for and whatever is drawn.
pub request_spares_others :
    (config : Config) (now : ℕ) (random : ℕ → ℕ) (p : Packet) (st : State) (k : Str) (l : Lease)
    → IsConsistent st
    → get p.chaddr st.reservations ≡ none
    → get k st.leases ≡ some l
    → str_eq l.mac p.chaddr ≡ false
    → get k (handle_request config now random p st).0.leases ≡ some l
unfolding handle_request
request_spares_others config now random p st k l h no_reservation e other =
    elim (Bool-cases (is_for_other_server config p)) [
      | inl q ↦ rw q e
      | inr q ↦ rw q (answered (nak_reason config st p))
    ]
  where
    answered :
        (o : Option Str)
        → get k (nak_or o st (acknowledged config now p st (choose_ip config random p st))).0.leases
          ≡ some l
    answered none =
        acknowledged-spares config now p st k l _ h e other
          (λ ip a. choose_ip-spares config random p st ip k l h no_reservation e other a)
    answered (some reason) = e
