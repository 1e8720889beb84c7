-- ===== src/Dhcp/Leases/Exchange.antt =====
-- A DISCOVER and the REQUEST that follows it: which address the client is acknowledged.
use tsbootkit.Base.{
  ℕ, ◌+◌, ◌*◌, ◌<◌, Option, none, some, true, false, not, ◌&&◌, ◌≡◌, ◌≢◌, refl, sym, ap, subst, ◌∙◌,
  Result, ok, err, arith, Bool-cases, inl, inr,
}
use tsbootkit.Base.Text.{Str}
use tsbootkit.Base.Store.{IsMap, set-IsMap, get, has, get-set, has-add, str_eq_refl}
use tsbootkit.BootFile.{Reservation}
use tsbootkit.Net.Random.{generate_random_ip-IsFree}
use tsbootkit.Dhcp.Types.{Config, Packet, State, Lease, Offer, default_offer_ttl}
use tsbootkit.Dhcp.Leases.Invariant.{IsConsistent, gc_leases-IsConsistent}
use tsbootkit.Dhcp.Leases.Replies.{acked_ip, offered_ip, message_offered, message_acked}
use tsbootkit.Dhcp.Leases.Collected.{
  IsNew, gc_leases-IsNew, gc_leases-IsMap_offers, gc_leases_keeps_offered,
}
use tsbootkit.Dhcp.Leases.{
  handle_message, gc_leases, allocate_ip, find_lease_by_mac, choose_ip, requested, is_unset,
  is_in_subnet, acknowledged, register_lease, release_lease_of, handle_request, nak_or, nak_reason,
  is_for_other_server, new_lease, leased_to_other, handle_discover, offered, record_offer,
}

-- The state after a DISCOVER that was answered with an offer of `ip`.
after_offer :
    (config : Config) (now : ℕ) (p : Packet) (st : State) (r : Result Str Str) (ip : Str)
    → offered_ip (offered config now p st r).1 ≡ some ip
    → (offered config now p st r).0 ≡ record_offer now p ip st
after_offer config now p st (err e) ip h = absurd cc
after_offer config now p st (ok a) ip h =
    let same : a ≡ ip = ground arith in ap (λ x. record_offer now p x st) same

acked-ok :
    (config : Config) (now : ℕ) (p : Packet) (st : State) (r : Result Str Str) (a : Str)
    → acked_ip (acknowledged config now p st r).1 ≡ some a
    → r ≡ ok a
acked-ok config now p st (err e) a h = absurd cc
acked-ok config now p st (ok b) a h = let same : b ≡ a = ground arith in ap (λ x. ok x) same

acked-chosen :
    (config : Config) (now : ℕ) (random : ℕ → ℕ) (p : Packet) (st : State) (a : Str)
    → acked_ip (handle_request config now random p st).1 ≡ some a
    → choose_ip config random p st ≡ ok a
unfolding handle_request
acked-chosen config now random p st a h = elim (Bool-cases (is_for_other_server config p)) [
  | inl q ↦ absurd (ground arith)
  | inr q ↦ answered (nak_reason config st p) (ground arith)
]
  where
    answered :
        (o : Option Str)
        → acked_ip (nak_or o st (acknowledged config now p st (choose_ip config random p st))).1
          ≡ some a
        → choose_ip config random p st ≡ ok a
    answered none g = acked-ok config now p st (choose_ip config random p st) a g
    answered (some reason) g = absurd cc

-- An address that is allocated is not what a client with neither a reservation nor a lease is
-- given.
choose_ip_fresh :
    (config : Config) (random : ℕ → ℕ) (p : Packet) (st : State) (a : Str)
    → get p.chaddr st.reservations ≡ none
    → find_lease_by_mac p.chaddr st.leases ≡ none
    → choose_ip config random p st ≡ ok a
    → has a st.allocated_ips ≡ false
unfolding choose_ip allocate_ip
choose_ip_fresh config random p st a no_reservation no_lease e =
    elim (Bool-cases (
      not (is_unset (requested p))
      && (not (has (requested p) st.allocated_ips) && is_in_subnet config (requested p)))) [
        | inl q ↦ ground (arith, q, ap (λ x. has x st.allocated_ips), e)
        | inr q ↦
            (generate_random_ip-IsFree config.server_ip config.subnet_mask st.allocated_ips random a
              (ground (arith, no_reservation, no_lease, e))).not_allocated
      ]

-- An address that was offered was allocated for the client, and the offer was recorded.
offered-allocated :
    (config : Config) (now : ℕ) (p : Packet) (st : State) (r : Result Str Str) (ip : Str)
    → offered_ip (offered config now p st r).1 ≡ some ip
    → r ≡ ok ip
offered-allocated config now p st (err e) ip h = absurd cc
offered-allocated config now p st (ok a) ip h =
    let same : a ≡ ip = ground arith in ap (λ x. ok x) same

allocate_ip_new :
    (config : Config) (random : ℕ → ℕ) (st : State) (mac ip : Str)
    → IsNew mac st
    → allocate_ip config st random mac ≡ ok ip
    → has ip st.allocated_ips ≡ false
unfolding allocate_ip
allocate_ip_new config random st mac ip (no_reservation, no_lease) e =
    (generate_random_ip-IsFree config.server_ip config.subnet_mask st.allocated_ips random ip
      (ground (arith, no_reservation, no_lease, e))).not_allocated

unleased :
    (st : State) (ip : Str)
    → IsConsistent st
    → has ip st.allocated_ips ≡ false
    → (o : Option Lease) → get ip st.leases ≡ o
    → o ≡ none
unleased st ip h free none e = refl
unleased st ip h free (some l) e = absurd (ground (arith, h.is_allocated ip l e, free))

-- The state after a DISCOVER of a new client, when the collection before its REQUEST is done and the
-- offer has not run out: the address is allocated still.
offered_kept :
    (config : Config) (now now' : ℕ) (p : Packet) (st : State) (ip : Str)
    → IsConsistent st
    → IsMap st.offers
    → has ip st.allocated_ips ≡ false
    → now' < now + 60000
    → has ip (gc_leases now' (record_offer now p ip st)).allocated_ips ≡ true
unfolding record_offer
offered_kept config now now' p st ip h m free soon =
    let o : Offer = record { ip = ip; mac = p.chaddr; expires = now + default_offer_ttl * 1000 } in
    gc_leases_keeps_offered now' (record_offer now p ip st) ip o (set-IsMap ip o st.offers m)
      (rw (get-set ip ip o st.offers, str_eq_refl ip) refl) (omega arith)
      (unleased st ip h free (get ip st.leases) refl)
      (rw (has-add ip ip st.allocated_ips, str_eq_refl ip) refl)

record_offer-IsNew :
    (now : ℕ) (mac : Str) (p : Packet) (ip : Str) (st : State)
    → IsNew mac st
    → IsNew mac (record_offer now p ip st)
unfolding record_offer
record_offer-IsNew now mac p ip st h = h

-- In a consistent state whose offers stand once under each address, a client that has neither a
-- reservation nor a lease and is offered an address in answer to a message is never acknowledged
-- that address in answer to its next one less than 60 seconds later, where no other message comes
-- between, whatever it asks for: the offer has marked the address as allocated, so the server draws
-- another one. Both messages run the collection first.
pub offer_is_not_acknowledged :
    (config : Config) (now now' : ℕ) (random random' : ℕ → ℕ) (p q : Packet) (st : State)
    (ip a : Str)
    → IsConsistent st
    → IsMap st.offers
    → q.chaddr ≡ p.chaddr
    → get p.chaddr st.reservations ≡ none
    → find_lease_by_mac p.chaddr st.leases ≡ none
    → now' < now + 60000
    → offered_ip (handle_message config now random p st).1 ≡ some ip
    → acked_ip (handle_message config now' random' q (handle_message config now random p st).0).1
      ≡ some a
    → a ≢ ip
unfolding handle_discover
offer_is_not_acknowledged config now now' random random' p q st ip a h m same no_reservation
      no_lease soon o k =
    let cleaned = gc_leases now st in
    let discovered = message_offered config now random p st ip o in
    let given = subst (λ r. offered_ip r.1 ≡ some ip) discovered o in
    let new = gc_leases-IsNew now p.chaddr st (no_reservation, no_lease) in
    let free =
      allocate_ip_new config random cleaned p.chaddr ip new
        (offered-allocated config now p cleaned _ ip given) in
    let next = record_offer now p ip cleaned in
    let stands : (handle_message config now random p st).0 ≡ next =
      ap (λ r. r.0) discovered ∙ after_offer config now p cleaned _ ip given in
    let k' = subst (λ s. acked_ip (handle_message config now' random' q s).1 ≡ some a) stands k in
    let taken =
      subst (λ r. acked_ip r.1 ≡ some a) (message_acked config now' random' q next a k') k' in
    let later = gc_leases now' next in
    let still_new : IsNew q.chaddr later =
      subst (λ mac. IsNew mac later) (sym same)
        (gc_leases-IsNew now' p.chaddr next (record_offer-IsNew now p.chaddr p ip cleaned new)) in
    let fresh =
      choose_ip_fresh config random' q later a still_new.0 still_new.1
        (acked-chosen config now' random' q later a taken) in
    let marked =
      offered_kept config now now' p cleaned ip (gc_leases-IsConsistent now st h)
        (gc_leases-IsMap_offers now st m) free soon in
    λ e. ground (arith, marked, fresh, ap (λ x. has x later.allocated_ips) e)

allocate_ip_reserved :
    (config : Config) (random : ℕ → ℕ) (st : State) (mac : Str) (r : Reservation)
    → get mac st.reservations ≡ some r
    → allocate_ip config st random mac ≡ ok r.ip
unfolding allocate_ip
allocate_ip_reserved config random st mac r h = rw h

nak_reason-none :
    (config : Config) (st : State) (p : Packet)
    → is_in_subnet config (requested p) ≡ true
    → leased_to_other p.chaddr (get (requested p) st.leases) ≡ false
    → nak_reason config st p ≡ none
unfolding nak_reason
nak_reason-none config st p inside free = ground (arith, inside, free)

choose_ip_allocated :
    (config : Config) (random : ℕ → ℕ) (p : Packet) (st : State)
    → has (requested p) st.allocated_ips ≡ true
    → choose_ip config random p st ≡ allocate_ip config st random p.chaddr
unfolding choose_ip
choose_ip_allocated config random p st h = ground (arith, h)

-- A client with a reservation whose address is in the subnet and leased to no other client is
-- offered that address and is acknowledged it when it then requests it of this server.
pub reserved_offer_is_acknowledged :
    (config : Config) (now now' : ℕ) (random random' : ℕ → ℕ) (p q : Packet) (st : State)
    (r : Reservation)
    → q.chaddr ≡ p.chaddr
    → get p.chaddr st.reservations ≡ some r
    → requested q ≡ r.ip
    → is_for_other_server config q ≡ false
    → is_in_subnet config r.ip ≡ true
    → leased_to_other q.chaddr (get r.ip st.leases) ≡ false
    → (offered_ip (handle_discover config now random p st).1 ≡ some r.ip)
      × (acked_ip
            (handle_request config now' random' q (handle_discover config now random p st).0).1
          ≡ some r.ip)
unfolding handle_discover handle_request record_offer
reserved_offer_is_acknowledged config now now' random random' p q st r same reserved asks here
      inside free =
    let given = allocate_ip_reserved config random st p.chaddr r reserved in
    let next = record_offer now p r.ip st in
    let no_nak =
      nak_reason-none config next q (subst (λ a. is_in_subnet config a ≡ true) (sym asks) inside)
        (subst (λ a. leased_to_other q.chaddr (get a st.leases) ≡ false) (sym asks) free) in
    let marked : has (requested q) next.allocated_ips ≡ true =
      rw (asks, has-add r.ip r.ip st.allocated_ips, str_eq_refl r.ip) in
    let chosen =
      choose_ip_allocated config random' q next marked
      ∙ allocate_ip_reserved config random' next q.chaddr r (rw same reserved) in
    rw given (refl, rw (here, no_nak, chosen))

-- A client that is acknowledged an address holds the lease on it.
pub acked_is_leased :
    (config : Config) (now : ℕ) (random : ℕ → ℕ) (p : Packet) (st : State) (a : Str)
    → acked_ip (handle_request config now random p st).1 ≡ some a
    → get a (handle_request config now random p st).0.leases ≡ some (new_lease now p a)
unfolding handle_request register_lease
acked_is_leased config now random p st a h = elim (Bool-cases (is_for_other_server config p)) [
  | inl q ↦ absurd (ground arith)
  | inr q ↦ rw q (answered (nak_reason config st p) (choose_ip config random p st) (ground arith))
]
  where
    answered :
        (o : Option Str) (r : Result Str Str)
        → acked_ip (nak_or o st (acknowledged config now p st r)).1 ≡ some a
        → get a (nak_or o st (acknowledged config now p st r)).0.leases ≡ some (new_lease now p a)
    answered none (ok b) g =
        let same : b ≡ a = ground arith in
        rw (
          same,
          get-set a a (new_lease now p a) (release_lease_of p.chaddr st).leases,
          str_eq_refl a,
        )
    answered none (err e) g = absurd cc
    answered (some reason) r g = absurd cc
