-- ===== src/Dhcp/Leases/Collected.antt =====
-- What the garbage collection of src/dhcp/server.mts leaves of an address that was just offered.
use tsbootkit.Base.{
  ℕ, ◌<◌, Option, none, some, true, false, leb, [], ◌∷◌, ◌≡◌, refl, ap, sym, subst, arith,
  Bool-cases, inl, inr, List,
}
use tsbootkit.Base.Text.{Str, str_eq}
use tsbootkit.Base.Store.{
  Map, IsMap, delete-IsMap, get, delete, has, has-remove, str_eq_iff, has_key,
}
use tsbootkit.Dhcp.Types.{Lease, Offer, State}
use tsbootkit.Dhcp.Leases.Invariant.{gc_offers-keeps, gc_expired-keeps}
use tsbootkit.Dhcp.Leases.{
  drop_lease, drop_offer, free_unless_leased, gc_offers, gc_expired, gc_leases, find_lease_by_mac,
}

-- The client has neither a reservation nor a lease.
abbrev pub IsNew : Str → State → Type 0
IsNew mac st = (get mac st.reservations ≡ none) × (find_lease_by_mac mac st.leases ≡ none)

find_lease_by_mac-delete :
    (mac ip : Str) (m : Map Lease)
    → find_lease_by_mac mac m ≡ none
    → find_lease_by_mac mac (delete ip m) ≡ none
unfolding find_lease_by_mac delete
find_lease_by_mac-delete mac ip [] h = refl
find_lease_by_mac-delete mac ip ((j, l) ∷ m) h = elim (Bool-cases (str_eq l.mac mac)) [
  | inl e ↦ absurd (ground arith)
  | inr e ↦ ground (arith, find_lease_by_mac-delete mac ip m)
]

pub gc_leases-IsNew :
    (now : ℕ) (mac : Str) (st : State) → IsNew mac st → IsNew mac (gc_leases now st)
unfolding gc_leases
gc_leases-IsNew now mac st h =
    let cleaned = gc_offers now st.offers st in
    gc_expired-keeps (IsNew mac) (λ ip s k. (k.0, find_lease_by_mac-delete mac ip s.leases k.1)) now
      cleaned.leases cleaned (gc_offers-keeps (IsNew mac) (λ ip s k. k) now st.offers st h)

pub gc_leases-IsMap_offers :
    (now : ℕ) (st : State) → IsMap st.offers → IsMap (gc_leases now st).offers
unfolding gc_leases
gc_leases-IsMap_offers now st h =
    let cleaned = gc_offers now st.offers st in
    gc_expired-keeps (λ s. IsMap s.offers) (λ ip s k. k) now cleaned.leases cleaned
      (gc_offers-keeps (λ s. IsMap s.offers) (λ ip s k. delete-IsMap ip s.offers k) now st.offers st
        h)

absent_key {ℓ} : {V : Type ℓ} (k : Str) (m : Map V) → get k m ≡ none → has_key k m ≡ false
unfolding get
absent_key k [] h = refl
absent_key k ((j, v) ∷ m) h = elim (Bool-cases (str_eq j k)) [
  | inl e ↦ absurd (ground arith)
  | inr e ↦ rw e (absent_key k m (ground arith))
]

free_other :
    (ip k : Str) (o : Option Lease) (ips : List Str)
    → str_eq ip k ≡ false
    → has k ips ≡ true
    → has k (free_unless_leased ip o ips) ≡ true
free_other ip k none ips other h = rw (has-remove ip k ips, other) h
free_other ip k (some l) ips other h = h

-- An address keeps its mark where no offer of it is collected.
gc_offers_other :
    (now : ℕ) (os : Map Offer) (st : State) (k : Str)
    → has_key k os ≡ false
    → has k st.allocated_ips ≡ true
    → has k (gc_offers now os st).allocated_ips ≡ true
unfolding gc_offers
gc_offers_other now [] st k absent h = h
gc_offers_other now ((ip, o) ∷ os) st k absent h = elim (Bool-cases (leb o.expires now)) [
  | inl e ↦
      rw (e, gc_offers)
        (gc_offers_other now os (drop_offer ip st) k (ground arith)
          (free_other ip k (get ip st.leases) st.allocated_ips (ground arith) h))
  | inr e ↦ rw (e, gc_offers) (gc_offers_other now os st k (ground arith) h)
]

gc_offers_live :
    (now : ℕ) (os : Map Offer) (st : State) (k : Str) (o : Offer)
    → IsMap os
    → get k os ≡ some o
    → now < o.expires
    → has k st.allocated_ips ≡ true
    → has k (gc_offers now os st).allocated_ips ≡ true
unfolding gc_offers get
gc_offers_live now [] st k o m e live h = absurd cc
gc_offers_live now ((ip, v) ∷ os) st k o m e live h = elim (Bool-cases (str_eq ip k)) [
  | inl here ↦
      let found : v ≡ o = ground arith in
      let kept : leb v.expires now ≡ false = ground (arith, ap Offer.expires found) in
      let absent : has_key k os ≡ false =
        ground (arith, m.0, str_eq_iff ip k, ap (λ x. has_key x os)) in
      rw (kept, gc_offers) (gc_offers_other now os st k absent h)
  | inr later ↦ elim (Bool-cases (leb v.expires now)) [
    | inl q ↦
        rw (q, gc_offers)
          (gc_offers_live now os (drop_offer ip st) k o m.1 (ground arith) live
            (free_other ip k (get ip st.leases) st.allocated_ips later h))
    | inr q ↦ rw (q, gc_offers) (gc_offers_live now os st k o m.1 (ground arith) live h)
  ]
]

gc_expired_unleased :
    (now : ℕ) (ls : Map Lease) (st : State) (k : Str)
    → has_key k ls ≡ false
    → has k st.allocated_ips ≡ true
    → has k (gc_expired now ls st).allocated_ips ≡ true
unfolding gc_expired
gc_expired_unleased now [] st k absent h = h
gc_expired_unleased now ((ip, l) ∷ ls) st k absent h = elim (Bool-cases (leb l.expires now)) [
  | inl e ↦
      rw (e, gc_expired)
        (gc_expired_unleased now ls (drop_lease ip st) k (ground arith)
          (ground (arith, has-remove ip k st.allocated_ips, h)))
  | inr e ↦ rw (e, gc_expired) (gc_expired_unleased now ls st k (ground arith) h)
]

-- An allocated address that is offered until later, and not leased, stays allocated.
pub gc_leases_keeps_offered :
    (now : ℕ) (st : State) (k : Str) (o : Offer)
    → IsMap st.offers
    → get k st.offers ≡ some o
    → now < o.expires
    → get k st.leases ≡ none
    → has k st.allocated_ips ≡ true
    → has k (gc_leases now st).allocated_ips ≡ true
unfolding gc_leases
gc_leases_keeps_offered now st k o m e live unleased h =
    let cleaned = gc_offers now st.offers st in
    let same : cleaned.leases ≡ st.leases =
      gc_offers-keeps (λ s. s.leases ≡ st.leases) (λ ip s g. g) now st.offers st refl in
    gc_expired_unleased now cleaned.leases cleaned k
      (subst (λ ls. has_key k ls ≡ false) (sym same) (absent_key k st.leases unleased))
      (gc_offers_live now st.offers st k o m e live h)
