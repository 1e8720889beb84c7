-- ===== src/Dhcp/Leases/Expiry.antt =====
-- What the garbage collection of leases keeps and what it removes.
use tsbootkit.Base.{
  ℕ, ◌≤◌, ◌<◌, none, some, true, false, leb, [], ◌∷◌, ◌≡◌, refl, ap, ◌∙◌, arith, Bool-cases, inl,
  inr,
}
use tsbootkit.Base.Text.{Str, str_eq}
use tsbootkit.Base.Store.{Map, IsMap, get, has, get-delete, has-remove, str_eq_iff, has_key}
use tsbootkit.Dhcp.Types.{Lease, Offer, State}
use tsbootkit.Dhcp.Leases.Invariant.{gc_offers-keeps}
use tsbootkit.Dhcp.Leases.{drop_lease, gc_offers, gc_expired, gc_leases}

gc_offers_leases :
    (now : ℕ) (os : Map Offer) (st : State) → (gc_offers now os st).leases ≡ st.leases
gc_offers_leases now os st =
    gc_offers-keeps (λ s. s.leases ≡ st.leases) (λ ip s h. h) now os st refl

expired_step :
    (now : ℕ) (ip : Str) (l : Lease) (ls : Map Lease) (st : State)
    → leb l.expires now ≡ true
    → gc_expired now ((ip, l) ∷ ls) st ≡ gc_expired now ls (drop_lease ip st)
unfolding gc_expired
expired_step now ip l ls st e = rw e

live_step :
    (now : ℕ) (ip : Str) (l : Lease) (ls : Map Lease) (st : State)
    → leb l.expires now ≡ false
    → gc_expired now ((ip, l) ∷ ls) st ≡ gc_expired now ls st
unfolding gc_expired
live_step now ip l ls st e = rw e

gc_expired-nil : (now : ℕ) (st : State) → gc_expired now [] st ≡ st
unfolding gc_expired
gc_expired-nil now st = refl

-- The loop leaves a key alone that is not among its entries, or whose entry is live.
gc_expired_other :
    (now : ℕ) (ls : Map Lease) (st : State) (k : Str)
    → has_key k ls ≡ false
    → get k (gc_expired now ls st).leases ≡ get k st.leases
gc_expired_other now [] st k h = rw (gc_expired-nil now st)
gc_expired_other now ((ip, l) ∷ ls) st k h = elim (Bool-cases (leb l.expires now)) [
  | inl e ↦ rw (expired_step now ip l ls st e) (
      gc_expired_other now ls (drop_lease ip st) k (ground arith)
      ∙ ground (arith, get-delete ip k st.leases))
  | inr e ↦ rw (live_step now ip l ls st e) (gc_expired_other now ls st k (ground arith))
]

gc_expired_live :
    (now : ℕ) (ls : Map Lease) (st : State) (k : Str) (l : Lease)
    → IsMap ls
    → get k ls ≡ some l
    → now < l.expires
    → get k (gc_expired now ls st).leases ≡ get k st.leases
unfolding get
gc_expired_live now [] st k l m e live = absurd cc
gc_expired_live now ((ip, v) ∷ ls) st k l m e live = elim (Bool-cases (str_eq ip k)) [
  | inl here ↦
      let found : v ≡ l = ground arith in
      let kept : leb v.expires now ≡ false = ground (arith, ap Lease.expires found) in
      let absent : has_key k ls ≡ false =
        ground (arith, m.0, str_eq_iff ip k, ap (λ x. has_key x ls)) in
      rw (live_step now ip v ls st kept) (gc_expired_other now ls st k absent)
  | inr later ↦ elim (Bool-cases (leb v.expires now)) [
    | inl q ↦ rw (expired_step now ip v ls st q) (
        gc_expired_live now ls (drop_lease ip st) k l m.1 (ground arith) live
        ∙ ground (arith, get-delete ip k st.leases))
    | inr q ↦
        rw (live_step now ip v ls st q) (gc_expired_live now ls st k l m.1 (ground arith) live)
  ]
]

-- What is gone stays gone.
IsGone : Str → State → Type 0
IsGone k st = (get k st.leases ≡ none) × (has k st.allocated_ips ≡ false)

drop_lease-IsGone : (k ip : Str) (st : State) → IsGone k st → IsGone k (drop_lease ip st)
unfolding IsGone
drop_lease-IsGone k ip st h = (
  ground (arith, get-delete ip k st.leases, h.0),
  ground (arith, has-remove ip k st.allocated_ips, h.1),
)

dropped-IsGone : (ip k : Str) (st : State) → str_eq ip k ≡ true → IsGone k (drop_lease ip st)
unfolding IsGone
dropped-IsGone ip k st e = (
  ground (arith, get-delete ip k st.leases, e),
  ground (arith, has-remove ip k st.allocated_ips, e),
)

gc_expired-IsGone :
    (now : ℕ) (ls : Map Lease) (st : State) (k : Str)
    → IsGone k st
    → IsGone k (gc_expired now ls st)
unfolding gc_expired
gc_expired-IsGone now [] st k h = h
gc_expired-IsGone now ((ip, l) ∷ ls) st k h = elim (Bool-cases (leb l.expires now)) [
  | inl e ↦ rw e (gc_expired-IsGone now ls (drop_lease ip st) k (drop_lease-IsGone k ip st h))
  | inr e ↦ rw e (gc_expired-IsGone now ls st k h)
]

gc_expired_expired :
    (now : ℕ) (ls : Map Lease) (st : State) (k : Str) (l : Lease)
    → get k ls ≡ some l
    → l.expires ≤ now
    → IsGone k (gc_expired now ls st)
unfolding gc_expired get
gc_expired_expired now [] st k l e old = absurd cc
gc_expired_expired now ((ip, v) ∷ ls) st k l e old = elim (Bool-cases (str_eq ip k)) [
  | inl here ↦
      let found : v ≡ l = ground arith in
      let kept : leb v.expires now ≡ true = ground (arith, ap Lease.expires found) in
      rw kept (gc_expired-IsGone now ls (drop_lease ip st) k (dropped-IsGone ip k st here))
  | inr later ↦ elim (Bool-cases (leb v.expires now)) [
    | inl q ↦ rw q (gc_expired_expired now ls (drop_lease ip st) k l (ground arith) old)
    | inr q ↦ rw q (gc_expired_expired now ls st k l (ground arith) old)
  ]
]

-- A lease that has not expired is still there after the collection.
pub gc_leases_keeps_live :
    (now : ℕ) (st : State) (k : Str) (l : Lease)
    → IsMap st.leases
    → get k st.leases ≡ some l
    → now < l.expires
    → get k (gc_leases now st).leases ≡ some l
unfolding gc_leases
gc_leases_keeps_live now st k l m e live =
    let same = gc_offers_leases now st.offers st in
    gc_expired_live now (gc_offers now st.offers st).leases (gc_offers now st.offers st) k l
      (rw same m) (rw same e) live
    ∙ rw same e

-- The collection removes an expired lease and frees its address, also one that is reserved for a
-- client: no hypothesis speaks of the reservations.
pub gc_leases_frees_expired :
    (now : ℕ) (st : State) (k : Str) (l : Lease)
    → get k st.leases ≡ some l
    → l.expires ≤ now
    → (get k (gc_leases now st).leases ≡ none) × (has k (gc_leases now st).allocated_ips ≡ false)
unfolding gc_leases IsGone
gc_leases_frees_expired now st k l e old =
    gc_expired_expired now (gc_offers now st.offers st).leases (gc_offers now st.offers st) k l
      (rw (gc_offers_leases now st.offers st) e) old
