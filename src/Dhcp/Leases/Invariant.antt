-- ===== src/Dhcp/Leases/Invariant.antt =====
-- The invariant of the lease state: a lease stands under its own address, that address is marked
-- as allocated, and no client has two leases. Every message keeps it.
use tsbootkit.Base.{
  ℕ, Option, none, some, Bool, true, false, not, ◌&&◌, ◌||◌, if◌then◌else◌, ◌==◌, leb, [], ◌∷◌, ◌≡◌,
  refl, sym, ap, subst, ◌∙◌, ◌⊎◌, Result, ok, err, arith, Bool-cases, inl, inr,
}
use tsbootkit.Base.Text.{Str, str_eq}
use tsbootkit.Base.Store.{
  Map, IsMap, get, set, delete, has, get-set, get-delete, has-add, has-remove, str_eq_iff,
  str_eq_refl, get-has_key, has_key, set-IsMap, delete-IsMap,
}
use tsbootkit.Dhcp.Types.{Lease, Offer, Config, Packet, State, Reply, silent, discover, request}
use tsbootkit.Dhcp.Leases.{
  drop_offer, drop_lease, gc_offers, gc_expired, gc_leases, find_lease_by_mac, record_offer,
  offered, handle_discover, give_up, free_unless_leased, release_lease_of, register_lease,
  new_lease, acknowledged, nak_or, handle_request, handle_message, allocate_ip,
}

pub record IsConsistent (st : State) : Type 0 where
  pub is_map : IsMap st.leases
  pub own_key : (k : Str) (l : Lease) → get k st.leases ≡ some l → l.ip ≡ k
  pub is_allocated :
      (k : Str) (l : Lease) → get k st.leases ≡ some l → has k st.allocated_ips ≡ true
  pub one_lease :
      (j k : Str) (l m : Lease)
      → get j st.leases ≡ some l
      → get k st.leases ≡ some m
      → l.mac ≡ m.mac
      → j ≡ k

-- The client with this MAC has no lease.
pub HasNoLease : Str → State → Type 0
HasNoLease mac st = (k : Str) (l : Lease) → get k st.leases ≡ some l → str_eq l.mac mac ≡ false

pub find_lease_by_mac-some :
    (mac : Str) (l : Lease) (m : Map Lease)
    → IsMap m
    → find_lease_by_mac mac m ≡ some l
    → (k : Str) × (get k m ≡ some l) × (str_eq l.mac mac ≡ true)
unfolding find_lease_by_mac get
find_lease_by_mac-some mac l [] h e = absurd cc
find_lease_by_mac-some mac l ((ip, v) ∷ m) h e = elim (Bool-cases (str_eq v.mac mac)) [
  | inl same ↦
      let found : v ≡ l = ground arith in
      (
        ip,
        rw (str_eq_refl ip) (ap (λ x. some x) found),
        subst (λ x. str_eq x.mac mac ≡ true) found same,
      )
  | inr other ↦
      let rest = find_lease_by_mac-some mac l m h.1 (ground arith) in
      (
        rest.0,
        ground (
          arith,
          get-has_key rest.0 l m rest.1,
          str_eq_iff ip rest.0,
          h.0,
          ap (λ x. has_key x m),
        ),
        rest.2,
      )
]

pub find_lease_by_mac-none :
    (mac : Str) (m : Map Lease)
    → find_lease_by_mac mac m ≡ none
    → (k : Str) (l : Lease) → get k m ≡ some l
    → str_eq l.mac mac ≡ false
unfolding find_lease_by_mac get
find_lease_by_mac-none mac [] e k l h = absurd cc
find_lease_by_mac-none mac ((ip, v) ∷ m) e k l h = elim (Bool-cases (str_eq v.mac mac)) [
  | inl same ↦ absurd (ground arith)
  | inr other ↦ elim (Bool-cases (str_eq ip k)) [
    | inl here ↦
        let found : v ≡ l = ground arith in subst (λ x. str_eq x.mac mac ≡ false) found other
    | inr later ↦ find_lease_by_mac-none mac m (ground arith) k l (ground arith)
  ]
]

free_unless_leased_lem :
    (ip k : Str) (l : Lease) (st : State) (o : Option Lease)
    → get ip st.leases ≡ o
    → get k st.leases ≡ some l
    → has k st.allocated_ips ≡ true
    → has k (free_unless_leased ip o st.allocated_ips) ≡ true
free_unless_leased_lem ip k l st (some v) q e h = h
free_unless_leased_lem ip k l st none q e h = elim (Bool-cases (str_eq ip k)) [
  | inl same ↦ absurd (ground (arith, str_eq_iff ip k, ap (λ x. get x st.leases)))
  | inr other ↦ rw (has-remove ip k st.allocated_ips, other) h
]

drop_offer-IsConsistent :
    (ip : Str) (st : State) → IsConsistent st → IsConsistent (drop_offer ip st)
drop_offer-IsConsistent ip st h = record {
  is_map = h.is_map;
  own_key = h.own_key;
  is_allocated = λ k l e. free_unless_leased_lem ip k l st _ refl e (h.is_allocated k l e);
  one_lease = h.one_lease;
}

drop_lease-IsConsistent :
    (ip : Str) (st : State) → IsConsistent st → IsConsistent (drop_lease ip st)
drop_lease-IsConsistent ip st h =
    let kept : (k : Str) (l : Lease)
        → get k (delete ip st.leases) ≡ some l
        → (str_eq ip k ≡ false) × (get k st.leases ≡ some l) =
      λ k l e. ground (arith, get-delete ip k st.leases) in
    record {
      is_map = delete-IsMap ip st.leases h.is_map;
      own_key = λ k l e. h.own_key k l (kept k l e).1;
      is_allocated = λ k l e.
          ground (
            arith,
            has-remove ip k st.allocated_ips,
            kept k l e,
            h.is_allocated k l (kept k l e).1,
          );
      one_lease = λ j k l m e f same. h.one_lease j k l m (kept j l e).1 (kept k m f).1 same;
    }

-- A property of states that both loops keep.
module _ (P : State → Type 0) where
  pub gc_offers-keeps :
      (step : (ip : Str) (st : State) → P st → P (drop_offer ip st)) (now : ℕ) (os : Map Offer)
      (st : State)
      → P st
      → P (gc_offers now os st)
  unfolding gc_offers
  gc_offers-keeps step now [] st h = h
  gc_offers-keeps step now ((ip, o) ∷ os) st h = elim (Bool-cases (leb o.expires now)) [
    | inl e ↦ rw e (gc_offers-keeps step now os (drop_offer ip st) (step ip st h))
    | inr e ↦ rw e (gc_offers-keeps step now os st h)
  ]

  pub gc_expired-keeps :
      (step : (ip : Str) (st : State) → P st → P (drop_lease ip st)) (now : ℕ) (ls : Map Lease)
      (st : State)
      → P st
      → P (gc_expired now ls st)
  unfolding gc_expired
  gc_expired-keeps step now [] st h = h
  gc_expired-keeps step now ((ip, l) ∷ ls) st h = elim (Bool-cases (leb l.expires now)) [
    | inl e ↦ rw e (gc_expired-keeps step now ls (drop_lease ip st) (step ip st h))
    | inr e ↦ rw e (gc_expired-keeps step now ls st h)
  ]

pub gc_leases-IsConsistent :
    (now : ℕ) (st : State) → IsConsistent st → IsConsistent (gc_leases now st)
unfolding gc_leases
gc_leases-IsConsistent now st h =
    gc_expired-keeps IsConsistent drop_lease-IsConsistent now _ _
      (gc_offers-keeps IsConsistent drop_offer-IsConsistent now _ st h)

give_up-HasNoLease :
    (mac : Str) (st : State) (o : Option Lease)
    → IsConsistent st
    → find_lease_by_mac mac st.leases ≡ o
    → HasNoLease mac (give_up o st)
unfolding HasNoLease
give_up-HasNoLease mac st none h e = find_lease_by_mac-none mac st.leases e
give_up-HasNoLease mac st (some l) h e = λ k m q.
    let held = find_lease_by_mac-some mac l st.leases h.is_map e in
    let own = h.own_key held.0 l held.1 in
    elim (Bool-cases (str_eq m.mac mac)) [
      | inl same ↦ absurd (
          ground (
            arith,
            get-delete l.ip k st.leases,
            str_eq_iff l.ip k,
            own,
            h.one_lease held.0 k l m held.1,
            held.2,
            str_eq_iff l.mac mac,
            str_eq_iff m.mac mac,
          ))
      | inr other ↦ other
    ]

pub release_lease_of-HasNoLease :
    (mac : Str) (st : State) → IsConsistent st → HasNoLease mac (release_lease_of mac st)
unfolding release_lease_of
release_lease_of-HasNoLease mac st h = give_up-HasNoLease mac st _ h refl

give_up-IsConsistent :
    (o : Option Lease) (st : State) → IsConsistent st → IsConsistent (give_up o st)
give_up-IsConsistent none st h = h
give_up-IsConsistent (some l) st h = drop_lease-IsConsistent l.ip st h

record_offer-IsConsistent :
    (now : ℕ) (p : Packet) (ip : Str) (st : State)
    → IsConsistent st
    → IsConsistent (record_offer now p ip st)
unfolding record_offer
record_offer-IsConsistent now p ip st h = record {
  is_map = h.is_map;
  own_key = h.own_key;
  is_allocated = λ k l e. rw (has-add ip k st.allocated_ips, h.is_allocated k l e) (ground arith);
  one_lease = h.one_lease;
}

-- A lease that is found after one was registered is that one or an earlier one.
pub get-set-cases :
    (ip k : Str) (v l : Lease) (m : Map Lease)
    → get k (set ip v m) ≡ some l
    → (ip ≡ k) × (v ≡ l) ⊎ (get k m ≡ some l)
get-set-cases ip k v l m e = elim (Bool-cases (str_eq ip k)) [
  | inl here ↦ inl ((str_eq_iff ip k).0 here, ground (arith, get-set ip k v m))
  | inr later ↦ inr (ground (arith, get-set ip k v m))
]

register_lease-IsConsistent :
    (now : ℕ) (p : Packet) (ip : Str) (st : State)
    → IsConsistent st
    → HasNoLease p.chaddr st
    → IsConsistent (register_lease now p ip st)
unfolding register_lease HasNoLease
register_lease-IsConsistent now p ip st h fresh = record {
  is_map = set-IsMap ip _ st.leases h.is_map;
  own_key = λ k l e. elim (Bool-cases (str_eq ip k)) [
    | inl here ↦
        ground (arith, get-set ip k (new_lease now p ip) st.leases, str_eq_iff ip k, ap Lease.ip)
    | inr later ↦ h.own_key k l (ground (arith, get-set ip k (new_lease now p ip) st.leases))
  ];
  is_allocated = λ k l e. ground (
    arith,
    has-add ip k st.allocated_ips,
    get-set ip k (new_lease now p ip) st.leases,
    h.is_allocated k l,
  );
  one_lease = λ j k l m e f same. elim (get-set-cases ip j (new_lease now p ip) l st.leases e) [
    | inl a ↦ elim (get-set-cases ip k (new_lease now p ip) m st.leases f) [
      | inl b ↦ sym a.0 ∙ b.0
      | inr g ↦
          absurd (ground (arith, fresh k m g, ap Lease.mac a.1, same, str_eq_iff m.mac p.chaddr))
    ]
    | inr g ↦ elim (get-set-cases ip k (new_lease now p ip) m st.leases f) [
      | inl b ↦
          absurd (ground (arith, fresh j l g, ap Lease.mac b.1, same, str_eq_iff l.mac p.chaddr))
      | inr d ↦ h.one_lease j k l m g d same
    ]
  ];
}

-- A handler's outcome whose state is consistent.
pub LeavesConsistent : State × Reply → Type 0
LeavesConsistent r = IsConsistent r.0

offered-IsConsistent :
    (config : Config) (now : ℕ) (p : Packet) (st : State) (r : Result Str Str)
    → IsConsistent st
    → LeavesConsistent (offered config now p st r)
unfolding LeavesConsistent
offered-IsConsistent config now p st (ok ip) h = record_offer-IsConsistent now p ip st h
offered-IsConsistent config now p st (err e) h = h

acknowledged-IsConsistent :
    (config : Config) (now : ℕ) (p : Packet) (st : State) (r : Result Str Str)
    → IsConsistent st
    → LeavesConsistent (acknowledged config now p st r)
unfolding LeavesConsistent release_lease_of
acknowledged-IsConsistent config now p st (err e) h = h
acknowledged-IsConsistent config now p st (ok ip) h =
    register_lease-IsConsistent now p ip (release_lease_of p.chaddr st)
      (give_up-IsConsistent (find_lease_by_mac p.chaddr st.leases) st h)
      (release_lease_of-HasNoLease p.chaddr st h)

nak_or-IsConsistent :
    (o : Option Str) (st : State) (r : State × Reply)
    → IsConsistent st
    → LeavesConsistent r
    → LeavesConsistent (nak_or o st r)
unfolding LeavesConsistent
nak_or-IsConsistent none st r h k = k
nak_or-IsConsistent (some reason) st r h k = h

if-IsConsistent :
    (b : Bool) (r s : State × Reply)
    → LeavesConsistent r
    → LeavesConsistent s
    → LeavesConsistent (if b then r else s)
if-IsConsistent true r s h k = h
if-IsConsistent false r s h k = k

still : (st : State) → IsConsistent st → LeavesConsistent (st, silent)
unfolding LeavesConsistent
still st h = h

handle_request-IsConsistent :
    (config : Config) (now : ℕ) (random : ℕ → ℕ) (p : Packet) (cleaned : State)
    → IsConsistent cleaned
    → LeavesConsistent (handle_request config now random p cleaned)
unfolding handle_request
handle_request-IsConsistent config now random p cleaned h' =
    if-IsConsistent _ _ _ (still cleaned h')
      (nak_or-IsConsistent _ cleaned _ h' (acknowledged-IsConsistent config now p cleaned _ h'))

-- A message, whatever it is and whatever is drawn, keeps the lease state consistent.
pub handle_message-IsConsistent :
    (config : Config) (now : ℕ) (random : ℕ → ℕ) (p : Packet) (st : State)
    → IsConsistent st
    → LeavesConsistent (handle_message config now random p st)
unfolding handle_message handle_discover
handle_message-IsConsistent config now random p st h =
    let cleaned = gc_leases now st in
    let h' : IsConsistent cleaned = gc_leases-IsConsistent now st h in
    if-IsConsistent (not ((p.message_type == discover) || (p.message_type == request))) _ _
      (still st h)
      (if-IsConsistent (not p.is_pxe && not config.answer_all) _ _ (still st h) (
        if-IsConsistent (p.message_type == discover) _ _
          (offered-IsConsistent config now p cleaned (allocate_ip config cleaned random p.chaddr)
            h')
          (handle_request-IsConsistent config now random p cleaned h')))
