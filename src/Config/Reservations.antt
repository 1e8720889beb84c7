-- ===== src/Config/Reservations.antt =====
-- The reservations that the validation of src/config.mts keeps.
use tsbootkit.Base.{
  ℕ, suc, ◌≡◌, refl, ap, sym, ◌∙◌, subst, arith, Option, none, some, Bool, true, false, not, List,
  [], ◌∷◌, ◌++◌, if◌then◌else◌, Result, ok, err, All, append-nil, append_assoc,
}
use tsbootkit.Base.Text.{Str, is_empty}
use tsbootkit.Base.Store.{str_eq_refl}
use tsbootkit.Net.{is_valid_ipv4}
use tsbootkit.Config.{Reservation, RawReservation, Issue, is_valid_mac}
use tsbootkit.Config.Validate.{
  find_mac, find_ip, check_reservation, check_ip, check_duplicates, check_reservations, keep,
  reservation_of,
}

-- Valid, and no MAC address and no IP address twice: a later entry is found by neither.
abbrev pub IsUnique : List Reservation → List Reservation → Type 0
IsUnique seen [] = Unit {0}
IsUnique seen (r ∷ rs) =
    (find_mac r.mac seen ≡ none) × (find_ip r.ip seen ≡ none) × IsUnique (seen ++ (r ∷ [])) rs

abbrev pub IsValidReservation : Reservation → Type 0
IsValidReservation r = (is_valid_mac r.mac ≡ true) × (is_valid_ipv4 r.ip ≡ true)

abbrev pub AreValid : List Reservation → Type 0
AreValid rs = All IsValidReservation rs × IsUnique [] rs

IsUnique-append_one :
    (seen rs : List Reservation) (r : Reservation)
    → IsUnique seen rs
    → find_mac r.mac (seen ++ rs) ≡ none
    → find_ip r.ip (seen ++ rs) ≡ none
    → IsUnique seen (rs ++ (r ∷ []))
IsUnique-append_one seen [] r h m i = (
  ap (find_mac r.mac) (sym (append-nil seen)) ∙ m,
  ap (find_ip r.ip) (sym (append-nil seen)) ∙ i,
  tt,
)
IsUnique-append_one seen (q ∷ rs) r (hm, hi, h) m i =
    let whole = append_assoc seen (q ∷ []) rs in
    (
      hm,
      hi,
      IsUnique-append_one (seen ++ (q ∷ [])) rs r h (ap (find_mac r.mac) whole ∙ m)
          (ap (find_ip r.ip) whole ∙ i),
    )

All-append_one :
    (rs : List Reservation) (r : Reservation)
    → All IsValidReservation rs
    → IsValidReservation r
    → All IsValidReservation (rs ++ (r ∷ []))
All-append_one [] r h p = (p, tt)
All-append_one (q ∷ rs) r (hq, h) p = (hq, All-append_one rs r h p)

-- A test that was passed.
passed :
    (t : Bool) (issue : Issue) (rest : Result Issue Reservation) (q : Reservation)
    → (if t then err issue else rest) ≡ ok q
    → (t ≡ false) × (rest ≡ ok q)
passed true issue rest q h = cc
passed false issue rest q h = (refl, h)

pub unnegated : (b : Bool) → not b ≡ false → b ≡ true
unnegated true h = refl
unnegated false h = cc

-- A round that keeps a reservation.
check_duplicates_ok :
    (i : ℕ) (m p : Option Reservation) (r q : Reservation)
    → check_duplicates i m p r ≡ ok q
    → (m ≡ none) × (p ≡ none) × (r ≡ q)
check_duplicates_ok i (some dup) p r q h = cc
check_duplicates_ok i none (some dup) r q h = cc
check_duplicates_ok i none none r q h = (refl, refl, cc)

Kept : List Reservation → Reservation → Type 0
Kept kept q = IsValidReservation q × (find_mac q.mac kept ≡ none) × (find_ip q.ip kept ≡ none)

check_ip_ok :
    (i : ℕ) (kept : List Reservation) (r : RawReservation) (mac : Str) (ip : Option Str)
    (q : Reservation)
    → is_valid_mac mac ≡ true
    → check_ip i kept r mac ip ≡ ok q
    → Kept kept q
unfolding Kept
check_ip_ok i kept r mac none q v h = cc
check_ip_ok i kept r mac (some ip) q v h =
    let (set, valid_or) = passed (is_empty ip) _ _ q h in
    let (valid, unique) = passed (not (is_valid_ipv4 ip)) _ _ q valid_or in
    let (no_mac, no_ip, same) =
      check_duplicates_ok i (find_mac mac kept) (find_ip ip kept) (reservation_of r mac ip) q
        unique in
    subst (λ k. IsValidReservation k × (find_mac k.mac kept ≡ none) × (find_ip k.ip kept ≡ none))
      same ((v, unnegated (is_valid_ipv4 ip) valid), no_mac, no_ip)

check_reservation_ok :
    (i : ℕ) (kept : List Reservation) (r : RawReservation) (mac : Option Str) (q : Reservation)
    → check_reservation i kept r mac ≡ ok q
    → Kept kept q
check_reservation_ok i kept r none q h = cc
check_reservation_ok i kept r (some mac) q h =
    let (set, valid_or) = passed (is_empty mac) _ _ q h in
    let (valid, rest) = passed (not (is_valid_mac mac)) _ _ q valid_or in
    check_ip_ok i kept r mac r.ip q (unnegated (is_valid_mac mac) valid) rest

keep-AreValid :
    (res : Result Issue Reservation) (issues : List Issue) (kept : List Reservation)
    → ((q : Reservation) → res ≡ ok q → Kept kept q)
    → AreValid kept
    → AreValid (keep res (issues, kept)).1
unfolding Kept
keep-AreValid (err issue) issues kept h v = v
keep-AreValid (ok r) issues kept h (valid, unique) =
    let (here, m, i) = h r refl in
    (All-append_one kept r valid here, IsUnique-append_one [] kept r unique m i)

-- The validation of reservations, also one that reports errors, keeps valid addresses only, and no address
-- twice.
pub check_reservations-AreValid :
    (i : ℕ) (rs : List RawReservation) (issues : List Issue) (kept : List Reservation)
    → AreValid kept
    → AreValid (check_reservations i rs (issues, kept)).1
unfolding check_reservations
check_reservations-AreValid i [] issues kept v = v
check_reservations-AreValid i (r ∷ rs) issues kept v =
    let next = keep (check_reservation i kept r r.mac) (issues, kept) in
    check_reservations-AreValid (suc i) rs next.0 next.1 (
      keep-AreValid (check_reservation i kept r r.mac) issues kept
        (check_reservation_ok i kept r r.mac) v)

-- Looking up a MAC address.
find_mac-append :
    (mac : Str) (seen rs : List Reservation)
    → find_mac mac seen ≡ none
    → find_mac mac (seen ++ rs) ≡ find_mac mac rs
find_mac-append mac [] rs h = refl
find_mac-append mac (q ∷ seen) rs h = ground (arith, find_mac-append mac seen rs)

unique_before :
    (seen before after : List Reservation) (r : Reservation)
    → IsUnique seen (before ++ (r ∷ after))
    → find_mac r.mac (seen ++ before) ≡ none
unique_before seen [] after r (m, i, h) = ap (find_mac r.mac) (append-nil seen) ∙ m
unique_before seen (q ∷ before) after r (m, i, h) =
    ap (find_mac r.mac) (sym (append_assoc seen (q ∷ []) before))
    ∙ unique_before (seen ++ (q ∷ [])) before after r h

-- Of reservations that validation kept, each one is the one found for its MAC address.
pub find_mac-AreValid :
    (before after : List Reservation) (r : Reservation)
    → AreValid (before ++ (r ∷ after))
    → find_mac r.mac (before ++ (r ∷ after)) ≡ some r
find_mac-AreValid before after r v =
    find_mac-append r.mac before (r ∷ after) (unique_before [] before after r v.1)
    ∙ rw (str_eq_refl r.mac) refl
