-- ===== src/Bootp/Repeats.antt =====
-- A BOOTP client that asks again.
use tsbootkit.Base.{ℕ, Option, none, some, false, ◌≡◌, ◌≢◌, sym, ap, subst, Result, ok, err, arith}
use tsbootkit.Base.Text.{Str}
use tsbootkit.Base.Store.{get, has, has-add, str_eq_iff}
use tsbootkit.Net.Random.{generate_random_ip-IsFree}
use tsbootkit.Bootp.{
  BootpConfig, BootpPacket, BootpState, BootpReply, ignored, replied, failed, allocate, track,
  answered, handle_bootp_request,
}

abbrev pub replied_ip : BootpReply → Option Str
replied_ip ignored = none
replied_ip (replied ip file target) = some ip
replied_ip (failed e) = none

replied-ok :
    (config : BootpConfig) (now : ℕ) (p : BootpPacket) (st : BootpState) (r : Result Str Str)
    (ip : Str)
    → replied_ip (answered config now p st r).1 ≡ some ip
    → (r ≡ ok ip) × ((answered config now p st r).0 ≡ track now p.chaddr ip st)
replied-ok config now p st (err e) ip h = absurd cc
replied-ok config now p st (ok a) ip h =
    let same : a ≡ ip = ground arith in
    (ap (λ x. ok x) same, ap (λ x. track now p.chaddr x st) same)

allocate_fresh :
    (config : BootpConfig) (random : ℕ → ℕ) (st : BootpState) (mac ip : Str)
    → get mac st.reservations ≡ none
    → allocate config st random mac ≡ ok ip
    → has ip st.allocated_ips ≡ false
unfolding allocate
allocate_fresh config random st mac ip no_reservation h =
    (generate_random_ip-IsFree config.server_ip config.subnet_mask st.allocated_ips random ip
      (ground (arith, no_reservation, h))).not_allocated

-- Two requests in a row by a client without a reservation are answered with different addresses,
-- whatever is drawn: the first one is allocated, and the entry of the client is not consulted.
pub repeated_request_moves :
    (config : BootpConfig) (now now' : ℕ) (random random' : ℕ → ℕ) (p : BootpPacket)
    (st : BootpState) (ip again : Str)
    → get p.chaddr st.reservations ≡ none
    → replied_ip (handle_bootp_request config now random p st).1 ≡ some ip
    → replied_ip
        (handle_bootp_request config now' random' p
          (handle_bootp_request config now random p st).0).1
      ≡ some again
    → again ≢ ip
unfolding handle_bootp_request track
repeated_request_moves config now now' random random' p st ip again no_reservation first second =
    let next = (replied-ok config now p st (allocate config st random p.chaddr) ip first).1 in
    let given =
      (replied-ok config now' p (track now p.chaddr ip st) _ again (
        subst (λ s. replied_ip (handle_bootp_request config now' random' p s).1 ≡ some again) next
          second)).0 in
    let fresh =
      allocate_fresh config random' (track now p.chaddr ip st) p.chaddr again no_reservation
        given in
    λ e. ground (arith, has-add ip again st.allocated_ips, str_eq_iff ip again, fresh, sym e)
