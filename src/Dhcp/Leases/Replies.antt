-- ===== src/Dhcp/Leases/Replies.antt =====
-- The replies of handleMessage in src/dhcp/server.mts: which handler gives which.
use tsbootkit.Base.{
  ℕ, Option, none, some, Bool, true, false, not, ◌&&◌, ◌||◌, ◌==◌, if◌then◌else◌, ◌≡◌, refl, Result,
  ok, err, Bool-cases, inl, inr,
}
use tsbootkit.Base.Text.{Str}
use tsbootkit.Dhcp.Types.{
  Config, Packet, State, Reply, silent, ack, offer, nak, threw, discover, request,
}
use tsbootkit.Dhcp.Leases.{
  allocate_ip, choose_ip, acknowledged, handle_request, nak_or, nak_reason, is_for_other_server,
  handle_discover, offered, handle_message, gc_leases,
}

abbrev pub acked_ip : Reply → Option Str
acked_ip (ack ip file) = some ip
acked_ip silent = none
acked_ip (offer ip file) = none
acked_ip (nak reason) = none
acked_ip (threw e) = none

abbrev pub offered_ip : Reply → Option Str
offered_ip (offer ip file) = some ip
offered_ip silent = none
offered_ip (ack ip file) = none
offered_ip (nak reason) = none
offered_ip (threw e) = none

-- A REQUEST is never answered with an offer, nor a DISCOVER with an acknowledgement.
request_offers_nothing :
    (config : Config) (now : ℕ) (random : ℕ → ℕ) (p : Packet) (st : State)
    → offered_ip (handle_request config now random p st).1 ≡ none
unfolding handle_request
request_offers_nothing config now random p st = elim (Bool-cases (is_for_other_server config p)) [
  | inl q ↦ rw q refl
  | inr q ↦ rw q (answered (nak_reason config st p) (choose_ip config random p st))
]
  where
    answered :
        (o : Option Str) (r : Result Str Str)
        → offered_ip (nak_or o st (acknowledged config now p st r)).1 ≡ none
    answered none (ok b) = refl
    answered none (err e) = refl
    answered (some reason) r = refl

discover_acks_nothing :
    (config : Config) (now : ℕ) (random : ℕ → ℕ) (p : Packet) (st : State)
    → acked_ip (handle_discover config now random p st).1 ≡ none
unfolding handle_discover
discover_acks_nothing config now random p st = answered (allocate_ip config st random p.chaddr)
  where
    answered : (r : Result Str Str) → acked_ip (offered config now p st r).1 ≡ none
    answered (ok ip) = refl
    answered (err e) = refl

-- Which branch a message took, by its reply.
branch_offered :
    (a b c : Bool) (st : State) (r s : State × Reply) (ip : Str)
    → offered_ip s.1 ≡ none
    → offered_ip (if a then (st, silent) else if b then (st, silent) else if c then r else s).1
      ≡ some ip
    → (if a then (st, silent) else if b then (st, silent) else if c then r else s) ≡ r
branch_offered true b c st r s ip silent_there h = cc
branch_offered false true c st r s ip silent_there h = cc
branch_offered false false true st r s ip silent_there h = refl
branch_offered false false false st r s ip silent_there h = cc

branch_acked :
    (a b c : Bool) (st : State) (r s : State × Reply) (ip : Str)
    → acked_ip r.1 ≡ none
    → acked_ip (if a then (st, silent) else if b then (st, silent) else if c then r else s).1
      ≡ some ip
    → (if a then (st, silent) else if b then (st, silent) else if c then r else s) ≡ s
branch_acked true b c st r s ip silent_there h = cc
branch_acked false true c st r s ip silent_there h = cc
branch_acked false false true st r s ip silent_there h = cc
branch_acked false false false st r s ip silent_there h = refl

module _ (config : Config) (now : ℕ) (random : ℕ → ℕ) (p : Packet) (st : State) (a : Str) where
  abbrev ignored : Bool
  ignored = not ((p.message_type == discover) || (p.message_type == request))

  abbrev unanswered : Bool
  unanswered = not p.is_pxe && not config.answer_all

  -- An offer is the answer to a DISCOVER after the collection, and an acknowledgement to a REQUEST.
  pub message_offered :
      offered_ip (handle_message config now random p st).1 ≡ some a
      → handle_message config now random p st
        ≡ handle_discover config now random p (gc_leases now st)
  unfolding handle_message
  message_offered =
      branch_offered ignored unanswered (p.message_type == discover) st
        (handle_discover config now random p (gc_leases now st))
        (handle_request config now random p (gc_leases now st)) a
        (request_offers_nothing config now random p (gc_leases now st))

  pub message_acked :
      acked_ip (handle_message config now random p st).1 ≡ some a
      → handle_message config now random p st
        ≡ handle_request config now random p (gc_leases now st)
  unfolding handle_message
  message_acked =
      branch_acked ignored unanswered (p.message_type == discover) st
        (handle_discover config now random p (gc_leases now st))
        (handle_request config now random p (gc_leases now st)) a
        (discover_acks_nothing config now random p (gc_leases now st))
