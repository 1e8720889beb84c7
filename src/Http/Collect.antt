-- ===== src/Http/Collect.antt =====
-- The garbage collection of src/shared/http.mts.
use tsbootkit.Base.{
  ℕ, ◌+◌, ◌≡◌, ◌≤◌, ◌<◌, refl, sym, subst, Bool, true, false, List, [], ◌∷◌, if◌then◌else◌, ltb,
  ltb→lt, not_ltb→ge,
}
use tsbootkit.Http.{HttpState, active, complete, failed, HttpTransfer, gc_transfers, is_collected}

-- The transfers that a collection at the time `now`, in ms, leaves of a list, in their order: those
-- under way and those that started in the last minute.
pub data Leaves (now : ℕ) : List HttpTransfer → List HttpTransfer → Type 0 where
  nothing : Leaves now [] []
  keeps_active :
      {ts us : List HttpTransfer} (t : HttpTransfer)
      → t.state ≡ active
      → Leaves now ts us
      → Leaves now (t ∷ ts) (t ∷ us)
  keeps_young :
      {ts us : List HttpTransfer} (t : HttpTransfer)
      → now ≤ t.started_at + 60000
      → Leaves now ts us
      → Leaves now (t ∷ ts) (t ∷ us)
  removes_complete :
      {ts us : List HttpTransfer} (t : HttpTransfer)
      → t.state ≡ complete
      → t.started_at + 60000 < now
      → Leaves now ts us
      → Leaves now (t ∷ ts) us
  removes_failed :
      {ts us : List HttpTransfer} (t : HttpTransfer)
      → t.state ≡ failed
      → t.started_at + 60000 < now
      → Leaves now ts us
      → Leaves now (t ∷ ts) us

module _ (now : ℕ) (t : HttpTransfer) (ts us : List HttpTransfer) (rest : Leaves now ts us) where
  decided :
      (b : Bool)
      → is_collected now t ≡ b
      → Leaves now (t ∷ ts) (if b then us else t ∷ us)
      → Leaves now (t ∷ ts) (if is_collected now t then us else t ∷ us)
  decided b e h = subst (λ x. Leaves now (t ∷ ts) (if x then us else t ∷ us)) (sym e) h

  step-Leaves :
      (s : HttpState) (old : Bool)
      → t.state ≡ s
      → ltb (t.started_at + 60000) now ≡ old
      → Leaves now (t ∷ ts) (if is_collected now t then us else t ∷ us)
  step-Leaves active old e f = decided false (rw e refl) (keeps_active t e rest)
  step-Leaves complete true e f =
      decided true (rw (e, f) refl)
        (removes_complete t e (ltb→lt (t.started_at + 60000) now f) rest)
  step-Leaves complete false e f =
      decided false (rw (e, f) refl) (keeps_young t (not_ltb→ge (t.started_at + 60000) now f) rest)
  step-Leaves failed true e f =
      decided true (rw (e, f) refl) (removes_failed t e (ltb→lt (t.started_at + 60000) now f) rest)
  step-Leaves failed false e f =
      decided false (rw (e, f) refl) (keeps_young t (not_ltb→ge (t.started_at + 60000) now f) rest)

-- The collection removes exactly the transfers that ended and started more than a minute ago, and
-- leaves all the others in their order.
pub gc_transfers-Leaves : (now : ℕ) (ts : List HttpTransfer) → Leaves now ts (gc_transfers now ts)
unfolding gc_transfers
gc_transfers-Leaves now [] = nothing
gc_transfers-Leaves now (t ∷ ts) =
    step-Leaves now t ts (gc_transfers now ts) (gc_transfers-Leaves now ts) t.state
      (ltb (t.started_at + 60000) now) refl refl
