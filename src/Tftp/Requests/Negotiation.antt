-- ===== src/Tftp/Requests/Negotiation.antt =====
-- The block size that a new request is given.
use tsbootkit.Base.{
  ℕ, ◌≤◌, ◌≡◌, refl, ap, subst, arith, true, false, ◌&&◌, not, Option, none, some, [], ◌∷◌, Result,
  ok, err, Bool-cases, inl, inr,
}
use tsbootkit.Base.Text.{Str, is_empty, parse_int, JsInt, nan, int, minus, to_decimal}
use tsbootkit.Base.Text.Decimal.{parse_int-to_decimal}
use tsbootkit.Base.Store
use tsbootkit.Base.Store.{Map, get-set, str_eq_refl}
use tsbootkit.Tftp.Types.{
  Request, RawOptions, ValidatedOptions, blksize_name, blksize_limits, default_block_size,
}
use tsbootkit.Tftp.Parse.{ProtocolError}
use tsbootkit.Tftp.Options.{validate_options, limited_option, within, or_throw}
use tsbootkit.Tftp.Requests.{Settings, exceeds, cap_text, capped_options, negotiated}

-- What the negotiation of the block size may come to.
abbrev IsCapped : ℕ → Result ProtocolError (Option ℕ) → Type 0
IsCapped limit (ok none) = Unit {0}
IsCapped limit (ok (some n)) = n ≤ limit
IsCapped limit (err e) = Unit {0}

within-IsCapped :
    (limit : ℕ) (v : JsInt) (e : ProtocolError)
    → exceeds v limit ≡ false
    → IsCapped limit (or_throw (within blksize_limits v) e)
within-IsCapped limit nan e h = tt
within-IsCapped limit (int n) e h = ground arith
within-IsCapped limit (minus n) e h = tt

empty_text : (text : Str) → is_empty text ≡ true → parse_int text ≡ nan
unfolding parse_int
empty_text [] h = refl
empty_text (c ∷ text) h = absurd cc

limited-IsCapped :
    (limit : ℕ) (opts : RawOptions) (o : Option Str)
    → Store.get blksize_name opts ≡ o
    → ((text : Str) → o ≡ some text → exceeds (parse_int text) limit ≡ false)
    → IsCapped limit (limited_option blksize_limits blksize_name opts)
unfolding limited_option
limited-IsCapped limit opts none e h = rw (e, limited_option) tt
limited-IsCapped limit opts (some text) e h =
    rw (e, limited_option) (within-IsCapped limit (parse_int text) _ (h text refl))

cap_text-IsCapped :
    (limit : ℕ) (opts : RawOptions) (o : Option Str)
    → Store.get blksize_name opts ≡ o
    → IsCapped limit (limited_option blksize_limits blksize_name (cap_text limit o opts))
cap_text-IsCapped limit opts none e = limited-IsCapped limit opts none e (λ text absent. absurd cc)
cap_text-IsCapped limit opts (some text) e =
    elim (Bool-cases (not (is_empty text) && exceeds (parse_int text) limit)) [
      | inl big ↦ rw big (
          limited-IsCapped limit (Store.set blksize_name (to_decimal limit) opts)
            (some (to_decimal limit)) (get-set blksize_name blksize_name (to_decimal limit) opts)
            (λ t same.
              let found : to_decimal limit ≡ t = ground arith in
              subst (λ u. exceeds (parse_int u) limit ≡ false) found
                (rw (parse_int-to_decimal limit) (ground arith))))
      | inr small ↦ rw small (
          limited-IsCapped limit opts (some text) e (λ t same.
            let found : text ≡ t = ground arith in
            subst (λ u. exceeds (parse_int u) limit ≡ false) found
              (ground (arith, small, empty_text text, ap (λ v. exceeds v limit)))))
    ]

blksize-IsCapped :
    (limit : ℕ) (opts : RawOptions)
    → IsCapped limit (limited_option blksize_limits blksize_name (capped_options limit opts))
unfolding capped_options
blksize-IsCapped limit opts = cap_text-IsCapped limit opts _ refl

-- A request whose options are accepted gets a block size of at most the configured maximum, where
-- that is not below the default block size.
pub negotiated_blksize_le :
    (settings : Settings) (r : Request) (v : ValidatedOptions)
    → default_block_size ≤ settings.max_blksize
    → negotiated settings r ≡ ok v
    → v.blksize ≤ settings.max_blksize
unfolding validate_options
negotiated_blksize_le settings r v h e =
    ground (arith, h, e, blksize-IsCapped settings.max_blksize r.options)
