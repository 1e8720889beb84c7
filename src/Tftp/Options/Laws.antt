-- ===== src/Tftp/Options/Laws.antt =====
-- Option validation: bounds, and the round trip through an option list.
use tsbootkit.Base.{
  ℕ, ◌≡◌, ◌≤◌, arith, Option, none, some, if◌then◌else◌, Result, ok, err, Option-cases, inl, inr,
}
use tsbootkit.Base.Text.{Str, parse_int, JsInt, nan, int, minus, to_decimal, str_eq}
use tsbootkit.Base.Text.Decimal.{parse_int-to_decimal}
use tsbootkit.Base.Store
use tsbootkit.Base.Store.{Map}
use tsbootkit.Tftp.Types.{
  RawOptions, ValidatedOptions, Limits, blksize_limits, timeout_limits, windowsize_limits,
  blksize_name, timeout_name, tsize_name, windowsize_name, default_block_size, default_window_size,
}
use tsbootkit.Tftp.Parse.{ProtocolError}
use tsbootkit.Tftp.Options.{
  PartialOptions, default_of, within, or_throw, limited_option, tsize_option, validate_options,
  validated_to_raw, put_option, unless_default,
}

abbrev pub IsWithin : Limits → Option ℕ → Type 0
IsWithin limits none = Unit {0}
IsWithin limits (some n) = (limits.low ≤ n) × (n ≤ limits.high)

-- What option negotiation may leave in a transfer.
pub record IsInRange (v : ValidatedOptions) : Type 0 where
  pub blksize : IsWithin blksize_limits (some v.blksize)
  pub timeout : IsWithin timeout_limits v.timeout
  pub windowsize : IsWithin windowsize_limits (some v.windowsize)

abbrev IsWithinIfOk : Limits → Result ProtocolError (Option ℕ) → Type 0
IsWithinIfOk limits (ok v) = IsWithin limits v
IsWithinIfOk limits (err e) = Unit {0}

within-IsWithin :
    (limits : Limits) (v : JsInt) (e : ProtocolError)
    → IsWithinIfOk limits (or_throw (within limits v) e)
within-IsWithin limits nan e = tt
within-IsWithin limits (int n) e = ground arith
within-IsWithin limits (minus n) e = tt

limited_option-IsWithin :
    (limits : Limits) (name : Str) (raw : RawOptions)
    → IsWithinIfOk limits (limited_option limits name raw)
unfolding limited_option
limited_option-IsWithin limits name raw = elim (Option-cases (Store.get name raw)) [
  | inl e ↦ rw (e, limited_option) tt
  | inr (text, e) ↦ rw (e, limited_option) (within-IsWithin limits (parse_int text) _)
]

abbrev pub DefaultsInRange : Option PartialOptions → Type 0
DefaultsInRange d =
    IsWithin blksize_limits (some (default_of d (λ p. p.blksize) default_block_size))
    × IsWithin windowsize_limits (some (default_of d (λ p. p.windowsize) default_window_size))

-- Options that pass validation are in range: blksize in 8..65464, windowsize in 1..65535 and a
-- timeout, if there is one, in 1..255, where the defaults that the caller gives are.
pub validate_options-IsInRange :
    (raw : RawOptions) (defaults : Option PartialOptions) (v : ValidatedOptions)
    → DefaultsInRange defaults
    → validate_options raw defaults ≡ ok v
    → IsInRange v
unfolding validate_options
validate_options-IsInRange raw defaults v d h = ground (
  arith,
  limited_option-IsWithin blksize_limits blksize_name raw,
  limited_option-IsWithin timeout_limits timeout_name raw,
  limited_option-IsWithin windowsize_limits windowsize_name raw,
)

-- What an optional number leaves under its name, in front of `rest`.
abbrev pub or_else : Option ℕ → Option Str → Option Str
or_else none rest = rest
or_else (some n) rest = some (to_decimal n)

pub get-put_option :
    (name key : Str) (o : Option ℕ) (raw : RawOptions)
    → Store.get key (put_option name o raw)
      ≡ (if str_eq name key then or_else o (Store.get key raw) else Store.get key raw)
get-put_option name key none raw = ground arith
get-put_option name key (some n) raw = Store.get-set name key (to_decimal n) raw

module _ (v : ValidatedOptions) where
  get_blksize :
      Store.get blksize_name (validated_to_raw v)
      ≡ or_else (unless_default default_block_size v.blksize) none
  unfolding validated_to_raw Store.get
  get_blksize = simp get-put_option

  get_timeout : Store.get timeout_name (validated_to_raw v) ≡ or_else v.timeout none
  unfolding validated_to_raw Store.get
  get_timeout = simp get-put_option

  get_tsize : Store.get tsize_name (validated_to_raw v) ≡ or_else v.tsize none
  unfolding validated_to_raw Store.get
  get_tsize = simp get-put_option

  get_windowsize :
      Store.get windowsize_name (validated_to_raw v)
      ≡ or_else (unless_default default_window_size v.windowsize) none
  unfolding validated_to_raw Store.get
  get_windowsize = simp get-put_option

limited_option-or_else :
    (limits : Limits) (name : Str) (raw : RawOptions) (o : Option ℕ)
    → Store.get name raw ≡ or_else o none
    → IsWithin limits o
    → limited_option limits name raw ≡ ok o
unfolding limited_option
limited_option-or_else limits name raw none e h = rw (e, limited_option)
limited_option-or_else limits name raw (some n) e h =
    rw (e, limited_option, parse_int-to_decimal n) (ground arith)

tsize_option-or_else :
    (raw : RawOptions) (o : Option ℕ)
    → Store.get tsize_name raw ≡ or_else o none
    → tsize_option raw ≡ ok o
unfolding tsize_option
tsize_option-or_else raw none e = rw (e, tsize_option)
tsize_option-or_else raw (some n) e = rw (e, tsize_option, parse_int-to_decimal n)

-- Options in range survive being written to an option list and validated again, with no defaults.
pub validate-validated_to_raw :
    (v : ValidatedOptions) → IsInRange v → validate_options (validated_to_raw v) none ≡ ok v
unfolding validate_options
validate-validated_to_raw v h =
    rw
      (
        limited_option-or_else blksize_limits blksize_name (validated_to_raw v)
            (unless_default default_block_size v.blksize) (get_blksize v)
            (ground (arith, h.blksize)),
        limited_option-or_else timeout_limits timeout_name (validated_to_raw v) v.timeout
            (get_timeout v) h.timeout,
        tsize_option-or_else (validated_to_raw v) v.tsize (get_tsize v),
        limited_option-or_else windowsize_limits windowsize_name (validated_to_raw v)
            (unless_default default_window_size v.windowsize) (get_windowsize v)
            (ground (arith, h.windowsize)),
      )
      (ground arith)
