-- ===== src/Tftp/Options.antt =====
-- src/tftp/protocol.mts: validateOptions and validatedToRaw.
pub mod Laws
pub mod Wire
use tsbootkit.Base.{
  ℕ, ◌+◌, ◌≡◌, Option, none, some, List, [], ◌∷◌, ◌++◌, if◌then◌else◌, ltb, Bool, true, false, ◌||◌,
  ◌==◌, Result, ok, err, ◌>>=◌, ◌>>◌, throw_if,
}
use tsbootkit.Base.Text.{Str, codes, parse_int, JsInt, nan, int, minus, to_decimal}
use tsbootkit.Base.Store
use tsbootkit.Tftp.Types.{
  RawOptions, ValidatedOptions, Limits, blksize_limits, timeout_limits, windowsize_limits,
  blksize_name, timeout_name, tsize_name, windowsize_name, default_block_size, default_window_size,
}
use tsbootkit.Tftp.Parse.{ProtocolError, protocol_error}

-- Partial<ValidatedOptions>, the `defaults` of validateOptions.
pub record PartialOptions : Type 0 where
  pub blksize : Option ℕ
  pub timeout : Option ℕ
  pub tsize : Option ℕ
  pub windowsize : Option ℕ

abbrev pub get_or {ℓ} : {A : Type ℓ} → Option A → A → A
get_or none d = d
get_or (some a) d = a

-- `defaults?.field ?? fallback`
abbrev pub default_of : Option PartialOptions → (PartialOptions → Option ℕ) → ℕ → ℕ
default_of none field fallback = fallback
default_of (some d) field fallback = get_or (field d) fallback

-- `isNaN(val) || val < min || val > max` fails: the number is within the limits.
abbrev pub within : Limits → JsInt → Option ℕ
within limits nan = none
within limits (int n) = if ltb n limits.low || ltb limits.high n then none else some n
within limits (minus n) = none

-- `isNaN(val) || val < 0` fails.
abbrev pub non_negative : JsInt → Option ℕ
non_negative nan = none
non_negative (int n) = some n
non_negative (minus n) = none

invalid : Str → Str → Str → ProtocolError
invalid name raw range =
    protocol_error
      (codes "Invalid " ++ (name ++ (codes ": " ++ (raw ++ (codes " (must be " ++ range)))))

range_text : Limits → Str
unfolding to_decimal
range_text limits = to_decimal limits.low ++ (codes "-" ++ (to_decimal limits.high ++ codes ")"))

abbrev pub or_throw : Option ℕ → ProtocolError → Result ProtocolError (Option ℕ)
or_throw none e = err e
or_throw (some n) e = ok (some n)

-- The value of an option that the request names, checked; `none` where it does not name it.
unfoldable pub limited_option : Limits → Str → RawOptions → Result ProtocolError (Option ℕ)
unfolding Store.get parse_int invalid range_text
limited_option limits name raw = elim (Store.get name raw) [
  | none ↦ ok none
  | some text ↦ or_throw (within limits (parse_int text)) (invalid name text (range_text limits))
]

unfoldable pub tsize_option : RawOptions → Result ProtocolError (Option ℕ)
unfolding Store.get parse_int invalid
tsize_option raw = elim (Store.get tsize_name raw) [
  | none ↦ ok none
  | some text ↦ or_throw (non_negative (parse_int text)) (invalid tsize_name text (codes ">= 0)"))
]

-- `defaults.timeout` and `defaults.tsize` are not looked at.
unfoldable pub validate_options :
    RawOptions → Option PartialOptions → Result ProtocolError ValidatedOptions
validate_options raw defaults = do
  blksize ← limited_option blksize_limits blksize_name raw
  timeout ← limited_option timeout_limits timeout_name raw
  tsize ← tsize_option raw
  windowsize ← limited_option windowsize_limits windowsize_name raw
  ok (record {
    blksize = get_or blksize (default_of defaults (λ d. d.blksize) default_block_size);
    timeout = timeout;
    tsize = tsize;
    windowsize = get_or windowsize (default_of defaults (λ d. d.windowsize) default_window_size);
  })

-- `raw[name] = String(value)`, which gives the decimal digits of a number below 2^53. The text of a
-- larger number is not that of JavaScript, which rounds it, and writes it with an exponent from
-- 10^21 on.
abbrev pub put_option : Str → Option ℕ → RawOptions → RawOptions
put_option name none raw = raw
put_option name (some n) raw = Store.set name (to_decimal n) raw

abbrev pub unless_default : ℕ → ℕ → Option ℕ
unless_default default n = if n == default then none else some n

unfoldable pub validated_to_raw : ValidatedOptions → RawOptions
unfolding to_decimal Store.set
validated_to_raw opts =
    put_option windowsize_name (unless_default default_window_size opts.windowsize) (
      put_option tsize_name opts.tsize (
        put_option timeout_name opts.timeout
          (put_option blksize_name (unless_default default_block_size opts.blksize) [])))
