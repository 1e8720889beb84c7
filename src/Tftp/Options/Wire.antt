-- ===== src/Tftp/Options/Wire.antt =====
-- Negotiated options on the wire: what the OACK of advanceSendOACK carries.
use tsbootkit.Base.{
  ℕ, ◌<◌, ◌^◌, ◌≡◌, ◌≢◌, refl, arith, Option, none, some, [], ◌∷◌, ◌++◌, true, false, ok,
  append_assoc, append-nil,
}
use tsbootkit.Base.Text.{Str, to_decimal, is_empty, all_digits}
use tsbootkit.Base.Text.Decimal.{all_digits-to_decimal, to_decimal_full}
use tsbootkit.Base.Buffer.{Buffer}
use tsbootkit.Base.Store.{has}
use tsbootkit.Base.Store
use tsbootkit.Tftp.Types.{
  RawOptions, ValidatedOptions, Packet, option_names, blksize_name, timeout_name, tsize_name,
  windowsize_name, default_block_size, default_window_size,
}
use tsbootkit.Tftp.Encode.{encode_oack}
use tsbootkit.Tftp.Parse.{parse_packet}
use tsbootkit.Tftp.Parse.Strings.{IsText, IsWellFormed, set_new}
use tsbootkit.Tftp.RoundTrip.{parse-encode_oack}
use tsbootkit.Tftp.Options.{validate_options, validated_to_raw, put_option, unless_default}
use tsbootkit.Tftp.Options.Laws.{IsInRange, validate-validated_to_raw, get-put_option}

digits-IsText : (s : Str) → all_digits s ≡ true → IsText s
digits-IsText [] h = tt
digits-IsText (c ∷ s) h = ((ground arith, ground arith), digits-IsText s (ground arith))

IsWellFormed-append_one :
    (seen raw : RawOptions) (name val : Str)
    → IsWellFormed seen raw
    → has name option_names ≡ true
    → Store.get name (seen ++ raw) ≡ none
    → IsText val
    → is_empty val ≡ false
    → IsWellFormed seen (raw ++ ((name, val) ∷ []))
IsWellFormed-append_one seen [] name val w known fresh text full =
    (known, rw (append-nil seen) at fresh, text, full, tt)
IsWellFormed-append_one seen ((k, v) ∷ raw) name val (a, b, c, d, w) known fresh text full = (
  a,
  b,
  c,
  d,
  IsWellFormed-append_one (seen ++ ((k, v) ∷ [])) raw name val w known
      (rw (append_assoc seen ((k, v) ∷ []) raw) fresh) text full,
)

put_option-IsWellFormed :
    (name : Str) (o : Option ℕ) (raw : RawOptions)
    → IsWellFormed [] raw
    → has name option_names ≡ true
    → Store.get name raw ≡ none
    → IsWellFormed [] (put_option name o raw)
put_option-IsWellFormed name none raw w known fresh = w
put_option-IsWellFormed name (some n) raw w known fresh =
    rw (set_new name (to_decimal n) raw fresh) (
      IsWellFormed-append_one [] raw name (to_decimal n) w known fresh
        (digits-IsText (to_decimal n) (all_digits-to_decimal n)) (to_decimal_full n))

pub validated_to_raw-IsWellFormed : (v : ValidatedOptions) → IsWellFormed [] (validated_to_raw v)
unfolding validated_to_raw has Store.get
validated_to_raw-IsWellFormed v =
    let b = unless_default default_block_size v.blksize in
    let r1 : RawOptions = put_option blksize_name b [] in
    let r2 : RawOptions = put_option timeout_name v.timeout r1 in
    let r3 : RawOptions = put_option tsize_name v.tsize r2 in
    put_option-IsWellFormed windowsize_name (unless_default default_window_size v.windowsize) r3
      (put_option-IsWellFormed tsize_name v.tsize r2
        (put_option-IsWellFormed timeout_name v.timeout r1
          (put_option-IsWellFormed blksize_name b [] tt refl refl) refl (simp get-put_option))
        refl (simp get-put_option))
      refl (simp get-put_option)

-- A transfer size that a JavaScript number holds exactly: at most 2^53 - 1.
abbrev pub IsSafeSize : Option ℕ → Type 0
IsSafeSize none = Unit {0}
IsSafeSize (some n) = n < 2 ^ 53

-- The OACK for options in range that are not all left out, with a transfer size below 2^53 if
-- there is one, is a packet from which the peer parses, and by validation recovers, exactly these
-- options.
pub oack_carries_options :
    (v : ValidatedOptions)
    → IsInRange v
    → IsSafeSize v.tsize
    → validated_to_raw v ≢ []
    → (packet : Buffer) × (raw : RawOptions) × (encode_oack (validated_to_raw v) ≡ some packet)
      × (parse_packet packet ≡ ok (some (Packet.oack raw)))
      × (validate_options raw none ≡ ok v)
oack_carries_options v h size some_option =
    let (packet, sent, read) =
      parse-encode_oack (validated_to_raw v) some_option (validated_to_raw-IsWellFormed v) in
    (packet, validated_to_raw v, sent, read, validate-validated_to_raw v h)
