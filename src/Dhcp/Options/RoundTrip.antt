-- ===== src/Dhcp/Options/RoundTrip.antt =====
-- Option lists: parsing ends on every input, and reads back what was encoded.
use tsbootkit.Base.{
  ℕ, zero, suc, ◌%◌, ◌≡◌, ◌≢◌, ◌≤◌, ◌<◌, refl, arith, ap, sym, false, none, some, List, [], ◌∷◌,
  ◌++◌, length, ◌==◌, take, drop, length-append, length-drop, take-append, drop-append, append-nil,
  append_assoc, le→not_ltb,
}
use tsbootkit.Base.Buffer.{Buffer}
use tsbootkit.Dhcp.Options.{
  RawDhcpOption, OptionMap, encode_option, encode_options, parse_options_loop, parse_options,
  set_option, get_option,
}

parse_options_loop_total :
    (fuel : ℕ) (buf : Buffer) (options : OptionMap)
    → length buf ≤ fuel
    → parse_options_loop fuel buf options ≢ none
unfolding parse_options_loop
parse_options_loop_total zero [] options h = λ e. cc
parse_options_loop_total zero (b ∷ bs) options h = absurd (omega arith)
parse_options_loop_total (suc fuel) [] options h = λ e. cc
parse_options_loop_total (suc fuel) (code ∷ []) options h = λ e. cc
parse_options_loop_total (suc fuel) (code ∷ len ∷ bs) options h = ground (
  arith,
  parse_options_loop_total fuel (len ∷ bs) options,
  parse_options_loop_total fuel (drop len bs)
      (set_option (record { code = code; content = take len bs }) options),
  length-drop len bs,
)

-- The parser of options ends on every buffer.
pub parse_options_total : (buf : Buffer) → parse_options buf ≢ none
unfolding parse_options
parse_options_total buf = parse_options_loop_total (length buf) buf [] (omega arith)

-- Options that an encoder may write: codes in 1..254, each once, with at most 255 bytes.
abbrev pub IsEncodable : OptionMap → List RawDhcpOption → Type 0
IsEncodable seen [] = Unit {0}
IsEncodable seen (o ∷ os) =
    (0 < o.code)
    × (o.code < 255)
    × (length o.content < 256)
    × (get_option o.code seen ≡ none)
    × IsEncodable (seen ++ (o ∷ [])) os

set_option-new :
    (o : RawDhcpOption) (seen : OptionMap)
    → get_option o.code seen ≡ none
    → set_option o seen ≡ seen ++ (o ∷ [])
unfolding set_option get_option
set_option-new o [] h = refl
set_option-new o (p ∷ seen) h = ground (arith, set_option-new o seen)

one_option :
    (fuel : ℕ) (o : RawDhcpOption) (rest : Buffer) (seen : OptionMap)
    → 0 < o.code
    → o.code < 255
    → length o.content < 256
    → parse_options_loop (suc fuel) (encode_option o ++ rest) seen
      ≡ parse_options_loop fuel rest (set_option o seen)
unfolding encode_option parse_options_loop
one_option fuel o rest seen pos small fits =
    let no_pad : (o.code == 0) ≡ false = ground arith in
    let no_end : (o.code == 255) ≡ false = ground arith in
    let code_fits : o.code % 256 ≡ o.code = omega arith in
    let len_fits : length o.content % 256 ≡ length o.content = omega arith in
    rw (
      no_pad,
      code_fits,
      len_fits,
      no_pad,
      no_end,
      le→not_ltb (length (o.content ++ rest)) (length o.content)
          (omega (arith, length-append o.content rest)),
      take-append o.content rest,
      drop-append o.content rest,
    )

-- Codes in 1..254, each once, with at most 255 bytes each, are read back in their order, whatever
-- padding follows the End option; more fuel changes nothing.
parse-encode_options_loop :
    (fuel : ℕ) (os : List RawDhcpOption) (padding : Buffer) (seen : OptionMap)
    → IsEncodable seen os
    → length os < fuel
    → parse_options_loop fuel (encode_options os ++ padding) seen ≡ some (seen ++ os)
unfolding encode_options
parse-encode_options_loop zero os padding seen h enough = absurd (omega arith)
parse-encode_options_loop (suc fuel) [] [] seen h enough =
    unfold parse_options_loop in ap some (sym (append-nil seen))
parse-encode_options_loop (suc fuel) [] (p ∷ padding) seen h enough =
    unfold parse_options_loop in ap some (sym (append-nil seen))
parse-encode_options_loop (suc fuel) (o ∷ os) padding seen (pos, small, fits, new, h) enough =
    rw
      (
        append_assoc (encode_option o) (encode_options os) padding,
        one_option fuel o (encode_options os ++ padding) seen pos small fits,
        set_option-new o seen new,
        parse-encode_options_loop fuel os padding (seen ++ (o ∷ [])) h (omega arith),
      )
      (ap some (append_assoc seen (o ∷ []) os))

length-encode_options : (os : List RawDhcpOption) → length os < length (encode_options os)
unfolding encode_options encode_option
length-encode_options [] = omega arith
length-encode_options (o ∷ os) =
    rw (length-append (encode_option o) (encode_options os))
      (ground (arith, length-encode_options os))

-- Options with codes in 1..254, each once, with at most 255 bytes of data each, are parsed back in
-- their order, whatever bytes follow their End option.
pub parse-encode_options :
    (os : List RawDhcpOption) (padding : Buffer)
    → IsEncodable [] os
    → parse_options (encode_options os ++ padding) ≡ some os
unfolding parse_options
parse-encode_options os padding h =
    parse-encode_options_loop (length (encode_options os ++ padding)) os padding [] h
      (omega (arith, length-append (encode_options os) padding, length-encode_options os))
