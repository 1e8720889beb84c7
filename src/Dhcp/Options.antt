-- ===== src/Dhcp/Options.antt =====
-- src/shared/encoding.mts and src/dhcp/protocol.mts: the option lists of DHCP and BOOTP packets.
pub mod RoundTrip
use tsbootkit.Base.{
  ℕ, zero, suc, ◌+◌, ◌%◌, ◌≡◌, Bool, true, false, Option, none, some, List, [], ◌∷◌, ◌++◌,
  if◌then◌else◌, length, ltb, leb, ◌==◌, take, drop, get_or,
}
use tsbootkit.Base.Buffer.{Buffer}

-- enum DHCPOption, the codes with a special reading.
abbrev pub pad : ℕ
pad = 0

abbrev pub end_option : ℕ
end_option = 255

-- RawDHCPOption
pub record RawDhcpOption : Type 0 where
  pub code : ℕ
  pub content : Buffer

-- A Pad option is one byte, also if it has data. Storing a number in a byte keeps its low 8 bits,
-- also of the length.
unfoldable pub encode_option : RawDhcpOption → Buffer
encode_option opt =
    if opt.code == pad then 0 ∷ [] else (opt.code % 256) ∷ (length opt.content % 256) ∷ opt.content

unfoldable pub encode_options : List RawDhcpOption → Buffer
unfolding encode_option
encode_options [] = end_option ∷ []
encode_options (opt ∷ opts) = encode_option opt ++ encode_options opts

-- A Map from option codes, in insertion order; `set` replaces in place.
abbrev pub OptionMap : Type 0
OptionMap = List RawDhcpOption

unfoldable pub set_option : RawDhcpOption → OptionMap → OptionMap
set_option opt [] = opt ∷ []
set_option opt (o ∷ os) = if o.code == opt.code then opt ∷ os else o ∷ set_option opt os

unfoldable pub get_option : ℕ → OptionMap → Option Buffer
get_option code [] = none
get_option code (o ∷ os) = if o.code == code then some o.content else get_option code os

-- The while loop of parseOptions; the buffer is buf[i..end). Every round takes a byte at least, so
-- the length of the buffer is enough fuel; fuel that runs out cannot be told from the end, so that
-- it does not is a theorem.
unfoldable pub parse_options_loop : ℕ → Buffer → OptionMap → Option OptionMap
unfolding set_option
parse_options_loop zero [] options = some options
parse_options_loop zero (b ∷ bs) options = none
parse_options_loop (suc fuel) [] options = some options
parse_options_loop (suc fuel) (code ∷ []) options = some options
parse_options_loop (suc fuel) (code ∷ len ∷ bs) options =
    let padded = parse_options_loop fuel (len ∷ bs) options in
    let more =
      parse_options_loop fuel (drop len bs)
        (set_option (record { code = code; content = take len bs }) options) in
    if code == pad
    then padded
    else if code == end_option
    then some options
    else if ltb (length bs) len
    then some options
    else more

unfoldable pub parse_options : Buffer → Option OptionMap
unfolding parse_options_loop
parse_options buf = parse_options_loop (length buf) buf []
