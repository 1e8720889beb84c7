-- ===== src/Dhcp/Packet/Fields.antt =====
-- The addresses of src/shared/encoding.mts, written and read back.
use tsbootkit.Base.{ℕ, ◌%◌, ◌≡◌, ◌<◌, refl, ap, sym, ◌∙◌, arith, some, List, [], ◌∷◌, ◌++◌, All}
use tsbootkit.Base.Text.{Str, split, join, to_decimal, hex_byte, parse_hex}
use tsbootkit.Base.Text.Decimal.{all_digits-to_decimal}
use tsbootkit.Net.{word_of}
use tsbootkit.Net.Quad.{split-digits, split-digits_then, word_of-to_decimal}
use tsbootkit.Dhcp.Packet.{dotted, quad_bytes, mac_bytes, hex_of}

split-dotted :
    (a b c d : ℕ)
    → split b'.' (dotted a b c d) ≡ to_decimal a ∷ to_decimal b ∷ to_decimal c ∷ to_decimal d ∷ []
unfolding dotted join
split-dotted a b c d =
    split-digits_then (to_decimal a) _ (all_digits-to_decimal a)
    ∙ ap (λ r. to_decimal a ∷ r)
        (split-digits_then (to_decimal b) _ (all_digits-to_decimal b)
          ∙ ap (λ r. to_decimal b ∷ r)
              (split-digits_then (to_decimal c) _ (all_digits-to_decimal c)
                ∙ ap (λ r. to_decimal c ∷ r)
                    (split-digits (to_decimal d) (all_digits-to_decimal d))))

-- An address in its canonical form.
pub record IsAddress (ip : Str) : Type 0 where
  pub a : ℕ
  pub b : ℕ
  pub c : ℕ
  pub d : ℕ
  pub bytes : All (λ n. n < 256) (a ∷ b ∷ c ∷ d ∷ [])
  pub form : ip ≡ dotted a b c d

byte_kept : (n : ℕ) → n < 256 → word_of (some (to_decimal n)) % 256 ≡ n
byte_kept n h = omega (arith, word_of-to_decimal n)

pub quad_bytes-dotted :
    (a b c d : ℕ)
    → All (λ n. n < 256) (a ∷ b ∷ c ∷ d ∷ [])
    → quad_bytes (split b'.' (dotted a b c d)) ≡ a ∷ b ∷ c ∷ d ∷ []
quad_bytes-dotted a b c d (ha, (hb, (hc, (hd, _)))) =
    ap quad_bytes (split-dotted a b c d)
    ∙ rw (byte_kept a ha, byte_kept b hb, byte_kept c hc, byte_kept d hd) refl

-- A hardware address as the program writes it.
abbrev pub mac_of : ℕ → ℕ → ℕ → ℕ → ℕ → ℕ → Str
mac_of a b c d e f =
    join b':' (hex_byte a ∷ hex_byte b ∷ hex_byte c ∷ hex_byte d ∷ hex_byte e ∷ hex_byte f ∷ [])

parse_hex-hex_byte : (n : ℕ) → n < 256 → parse_hex (hex_byte n) ≡ n
unfolding parse_hex hex_byte
parse_hex-hex_byte n h = ground arith

split-hex_byte : (n : ℕ) → n < 256 → split b':' (hex_byte n) ≡ hex_byte n ∷ []
unfolding split hex_byte
split-hex_byte n h = ground arith

split-hex_byte_then :
    (n : ℕ) (t : Str) → n < 256 → split b':' (hex_byte n ++ (b':' ∷ t)) ≡ hex_byte n ∷ split b':' t
unfolding split hex_byte
split-hex_byte_then n t h = ground arith

split-mac_of :
    (a b c d e f : ℕ)
    → All (λ n. n < 256) (a ∷ b ∷ c ∷ d ∷ e ∷ f ∷ [])
    → split b':' (mac_of a b c d e f)
      ≡ hex_byte a ∷ hex_byte b ∷ hex_byte c ∷ hex_byte d ∷ hex_byte e ∷ hex_byte f ∷ []
unfolding join
split-mac_of a b c d e f (ha, (hb, (hc, (hd, (he, (hf, _)))))) =
    split-hex_byte_then a _ ha
    ∙ ap (λ r. hex_byte a ∷ r)
        (split-hex_byte_then b _ hb
          ∙ ap (λ r. hex_byte b ∷ r)
              (split-hex_byte_then c _ hc
                ∙ ap (λ r. hex_byte c ∷ r)
                    (split-hex_byte_then d _ hd
                      ∙ ap (λ r. hex_byte d ∷ r)
                          (split-hex_byte_then e _ he
                            ∙ ap (λ r. hex_byte e ∷ r) (split-hex_byte f hf)))))

-- A hardware address in the form in which packets are read.
pub record IsMac (mac : Str) : Type 0 where
  pub a : ℕ
  pub b : ℕ
  pub c : ℕ
  pub d : ℕ
  pub e : ℕ
  pub f : ℕ
  pub bytes : All (λ n. n < 256) (a ∷ b ∷ c ∷ d ∷ e ∷ f ∷ [])
  pub form : mac ≡ mac_of a b c d e f

-- The text of bytes, at least as many as are read.
abbrev pub dotted_of : List ℕ → Str
dotted_of (a ∷ b ∷ c ∷ d ∷ rest) = dotted a b c d
dotted_of bs = []

abbrev pub mac_text : List ℕ → Str
mac_text (a ∷ b ∷ c ∷ d ∷ e ∷ f ∷ rest) = mac_of a b c d e f
mac_text bs = []

-- Writing an address into four bytes and reading these gives it back.
pub dotted_of-quad_bytes : (ip : Str) → IsAddress ip → dotted_of (quad_bytes (split b'.' ip)) ≡ ip
dotted_of-quad_bytes ip w =
    ap (λ s. dotted_of (quad_bytes (split b'.' s))) w.form
    ∙ ap dotted_of (quad_bytes-dotted w.a w.b w.c w.d w.bytes)
    ∙ sym w.form

hex_kept : (n : ℕ) → n < 256 → hex_of (some (hex_byte n)) % 256 ≡ n
hex_kept n h = omega (arith, parse_hex-hex_byte n h)

mac_bytes-mac_of :
    (a b c d e f : ℕ)
    → All (λ n. n < 256) (a ∷ b ∷ c ∷ d ∷ e ∷ f ∷ [])
    → mac_bytes (split b':' (mac_of a b c d e f)) ≡ a ∷ b ∷ c ∷ d ∷ e ∷ f ∷ []
mac_bytes-mac_of a b c d e f h =
    let (ha, (hb, (hc, (hd, (he, (hf, _)))))) = h in
    ap mac_bytes (split-mac_of a b c d e f h)
    ∙ rw (hex_kept a ha, hex_kept b hb, hex_kept c hc, hex_kept d hd, hex_kept e he, hex_kept f hf)
        refl

pub mac_text-mac_bytes : (mac : Str) → IsMac mac → mac_text (mac_bytes (split b':' mac)) ≡ mac
mac_text-mac_bytes mac w =
    ap (λ s. mac_text (mac_bytes (split b':' s))) w.form
    ∙ ap mac_text (mac_bytes-mac_of w.a w.b w.c w.d w.e w.f w.bytes)
    ∙ sym w.form
