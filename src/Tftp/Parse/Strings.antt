-- ===== src/Tftp/Parse/Strings.antt =====
-- Splitting what the encoders wrote.
use tsbootkit.Base.{
  ◌≡◌, ◌≢◌, ◌<◌, ◌%◌, refl, sym, ap, ap₂, arith, true, false, none, List, [], ◌∷◌, ◌++◌, length,
  append_assoc, append-nil, All, ◌==◌, map, Bool-cases, inl, inr, subst,
}
use tsbootkit.Base.Text.{Str, codes, str_eq, to_lower, is_empty, lower}
use tsbootkit.Base.Buffer.{Buffer, from_ascii, to_ascii}
use tsbootkit.Base.Store.{has, get, set, str_eq_iff}
use tsbootkit.Tftp.Types.{RawOptions, option_names}
use tsbootkit.Tftp.Encode.Layout.{null_terminated, pair_bytes}
use tsbootkit.Tftp.Parse.{split_null_from, pop_empty, collect_options}

-- Characters that a null-terminated ASCII string can hold.
abbrev pub IsText : Str → Type 0
IsText s = All (λ c. (c ≢ 0) × (c < 128)) s

IsText-ascii : (s : Str) → IsText s → to_ascii (from_ascii s) ≡ s
unfolding to_ascii from_ascii
IsText-ascii [] h = refl
IsText-ascii (c ∷ s) ((_, p), h) = ap₂ ◌∷◌ (omega arith) (IsText-ascii s h)

split_null_from-text :
    (s : Str) (current rest : Buffer)
    → IsText s
    → split_null_from current (from_ascii s ++ 0 ∷ rest)
      ≡ to_ascii (current ++ from_ascii s) ∷ split_null_from [] rest
unfolding split_null_from from_ascii
split_null_from-text [] current rest h = rw (append-nil current)
split_null_from-text (c ∷ s) current rest ((nz, p), h) =
    let below : (c % 256 == 0) ≡ false = ground arith in
    rw (below, split_null_from-text s (current ++ ((c % 256) ∷ [])) rest h)
      (ap (λ t. to_ascii t ∷ split_null_from [] rest)
        (append_assoc current ((c % 256) ∷ []) (from_ascii s)))

-- The pieces of a run of null-terminated strings are the strings.
pub split-null_terminated :
    (s : Str) (rest : Buffer)
    → IsText s
    → split_null_from [] (null_terminated s ++ rest) ≡ s ∷ split_null_from [] rest
unfolding null_terminated
split-null_terminated s rest h =
    rw (append_assoc (from_ascii s) (0 ∷ []) rest, split_null_from-text s [] rest h)
      (ap (λ t. t ∷ split_null_from [] rest) (IsText-ascii s h))

-- The option list as the parts of a packet.
unfoldable pub parts_of : RawOptions → List Str
parts_of [] = []
parts_of ((key, val) ∷ opts) = key ∷ val ∷ parts_of opts

-- Known option names, each once, with values that survive the wire. `seen` comes before.
abbrev pub IsWellFormed : RawOptions → RawOptions → Type 0
IsWellFormed seen [] = Unit {0}
IsWellFormed seen ((key, val) ∷ opts) =
    (has key option_names ≡ true)
    × (get key seen ≡ none)
    × IsText val
    × (is_empty val ≡ false)
    × IsWellFormed (seen ++ ((key, val) ∷ [])) opts

option_name_cases {ℓ} :
    (P : Str → Type ℓ) (key : Str)
    → has key option_names ≡ true
    → P (codes "blksize")
    → P (codes "timeout")
    → P (codes "tsize")
    → P (codes "windowsize")
    → P key
unfolding has
option_name_cases P key h b t z w = elim (Bool-cases (str_eq (codes "blksize") key)) [
  | inl e ↦ subst P ((str_eq_iff _ _).0 e) b
  | inr e1 ↦ elim (Bool-cases (str_eq (codes "timeout") key)) [
    | inl e ↦ subst P ((str_eq_iff _ _).0 e) t
    | inr e2 ↦ elim (Bool-cases (str_eq (codes "tsize") key)) [
      | inl e ↦ subst P ((str_eq_iff _ _).0 e) z
      | inr e3 ↦ elim (Bool-cases (str_eq (codes "windowsize") key)) [
        | inl e ↦ subst P ((str_eq_iff _ _).0 e) w
        | inr e4 ↦ absurd (last e1 e2 e3 e4)
      ]
    ]
  ]
]
  where
    last :
        str_eq (codes "blksize") key ≡ false
        → str_eq (codes "timeout") key ≡ false
        → str_eq (codes "tsize") key ≡ false
        → str_eq (codes "windowsize") key ≡ false
        → ⊥
    last e1 e2 e3 e4 = cc (rw (e1, e2, e3, e4) at h)

option_name-IsText : (key : Str) → has key option_names ≡ true → IsText key
option_name-IsText key h =
    option_name_cases IsText key h (grind arith) (grind arith) (grind arith) (grind arith)

option_name-lower : (key : Str) → has key option_names ≡ true → to_lower key ≡ key
unfolding to_lower
option_name-lower key h = option_name_cases (λ s. map lower s ≡ s) key h refl refl refl refl

pub set_new :
    (key val : Str) (seen : RawOptions)
    → get key seen ≡ none
    → set key val seen ≡ seen ++ ((key, val) ∷ [])
unfolding get set
set_new key val [] h = refl
set_new key val ((k, v) ∷ seen) h = ground (arith, set_new key val seen)

pub split-pair_bytes :
    (seen opts : RawOptions)
    → IsWellFormed seen opts
    → split_null_from [] (pair_bytes opts) ≡ parts_of opts
unfolding pair_bytes parts_of
split-pair_bytes seen [] h = unfold split_null_from in refl
split-pair_bytes seen ((key, val) ∷ opts) (known, fresh, text, full, rest) = rw (
  split-null_terminated key (null_terminated val ++ pair_bytes opts) (option_name-IsText key known),
  split-null_terminated val (pair_bytes opts) text,
  split-pair_bytes (seen ++ ((key, val) ∷ [])) opts rest,
)

-- The options come back in their order, behind those already seen.
pub collect-parts_of :
    (seen opts : RawOptions)
    → IsWellFormed seen opts
    → collect_options seen (parts_of opts) ≡ seen ++ opts
unfolding collect_options parts_of
collect-parts_of seen [] h = sym (append-nil seen)
collect-parts_of seen ((key, val) ∷ opts) (known, fresh, text, full, rest) =
    rw
      (
        option_name-lower key known,
        known,
        set_new key val seen fresh,
        collect-parts_of (seen ++ ((key, val) ∷ [])) opts rest,
      )
      (append_assoc seen ((key, val) ∷ []) opts)

pub pop_empty-parts_of :
    (seen opts : RawOptions) → IsWellFormed seen opts → pop_empty (parts_of opts) ≡ parts_of opts
unfolding pop_empty parts_of
pop_empty-parts_of seen [] h = refl
pop_empty-parts_of seen ((key, val) ∷ []) (known, fresh, text, full, rest) = rw full
pop_empty-parts_of seen ((key, val) ∷ (k, v) ∷ opts) (known, fresh, text, full, rest) =
    ap (λ t. key ∷ val ∷ t) (pop_empty-parts_of (seen ++ ((key, val) ∷ [])) ((k, v) ∷ opts) rest)

pub parts_of_even : (opts : RawOptions) → length (parts_of opts) % 2 ≡ 0
unfolding parts_of
parts_of_even [] = refl
parts_of_even ((key, val) ∷ opts) = omega (arith, parts_of_even opts)
