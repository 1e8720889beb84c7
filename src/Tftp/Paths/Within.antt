-- ===== src/Tftp/Paths/Within.antt =====
-- The paths that the check of src/tftp/state.mts lets through.
use tsbootkit.Base.{
  ◌≡◌, ◌↔◌, refl, ap, sym, ◌∙◌, ◌⊎◌, inl, inr, Bool, true, false, not, Option, none, some, [], ◌∷◌,
  ◌++◌, subst, if◌then◌else◌, Bool-cases, arith, ◌==◌, append_assoc,
}
use tsbootkit.Base.Text.{Str, starts_with}
use tsbootkit.Base.Store.{str_eq_iff}
use tsbootkit.Tftp.Paths.{Host, Place, strip_sep, is_under, is_real_under, is_path_in_root}

-- The file is the root or stands, however deep, in it.
abbrev pub IsWithin : Str → Str → Type 0
IsWithin root file = (file ≡ root) ⊎ ((rest : Str) × (file ≡ root ++ (b'/' ∷ rest)))

abbrev pub ends_in_sep : Str → Bool
ends_in_sep [] = false
ends_in_sep (c ∷ []) = c == b'/'
ends_in_sep (c ∷ d ∷ s) = ends_in_sep (d ∷ s)

-- A directory's name, less the separator at its end: nothing is left of the root of the file system.
abbrev pub IsBase : Str → Str → Type 0
IsBase base root = (root ≡ base ++ (b'/' ∷ [])) ⊎ ((root ≡ base) × (ends_in_sep root ≡ false))

-- The file is the directory `root`, whose name may end in a separator, or stands in it.
abbrev pub IsIn : Str → Str → Type 0
IsIn root file = (base : Str) × IsBase base root × IsWithin base file

-- A normalized path in the root, whose real path, where both can be found, is in the real root
-- unless symbolic links are followed.
abbrev pub IsLetIn : Host → Place → Type 0
IsLetIn host p =
    IsIn p.root (host.normalize p.filepath)
    × (p.follow_symlinks ≡ false
        → (real real_root : Str) → host.real_path p.filepath ≡ some real
        → host.real_path p.root ≡ some real_root
        → IsIn real_root real)

strip_sep-append : (base : Str) → strip_sep (base ++ (b'/' ∷ [])) ≡ base
strip_sep-append [] = refl
strip_sep-append (c ∷ []) = refl
strip_sep-append (c ∷ d ∷ s) = ap (λ t. c ∷ t) (strip_sep-append (d ∷ s))

strip_sep-whole : (s : Str) → ends_in_sep s ≡ false → strip_sep s ≡ s
strip_sep-whole [] h = refl
strip_sep-whole (c ∷ []) h = rw h refl
strip_sep-whole (c ∷ d ∷ s) h = ap (λ t. c ∷ t) (strip_sep-whole (d ∷ s) h)

strip_sep-cut : (s : Str) → ends_in_sep s ≡ true → s ≡ strip_sep s ++ (b'/' ∷ [])
strip_sep-cut [] h = cc
strip_sep-cut (c ∷ []) h = let sep : c ≡ b'/' = ground arith in rw sep refl
strip_sep-cut (c ∷ d ∷ s) h = ap (λ t. c ∷ t) (strip_sep-cut (d ∷ s) h)

strip_sep-IsBase : (root : Str) → IsBase (strip_sep root) root
strip_sep-IsBase root = elim (Bool-cases (ends_in_sep root)) [
  | inl e ↦ inl (strip_sep-cut root e)
  | inr e ↦ inr (sym (strip_sep-whole root e), e)
]

IsBase-unique : (base root : Str) → IsBase base root → strip_sep root ≡ base
IsBase-unique base root b = elim b [
  | inl e ↦ ap strip_sep e ∙ strip_sep-append base
  | inr (e, whole) ↦ strip_sep-whole root whole ∙ e
]

starts_with-rest :
    (root file : Str)
    → starts_with file (root ++ (b'/' ∷ [])) ≡ true
    → (rest : Str) × (file ≡ root ++ (b'/' ∷ rest))
starts_with-rest [] [] h = cc
starts_with-rest [] (x ∷ file) h = (file, ap (λ c. c ∷ file) (ground arith))
starts_with-rest (c ∷ root) [] h = cc
starts_with-rest (c ∷ root) (x ∷ file) h =
    let same : x ≡ c = ground arith in
    let (rest, e) = starts_with-rest root file (ground arith) in
    (rest, ap (λ d. d ∷ file) same ∙ ap (λ s. c ∷ s) e)

starts_with-append :
    (root rest : Str) → starts_with (root ++ (b'/' ∷ rest)) (root ++ (b'/' ∷ [])) ≡ true
starts_with-append [] rest = refl
starts_with-append (c ∷ root) rest = ground (arith, starts_with-append root rest)

is_under-IsWithin : (root file : Str) → (is_under root file ≡ true) ↔ IsWithin root file
is_under-IsWithin root file = (
  λ h. elim (Bool-cases (starts_with file (root ++ (b'/' ∷ [])))) [
    | inl e ↦ inr (starts_with-rest root file e)
    | inr e ↦ inl ((str_eq_iff file root).0 (sym (rw e refl) ∙ h))
  ],
  λ within. elim within [
    | inl same ↦ ground (arith, str_eq_iff file root)
    | inr (rest, e) ↦ rw (e, starts_with-append root rest)
  ],
)

-- A root that was given, with its separator stripped.
pub is_under-IsIn : (root file : Str) → (is_under (strip_sep root) file ≡ true) ↔ IsIn root file
is_under-IsIn root file = (
  λ h. (strip_sep root, strip_sep-IsBase root, (is_under-IsWithin (strip_sep root) file).0 h),
  λ (base, b, within).
      (is_under-IsWithin (strip_sep root) file).1
        (subst (λ s. IsWithin s file) (sym (IsBase-unique base root b)) within),
)

-- A real root as it is.
pub is_under_whole-IsIn : (root file : Str) → is_under root file ≡ true → IsIn root file
is_under_whole-IsIn root file h = elim (Bool-cases (ends_in_sep root)) [
  | inl e ↦
      let base = strip_sep root in
      let cut = strip_sep-cut root e in
      (
        base,
        inl cut,
        elim ((is_under-IsWithin root file).0 h) [
          | inl same ↦ inr ([], same ∙ cut)
          | inr (rest, f) ↦ inr (
            b'/' ∷ rest,
            f ∙ ap (λ s. s ++ (b'/' ∷ rest)) cut ∙ append_assoc base (b'/' ∷ []) (b'/' ∷ rest),
          )
        ],
      )
  | inr e ↦ (root, inr (refl, e), (is_under-IsWithin root file).0 h)
]

IsIn-is_under :
    (root file : Str) → ends_in_sep root ≡ false → IsIn root file → is_under root file ≡ true
IsIn-is_under root file whole h =
    subst (λ s. is_under s file ≡ true) (strip_sep-whole root whole) ((is_under-IsIn root file).1 h)

pub some_injective : (f g : Str) → ◌≡◌ {A = Option Str} (some f) (some g) → f ≡ g
some_injective f g h = cc

real_under :
    (real real_root : Option Str)
    → ((root : Str) → real_root ≡ some root → ends_in_sep root ≡ false)
    → (is_real_under real real_root ≡ true)
      ↔ ((r root : Str) → real ≡ some r → real_root ≡ some root → IsIn root r)
real_under (some r) (some root) whole = (
  λ h r' root' e f.
      subst (λ x. IsIn x r') (some_injective root root' f)
        (subst (IsIn root) (some_injective r r' e) (is_under_whole-IsIn root r h)),
  λ h. IsIn-is_under root r (whole root refl) (h r root refl refl),
)
real_under (some r) none whole = (λ h r' root e f. cc, λ h. refl)
real_under none real_root whole = (λ h r' root e f. cc, λ h. refl)

checked_first :
    (inside follow real : Bool)
    → (if not inside then false else if follow then true else real) ≡ true
    → inside ≡ true
checked_first inside follow real h = ground arith

checked_last :
    (inside follow real : Bool)
    → (if not inside then false else if follow then true else real) ≡ true
    → follow ≡ false
    → real ≡ true
checked_last inside follow real h off = ground arith

checked :
    (inside follow real : Bool)
    → inside ≡ true
    → (follow ≡ false → real ≡ true)
    → (if not inside then false else if follow then true else real) ≡ true
checked inside true real h links = rw h refl
checked inside false real h links = rw h (links refl)

-- Where the real root, if it can be found, does not end in a separator, and so is not the root of the
-- file system, the check lets a path through exactly where it is the root or in it after
-- normalizing, and, unless symbolic links are followed, its real path is the real root or in it,
-- where both can be found.
pub is_path_in_root-IsLetIn :
    (host : Host) (p : Place)
    → ((root : Str) → host.real_path p.root ≡ some root → ends_in_sep root ≡ false)
    → (is_path_in_root host p ≡ true) ↔ IsLetIn host p
unfolding is_path_in_root
is_path_in_root-IsLetIn host p whole =
    let under = is_under-IsIn p.root (host.normalize p.filepath) in
    let in_root = is_under (strip_sep p.root) (host.normalize p.filepath) in
    let real_in_root = is_real_under (host.real_path p.filepath) (host.real_path p.root) in
    let real = real_under (host.real_path p.filepath) (host.real_path p.root) whole in
    (
      λ h. (
        under.0 (checked_first in_root p.follow_symlinks real_in_root h),
        λ off. real.0 (checked_last in_root p.follow_symlinks real_in_root h off),
      ),
      λ (inside, links).
          checked in_root p.follow_symlinks real_in_root (under.1 inside) λ off. real.1 (links off),
    )
