-- ===== src/Base/Store.antt =====
-- JavaScript's Map and Set with string keys, as lists in insertion order. A key stands once:
-- `set` replaces in place and `add` keeps what is there.
use mathlib.Core.Path.{◌≡◌, refl}
use mathlib.Core.Bool.{Bool, true, false, ◌||◌, not, ◌&&◌}
use mathlib.Core.Logic.{◌↔◌, inl, inr}
use mathlib.Core.Option.{Option, none, some}
use mathlib.Core.List.{List, [], ◌∷◌, ◌++◌}
use native.Mathlib.Omega.{arith}
use tsbootkit.Base.Tests.{if◌then◌else◌, Bool-cases, ==_refl}
use tsbootkit.Base.Text.{Str, str_eq}

pub str_eq_refl : (s : Str) → str_eq s s ≡ true
str_eq_refl [] = refl
str_eq_refl (x ∷ xs) = rw (==_refl x, str_eq_refl xs)

pub str_eq→eq : (s t : Str) → str_eq s t ≡ true → s ≡ t
str_eq→eq [] [] h = refl
str_eq→eq [] (y ∷ ys) h = cc
str_eq→eq (x ∷ xs) [] h = cc
str_eq→eq (x ∷ xs) (y ∷ ys) h = ground (arith, str_eq→eq xs ys)

pub str_eq_iff : (s t : Str) → (str_eq s t ≡ true) ↔ (s ≡ t)
str_eq_iff s t = (str_eq→eq s t, λ e. rw e (str_eq_refl t))

abbrev pub Map {ℓ} : Type ℓ → Type ℓ
Map V = List (Str × V)

module _ {ℓ} {V : Type ℓ} where
  unfoldable pub get : Str → Map V → Option V
  get k [] = none
  get k ((j, v) ∷ m) = if str_eq j k then some v else get k m

  unfoldable pub set : Str → V → Map V → Map V
  set k v [] = (k, v) ∷ []
  set k v ((j, w) ∷ m) = if str_eq j k then (j, v) ∷ m else (j, w) ∷ set k v m

  unfoldable pub delete : Str → Map V → Map V
  delete k [] = []
  delete k ((j, w) ∷ m) = let rest = delete k m in if str_eq j k then rest else (j, w) ∷ rest

  pub get-set :
      (k j : Str) (v : V) (m : Map V) → get j (set k v m) ≡ (if str_eq k j then some v else get j m)
  unfolding get set
  get-set k j v [] = refl
  get-set k j v ((i, w) ∷ m) =
      ground (arith, str_eq_iff k j, str_eq_iff i k, str_eq_iff i j, get-set k j v m)

  pub get-delete :
      (k j : Str) (m : Map V) → get j (delete k m) ≡ (if str_eq k j then none else get j m)
  unfolding get delete
  get-delete k j [] = ground arith
  get-delete k j ((i, w) ∷ m) =
      ground (arith, str_eq_iff k j, str_eq_iff i k, str_eq_iff i j, get-delete k j m)

  abbrev pub has_key : Str → Map V → Bool
  has_key k [] = false
  has_key k ((j, w) ∷ m) = str_eq j k || has_key k m

  -- A key stands once.
  abbrev pub IsMap : Map V → Type 0
  IsMap [] = Unit {0}
  IsMap ((k, v) ∷ m) = (has_key k m ≡ false) × IsMap m

  pub get-has_key : (k : Str) (v : V) (m : Map V) → get k m ≡ some v → has_key k m ≡ true
  unfolding get
  get-has_key k v [] h = cc
  get-has_key k v ((j, w) ∷ m) h = ground (arith, get-has_key k v m)

  has_key-set :
      (k j : Str) (v : V) (m : Map V) → has_key j (set k v m) ≡ (str_eq k j || has_key j m)
  unfolding set
  has_key-set k j v [] = ground arith
  has_key-set k j v ((i, w) ∷ m) =
      ground (arith, str_eq_iff k j, str_eq_iff i k, str_eq_iff i j, has_key-set k j v m)

  has_key-delete :
      (k j : Str) (m : Map V) → has_key j (delete k m) ≡ (not (str_eq k j) && has_key j m)
  unfolding delete
  has_key-delete k j [] = ground arith
  has_key-delete k j ((i, w) ∷ m) =
      ground (arith, str_eq_iff k j, str_eq_iff i k, str_eq_iff i j, has_key-delete k j m)

  pub set-IsMap : (k : Str) (v : V) (m : Map V) → IsMap m → IsMap (set k v m)
  unfolding set
  set-IsMap k v [] h = (refl, tt)
  set-IsMap k v ((j, w) ∷ m) h = elim (Bool-cases (str_eq j k)) [
    | inl e ↦ rw e h
    | inr e ↦
        rw e
          (ground (arith, has_key-set k j v m, str_eq_iff k j, str_eq_iff j k), set-IsMap k v m h.1)
  ]

  pub delete-IsMap : (k : Str) (m : Map V) → IsMap m → IsMap (delete k m)
  unfolding delete
  delete-IsMap k [] h = tt
  delete-IsMap k ((j, w) ∷ m) h = elim (Bool-cases (str_eq j k)) [
    | inl e ↦ rw e (delete-IsMap k m h.1)
    | inr e ↦ rw e (ground (arith, has_key-delete k j m), delete-IsMap k m h.1)
  ]

-- A Set of strings.
unfoldable pub has : Str → List Str → Bool
has k [] = false
has k (j ∷ s) = str_eq j k || has k s

unfoldable pub add : Str → List Str → List Str
unfolding has
add k s = if has k s then s else s ++ (k ∷ [])

unfoldable pub remove : Str → List Str → List Str
remove k [] = []
remove k (j ∷ s) = let rest = remove k s in if str_eq j k then rest else j ∷ rest

has-append_one : (k j : Str) (s : List Str) → has j (s ++ (k ∷ [])) ≡ (str_eq k j || has j s)
unfolding has
has-append_one k j [] = refl
has-append_one k j (i ∷ s) = ground (arith, has-append_one k j s)

pub has-add : (k j : Str) (s : List Str) → has j (add k s) ≡ (str_eq k j || has j s)
unfolding add
has-add k j s = elim (Bool-cases (has k s)) [
  | inl e ↦ ground (arith, str_eq_iff k j)
  | inr e ↦ rw e (has-append_one k j s)
]

pub has-remove : (k j : Str) (s : List Str) → has j (remove k s) ≡ (not (str_eq k j) && has j s)
unfolding has remove
has-remove k j [] = ground arith
has-remove k j (i ∷ s) =
    ground (arith, str_eq_iff k j, str_eq_iff i k, str_eq_iff i j, has-remove k j s)
