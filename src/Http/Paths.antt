-- ===== src/Http/Paths.antt =====
-- The files that src/shared/http.mts serves.
use tsbootkit.Base.{
  ℕ, ◌≡◌, ◌≤◌, refl, ap, sym, ◌∙◌, subst, ◌⊎◌, inl, inr, Bool, true, false, not, ◌&&◌, Option, none,
  some, [], ◌∷◌, if◌then◌else◌, ltb, Bool-cases, not_ltb→ge,
}
use tsbootkit.Base.Text.{Str, codes, str_eq, is_empty}
use tsbootkit.Tftp.Paths
use tsbootkit.Tftp.Paths.Within.{IsIn, is_under-IsIn, is_under_whole-IsIn}
use tsbootkit.Http.{
  Host, HttpServer, Request, Served, Body, text, no_body, whole_file, part_of_file, handle_request,
  handle_path, answer, serve_file, serve_stat, serve_index, serve_plain, requested_part,
  range_response, is_inside, strip_sep, symlink_refusal, unless_refused, check_real, Stat, regular,
  special, directory, no_entry, no_access, stat_failed, is_head, parse_range, refused, plain,
}

-- The file whose content a response carries.
abbrev pub file_of : Body → Option Str
file_of (text message) = none
file_of no_body = none
file_of (whole_file file) = some file
file_of (part_of_file file start end) = some file

not_refused :
    (inside : Bool) (refusal : ℕ × Str)
    → (if inside then none else some refusal) ≡ none
    → inside ≡ true
not_refused true refusal h = refl
not_refused false refusal h = cc

same_file : (f g : Str) → ◌≡◌ {A = Option Str} (some f) (some g) → f ≡ g
same_file f g h = cc

-- The file, if there is one, is as `P` says.
abbrev Only : (Str → Type 0) → Body → Type 0
Only P (text message) = Unit {0}
Only P no_body = Unit {0}
Only P (whole_file file) = P file
Only P (part_of_file file start end) = P file

only_file :
    (P : Str → Type 0) (body : Body) (file : Str) → Only P body → file_of body ≡ some file → P file
only_file P (text message) file p h = cc
only_file P no_body file p h = cc
only_file P (whole_file f) file p h = subst P (same_file f file h) p
only_file P (part_of_file f start end) file p h = subst P (same_file f file h) p

unless_head :
    (P : Str → Type 0) (b : Bool) (body : Body) → Only P body → Only P (if b then no_body else body)
unless_head P true body p = tt
unless_head P false body p = p

-- A test that ends in a plain response.
unless_test :
    (P : Str → Type 0) (test : Bool) (status : ℕ) (message : Str) (served : Served)
    → (test ≡ false → Only P served.response.body)
    → Only P (if test then refused (plain status message) else served).response.body
unless_test P true status message served h = tt
unless_test P false status message served h = h refl

passed_test : (b : Bool) → not b ≡ false → b ≡ true
passed_test true h = refl
passed_test false h = cc

same_strip : (s : Str) → strip_sep s ≡ Paths.strip_sep s
same_strip [] = refl
same_strip (c ∷ []) = refl
same_strip (c ∷ d ∷ s) = ap (◌∷◌ c) (same_strip (d ∷ s))

stripped-IsIn : (root file : Str) → is_inside (strip_sep root) file ≡ true → IsIn root file
stripped-IsIn root file h =
    (is_under-IsIn root file).0 (subst (λ s. is_inside s file ≡ true) (same_strip root) h)

is_inside-IsIn : (root file : Str) → is_inside root file ≡ true → IsIn root file
is_inside-IsIn root file h = is_under_whole-IsIn root file h

module _ (host : Host) (srv : HttpServer) (req : Request) where
  -- A file that a response to a request for `asked` may carry: the one asked for, which is regular or
  -- special but no directory, or the index of the directory asked for, a regular file; it is not
  -- too large.
  abbrev pub IsServed : Str → Str → Type 0
  IsServed asked file =
      ((file ≡ asked)
        × ((size : ℕ) × ((host.stat file ≡ regular size) ⊎ (host.stat file ≡ special size))
            × (size ≤ srv.max_file_size)))
      ⊎ ((host.stat asked ≡ directory)
          × (file ≡ host.join_path asked (codes "index.html"))
          × ((size : ℕ) × (host.stat file ≡ regular size) × (size ≤ srv.max_file_size)))

  module _ (P : Str → Type 0) (file : Str) (p : P file) where
    range-Only :
        (size : ℕ) (range : Option (ℕ × ℕ))
        → Only P (range_response host req file size range).response.body
    range-Only size none = tt
    range-Only size (some (start, end)) =
        unless_head P (is_head req) (part_of_file file start end) p

    part-Only :
        (size : ℕ) (header : Option Str)
        → Only P (requested_part host req file size header).response.body
    part-Only size none = unless_head P (is_head req) (whole_file file) p
    part-Only size (some header) = elim (Bool-cases (is_empty header)) [
      | inl e ↦ rw e (unless_head P (is_head req) (whole_file file) p)
      | inr e ↦ rw e (range-Only size (parse_range header size))
    ]

  plain-Only :
      (P : Str → Type 0) (file : Str) (size : ℕ)
      → (size ≤ srv.max_file_size → P file)
      → Only P (serve_plain host srv req file size).response.body
  plain-Only P file size p = elim (Bool-cases (ltb srv.max_file_size size)) [
    | inl large ↦ rw large tt
    | inr fits ↦
        rw fits (part-Only P file (p (not_ltb→ge srv.max_file_size size fits)) size req.range)
  ]

  index-Only :
      (P : Str → Type 0) (index : Str) (s : Stat)
      → ((size : ℕ) → s ≡ regular size → size ≤ srv.max_file_size → P index)
      → Only P (serve_index host srv req index s).response.body
  index-Only P index (regular size) p = plain-Only P index size (p size refl)
  index-Only P index (special size) p = tt
  index-Only P index directory p = tt
  index-Only P index no_entry p = tt
  index-Only P index no_access p = tt
  index-Only P index stat_failed p = tt

  stat-Only :
      (asked : Str) (s : Stat)
      → host.stat asked ≡ s
      → Only (IsServed asked) (serve_stat host srv req asked s).response.body
  stat-Only asked (regular size) e =
      plain-Only (IsServed asked) asked size λ fits. inl (refl, (size, inl e, fits))
  stat-Only asked (special size) e =
      plain-Only (IsServed asked) asked size λ fits. inl (refl, (size, inr e, fits))
  stat-Only asked directory e =
      let index = host.join_path asked (codes "index.html") in
      index-Only (IsServed asked) index (host.stat index)
        λ size found fits. inr (e, refl, (size, found, fits))
  stat-Only asked no_entry e = tt
  stat-Only asked no_access e = tt
  stat-Only asked stat_failed e = tt

  -- The path protection has let `asked` through.
  abbrev pub IsLetThrough : Str → Type 0
  IsLetThrough asked =
      IsIn srv.root asked
      × (srv.follow_symlinks ≡ false
          → (real : Str) × (real_root : Str) × (host.real_path asked ≡ some real)
            × (host.real_path srv.root ≡ some real_root)
            × IsIn real_root real)

  real_checked :
      (asked : Str) (real real_root : Option Str)
      → check_real real real_root ≡ none
      → (r : Str) × (root : Str) × (real ≡ some r) × (real_root ≡ some root) × IsIn root r
  real_checked asked none real_root h = cc
  real_checked asked (some real) none h = cc
  real_checked asked (some real) (some root) h =
      (real, root, refl, refl, is_inside-IsIn root real (not_refused (is_inside root real) _ h))

  symlink_checked :
      (asked : Str)
      → symlink_refusal host srv asked ≡ none
      → srv.follow_symlinks ≡ false
      → (real : Str) × (real_root : Str) × (host.real_path asked ≡ some real)
        × (host.real_path srv.root ≡ some real_root)
        × IsIn real_root real
  symlink_checked asked h off =
      real_checked asked (host.real_path asked) (host.real_path srv.root) (sym (rw off refl) ∙ h)

  Only-and :
      (P : Str → Type 0) (Q : Type 0) (body : Body) → Only P body → Q → Only (λ f. P f × Q) body
  Only-and P Q (text message) p q = tt
  Only-and P Q no_body p q = tt
  Only-and P Q (whole_file f) p q = (p, q)
  Only-and P Q (part_of_file f start end) p q = (p, q)

  checked-Only :
      (asked : Str) (refusal : Option (ℕ × Str))
      → symlink_refusal host srv asked ≡ refusal
      → is_inside (strip_sep srv.root) asked ≡ true
      → Only
          (λ f. IsServed asked f × IsLetThrough asked)
          (unless_refused refusal (serve_file host srv req asked)).response.body
  unfolding serve_file
  checked-Only asked none e inside =
      Only-and (IsServed asked) (IsLetThrough asked) _ (stat-Only asked (host.stat asked) refl)
        (stripped-IsIn srv.root asked inside, symlink_checked asked e)
  checked-Only asked (some (status, message)) e inside = tt

  answer-Only :
      (path : Str)
      → let asked = host.normalized srv.root path in
        Only (λ f. IsServed asked f × IsLetThrough asked) (answer host srv req path).response.body
  unfolding answer
  answer-Only path =
      let asked = host.normalized srv.root path in
      let P = λ (f : Str). IsServed asked f × IsLetThrough asked in
      unless_test P (not (str_eq req.method (codes "GET")) && not (is_head req)) _ _ _ λ method.
        unless_test P (not (is_inside (strip_sep srv.root) asked)) _ _ _
          λ inside. checked-Only asked (symlink_refusal host srv asked) refl (passed_test _ inside)

  -- Where a response to a decoded path carries a file, its path was normalized to the root or one in
  -- it, and, unless symbolic links are followed, the real path of this is the real root or in it; the
  -- file carried is the one at this path, which is no directory, or the index of the directory there,
  -- which is a regular file, and it is not larger than the maximum.
  pub handle_request_inside :
      (now : ℕ) (path file : Str)
      → req.path ≡ some path
      → file_of (handle_request host now srv req).1.body ≡ some file
      → let asked = host.normalized srv.root path in IsServed asked file × IsLetThrough asked
  unfolding handle_request
  handle_request_inside now path file decoded h =
      let asked = host.normalized srv.root path in
      let carries : file_of (answer host srv req path).response.body ≡ some file =
        ap (λ p. file_of (handle_path host now srv req p).1.body) (sym decoded) ∙ h in
      only_file (λ f. IsServed asked f × IsLetThrough asked)
        (answer host srv req path).response.body file (answer-Only path) carries
