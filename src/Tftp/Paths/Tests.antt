-- ===== src/Tftp/Paths/Tests.antt =====
-- A concrete path that the check of a TFTP request lets through, and two that it stops.
use tsbootkit.Base.{◌≡◌, ◌↔◌, refl, subst, true, false, some, if◌then◌else◌}
use tsbootkit.Base.Text.{Str, codes, str_eq}
use tsbootkit.Tftp.Paths.{Host, Place, place_of, strip_sep, is_path_in_root}
use tsbootkit.Tftp.Paths.Within.{IsLetIn, ends_in_sep, some_injective, is_path_in_root-IsLetIn}

-- Paths are normal; one of them is a link out of the root.
abbrev linked : Host
linked = record {
  resolve = λ root name. name;
  normalize = λ file. file;
  real_path =
      λ file. if str_eq file (codes "/srv/l") then some (codes "/etc/l") else some (strip_sep file);
}

abbrev place : Str → Place
place file = place_of linked (codes "/srv/") false file

inside_let_in : is_path_in_root linked (place (codes "/srv/a")) ≡ true
unfolding is_path_in_root
inside_let_in = refl

sibling_stopped : is_path_in_root linked (place (codes "/srv2")) ≡ false
unfolding is_path_in_root
sibling_stopped = refl

link_stopped : is_path_in_root linked (place (codes "/srv/l")) ≡ false
unfolding is_path_in_root
link_stopped = refl

real_root_whole :
    (root : Str) → linked.real_path (codes "/srv/") ≡ some root → ends_in_sep root ≡ false
real_root_whole root h =
    subst (λ s. ends_in_sep s ≡ false) (some_injective (codes "/srv") root h) refl

is_path_in_root-IsLetIn_example :
    (is_path_in_root linked (place (codes "/srv/a")) ≡ true)
    ↔ IsLetIn linked (place (codes "/srv/a"))
is_path_in_root-IsLetIn_example =
    is_path_in_root-IsLetIn linked (place (codes "/srv/a")) real_root_whole
