-- ===== src/Tftp/Paths.antt =====
-- src/tftp/state.mts and src/tftp/server.mts: the path check of a request. The path and file system
-- functions of Node are parameters.
pub mod Within
mod Tests
use tsbootkit.Base.{
  Bool, true, false, not, ◌&&◌, ◌||◌, Option, none, some, [], ◌∷◌, ◌++◌, if◌then◌else◌, ◌==◌,
}
use tsbootkit.Base.Text.{Str, str_eq, starts_with}

-- path.resolve, path.normalize, and fs.realpathSync, where none stands for an exception.
pub record Host : Type 0 where
  pub resolve : Str → Str → Str
  pub normalize : Str → Str
  pub real_path : Str → Option Str

-- What the check reads of a transfer.
pub record Place : Type 0 where
  pub root : Str
  pub filepath : Str
  pub follow_symlinks : Bool

abbrev pub place_of : Host → Str → Bool → Str → Place
place_of host root follow_symlinks filename = record {
  root = root;
  filepath = host.resolve root filename;
  follow_symlinks = follow_symlinks;
}

-- A root without its last separator.
abbrev pub strip_sep : Str → Str
strip_sep [] = []
strip_sep (c ∷ []) = if c == b'/' then [] else c ∷ []
strip_sep (c ∷ d ∷ s) = c ∷ strip_sep (d ∷ s)

abbrev pub is_under : Str → Str → Bool
is_under root file = starts_with file (root ++ (b'/' ∷ [])) || str_eq file root

-- An exception leaves the check at what it was.
abbrev pub is_real_under : Option Str → Option Str → Bool
is_real_under (some real) (some real_root) = is_under real_root real
is_real_under (some real) none = true
is_real_under none real_root = true

unfoldable pub is_path_in_root : Host → Place → Bool
is_path_in_root host p =
    if not (is_under (strip_sep p.root) (host.normalize p.filepath))
    then false
    else if p.follow_symlinks
    then true
    else is_real_under (host.real_path p.filepath) (host.real_path p.root)
