-- ===== src/BootFile.antt =====
-- The boot file resolution of src/config.mts, which the DHCP and the BOOTP server call.
use tsbootkit.Base.{
  ℕ, Option, none, some, Bool, false, if◌then◌else◌, ◌==◌, ◌||◌, List, [], ◌∷◌, ◌≡◌, arith,
}
use tsbootkit.Base.Text.{Str, is_empty}

pub record BootFileMap : Type 0 where
  pub bios : Option Str
  pub efi_x86_64 : Option Str
  pub efi_arm64 : Option Str

-- A static reservation of a MAC address.
pub record Reservation : Type 0 where
  pub ip : Str
  pub boot_file : Option Str
  pub boot_files : Option BootFileMap

-- The enumeration ClientArchitecture of src/dhcp/types.mts gives bios 0, nec_pc98 1, efi_ia64 2,
-- efi_x86_64 3, efi_alpha 4, efi_arc 5, efi_ilc 6, efi_arm32 7, efi_arm64 8, efi_x86 9.
abbrev pub is_one_of : ℕ → List ℕ → Bool
is_one_of a [] = false
is_one_of a (b ∷ bs) = (a == b) || is_one_of a bs

abbrev pub arch_to_boot_file : BootFileMap → Option ℕ → Option Str
arch_to_boot_file files none = files.bios
arch_to_boot_file files (some arch) =
    if is_one_of arch (0 ∷ 1 ∷ 5 ∷ 6 ∷ [])
    then files.bios
    else if is_one_of arch (3 ∷ 2 ∷ 9 ∷ [])
    then files.efi_x86_64
    else if is_one_of arch (7 ∷ 8 ∷ [])
    then files.efi_arm64
    else files.efi_x86_64

-- `if (name) return name;`, with what follows when there is no name or an empty one.
abbrev pub or_else : Option Str → Str → Str
or_else none s = s
or_else (some name) s = if is_empty name then s else name

abbrev pub map_file : Option BootFileMap → Option ℕ → Option Str
map_file none arch = none
map_file (some files) arch = arch_to_boot_file files arch

abbrev pub exact_file : Option Reservation → Option Str
exact_file none = none
exact_file (some r) = r.boot_file

abbrev pub reserved_files : Option Reservation → Option BootFileMap
reserved_files none = none
reserved_files (some r) = r.boot_files

unfoldable pub resolve_boot_file : Option Reservation → Option BootFileMap → Str → Option ℕ → Str
resolve_boot_file reservation global_boot_files default_boot_file arch =
    or_else (exact_file reservation) (
      or_else (map_file (reserved_files reservation) arch)
        (or_else (map_file global_boot_files arch) default_boot_file))

or_else_full : (o : Option Str) (s : Str) → is_empty s ≡ false → is_empty (or_else o s) ≡ false
or_else_full none s h = h
or_else_full (some name) s h = ground arith

-- With a default boot file every client is named a boot file, whatever the empty entries of the
-- reservation and of the maps.
pub resolve_boot_file_full :
    (r : Option Reservation) (files : Option BootFileMap) (default : Str) (arch : Option ℕ)
    → is_empty default ≡ false
    → is_empty (resolve_boot_file r files default arch) ≡ false
unfolding resolve_boot_file
resolve_boot_file_full r files default arch h = or_else_full (exact_file r) _ (
    or_else_full (map_file (reserved_files r) arch) _
      (or_else_full (map_file files arch) default h))
