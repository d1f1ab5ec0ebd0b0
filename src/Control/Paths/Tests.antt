-- ===== src/Control/Paths/Tests.antt =====
-- The test of file names in internal/control/store.go at concrete names.
use codexlink.Prelude.{true, false, [], ◌∷◌, ◌≡◌, refl, bytes_eq}
use codexlink.Prelude.Text.{codes, any_code, has_prefix}
use codexlink.Control.Paths.{
  onto_first, split, join, up, reduce, clean, is_drive, has_control, is_bad_file,
}
use codexlink.Control.Paths.Safe.{AllParts, IsName, is_bad_file-names}

program : Unit {0}
unfolding bytes_eq any_code has_prefix onto_first split join up reduce clean is_drive has_control
    is_bad_file
program = tt

is_bad_file-names_example :
    (has_prefix (codes "internal/a.go") (b'/' ∷ []) ≡ false)
    × AllParts IsName (codes "internal" ∷ codes "a.go" ∷ [])
unfolding program
is_bad_file-names_example = is_bad_file-names "internal/a.go" refl

climbing : is_bad_file "a/../../b" ≡ true
unfolding program
climbing = refl
