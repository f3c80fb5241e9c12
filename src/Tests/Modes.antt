-- ===== src/Tests/Modes.antt =====
-- The modes of files at concrete inputs.
use ai_experimental_search.Base.{
  ℕ, ◌≡◌, ◌⊎◌, refl, Bool, true, false, not, none, some, ◌==◌, bit_and,
}
use ai_experimental_search.FileMode.{
  OsModes, IsOsModes, new_from_os_file_mode, to_os_file_mode, is_malformed, checked_out, deprecated,
  submodule, new_from_os_file_mode-to_os_file_mode,
}

data OsMode : Type 0 where
  plain : ℕ → OsMode
  folder : OsMode
  link : OsMode

abbrev is_plain : OsMode → Bool
is_plain (plain n) = true
is_plain folder = false
is_plain link = false

abbrev is_folder : OsMode → Bool
is_folder (plain n) = false
is_folder folder = true
is_folder link = false

abbrev is_link : OsMode → Bool
is_link (plain n) = false
is_link folder = false
is_link link = true

abbrev runs : OsMode → Bool
runs (plain n) = not (bit_and n 64 == 0)
runs folder = true
runs link = true

abbrev modes : OsModes OsMode
modes = record {
  is_regular = is_plain;
  is_dir = is_folder;
  is_temporary = λ m. false;
  is_char_device = λ m. false;
  is_user_executable = runs;
  is_symlink = is_link;
  perm_dir = folder;
  perm_symlink = link;
  file_mode = plain;
}

modes-IsOsModes : IsOsModes modes
modes-IsOsModes = record {
  file_regular = λ n l. refl;
  file_stays = λ n l. refl;
  file_no_device = λ n l. refl;
  file_executable = λ n l. refl;
  dir_special = refl;
  dir_is = refl;
  link_special = refl;
  link_no_dir = refl;
  link_is = refl;
}

new_from_os_file_mode-to_os_file_mode_example :
    ((is_malformed deprecated ≡ true) × (to_os_file_mode modes deprecated ≡ none))
    ⊎ ((is_malformed deprecated ≡ false)
        × (o : OsMode) × (to_os_file_mode modes deprecated ≡ some o)
        × (new_from_os_file_mode modes o ≡ some (checked_out deprecated)))
new_from_os_file_mode-to_os_file_mode_example =
    new_from_os_file_mode-to_os_file_mode modes modes-IsOsModes deprecated

submodule_run : to_os_file_mode modes submodule ≡ some folder
unfolding to_os_file_mode
submodule_run = refl
