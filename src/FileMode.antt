-- ===== src/FileMode.antt =====
-- plumbing/filemode/filemode.go: the modes of tree entries, and their modes on the file system. os.FileMode is a
-- parameter.
use ai_experimental_search.Base.{
  ℕ, ◌≤◌, ◌≡◌, ◌⊎◌, refl, ◌∙◌, Bool, true, false, not, ◌||◌, ◌&&◌, Option, none, some,
  if◌then◌else◌, ◌==◌, ==_iff, bit_and, arith, Bool-cases, inl, inr,
}

abbrev pub dir : ℕ
dir = 0x4000

abbrev pub regular : ℕ
regular = 0x81a4

abbrev pub deprecated : ℕ
deprecated = 0x81b4

abbrev pub executable : ℕ
executable = 0x81ed

abbrev pub symlink : ℕ
symlink = 0xa000

abbrev pub submodule : ℕ
submodule = 0xe000

unfoldable pub is_malformed : ℕ → Bool
is_malformed m =
    not (m == dir)
    && not (m == regular)
    && not (m == deprecated)
    && not (m == executable)
    && not (m == symlink)
    && not (m == submodule)

unfoldable pub is_regular : ℕ → Bool
is_regular m = m == regular || m == deprecated

unfoldable pub is_file : ℕ → Bool
is_file m = m == regular || m == deprecated || m == executable || m == symlink

-- What the code uses of os.FileMode: the tests of its bits, ModePerm with ModeDir or ModeSymlink, and the
-- conversion of permissions.
pub record OsModes (M : Type 0) : Type 0 where
  pub is_regular : M → Bool
  pub is_dir : M → Bool
  pub is_temporary : M → Bool
  pub is_char_device : M → Bool
  pub is_user_executable : M → Bool
  pub is_symlink : M → Bool
  pub perm_dir : M
  pub perm_symlink : M
  pub file_mode : ℕ → M

-- The documented bits: permissions make a regular file, and a directory and a link are no regular files.
pub record IsOsModes {M : Type 0} (os : OsModes M) : Type 0 where
  pub file_regular : (n : ℕ) → n ≤ 511 → os.is_regular (os.file_mode n) ≡ true
  pub file_stays : (n : ℕ) → n ≤ 511 → os.is_temporary (os.file_mode n) ≡ false
  pub file_no_device : (n : ℕ) → n ≤ 511 → os.is_char_device (os.file_mode n) ≡ false
  pub file_executable :
      (n : ℕ) → n ≤ 511 → os.is_user_executable (os.file_mode n) ≡ not (bit_and n 64 == 0)
  pub dir_special : os.is_regular os.perm_dir ≡ false
  pub dir_is : os.is_dir os.perm_dir ≡ true
  pub link_special : os.is_regular os.perm_symlink ≡ false
  pub link_no_dir : os.is_dir os.perm_symlink ≡ false
  pub link_is : os.is_symlink os.perm_symlink ≡ true

module _ {M : Type 0} (os : OsModes M) where
  -- NewFromOSFileMode; `none` is its error.
  unfoldable pub new_from_os_file_mode : M → Option ℕ
  new_from_os_file_mode m =
      if os.is_regular m
      then (if os.is_temporary m
          then none
          else if os.is_char_device m
          then none
          else if os.is_user_executable m
          then some executable
          else some regular)
      else if os.is_dir m
      then some dir
      else if os.is_symlink m
      then some symlink
      else none

  unfoldable pub to_os_file_mode : ℕ → Option M
  to_os_file_mode m =
      if m == dir || m == submodule
      then some os.perm_dir
      else if m == regular || m == deprecated
      then some (os.file_mode 420)
      else if m == executable
      then some (os.file_mode 493)
      else if m == symlink
      then some os.perm_symlink
      else none

-- The mode that is read again of what ToOSFileMode makes of a mode that is not malformed.
unfoldable pub checked_out : ℕ → ℕ
checked_out m = if m == deprecated then regular else if m == submodule then dir else m

module _ {M : Type 0} (os : OsModes M) (laws : IsOsModes os) where
  from_dir : new_from_os_file_mode os os.perm_dir ≡ some dir
  unfolding new_from_os_file_mode
  from_dir = rw (laws.dir_special, laws.dir_is) refl

  from_symlink : new_from_os_file_mode os os.perm_symlink ≡ some symlink
  unfolding new_from_os_file_mode
  from_symlink = rw (laws.link_special, laws.link_no_dir, laws.link_is) refl

  from_file :
      (n : ℕ)
      → n ≤ 511
      → new_from_os_file_mode os (os.file_mode n)
        ≡ (if not (bit_and n 64 == 0) then some executable else some regular)
  unfolding new_from_os_file_mode
  from_file n l =
      rw
        (
          laws.file_regular n l,
          laws.file_stays n l,
          laws.file_no_device n l,
          laws.file_executable n l,
        )
        refl

  -- For an os.FileMode with its documented bits: ToOSFileMode gives an error exactly for a malformed mode. For
  -- another mode it gives a mode on the file system from which NewFromOSFileMode reads the first one again,
  -- but for two: a deprecated mode comes back as a regular one, and a submodule, which the code maps to a
  -- directory without an error, comes back as a directory.
  pub new_from_os_file_mode-to_os_file_mode :
      (m : ℕ)
      → ((is_malformed m ≡ true) × (to_os_file_mode os m ≡ none))
        ⊎ ((is_malformed m ≡ false)
            × (o : M) × (to_os_file_mode os m ≡ some o)
            × (new_from_os_file_mode os o ≡ some (checked_out m)))
  unfolding to_os_file_mode is_malformed checked_out
  new_from_os_file_mode-to_os_file_mode m = elim (Bool-cases (m == dir)) [
    | inl s ↦
        let is : m ≡ dir = (==_iff m dir).0 s in
        inr (rw is refl, os.perm_dir, rw is refl, from_dir ∙ rw is refl)
    | inr d ↦ elim (Bool-cases (m == submodule)) [
      | inl s ↦
          let is : m ≡ submodule = (==_iff m submodule).0 s in
          inr (rw is refl, os.perm_dir, rw is refl, from_dir ∙ rw is refl)
      | inr b ↦ elim (Bool-cases (m == regular)) [
        | inl s ↦
            let is : m ≡ regular = (==_iff m regular).0 s in
            inr (rw is refl, os.file_mode 420, rw is refl, from_file 420 (omega arith) ∙ rw is refl)
        | inr r ↦ elim (Bool-cases (m == deprecated)) [
          | inl s ↦
              let is : m ≡ deprecated = (==_iff m deprecated).0 s in
              inr
                (rw is refl, os.file_mode 420, rw is refl, from_file 420 (omega arith) ∙ rw is refl)
          | inr p ↦ elim (Bool-cases (m == executable)) [
            | inl s ↦
                let is : m ≡ executable = (==_iff m executable).0 s in
                inr (
                  rw is refl,
                  os.file_mode 493,
                  rw is refl,
                  from_file 493 (omega arith) ∙ rw is refl,
                )
            | inr x ↦ elim (Bool-cases (m == symlink)) [
              | inl s ↦
                  let is : m ≡ symlink = (==_iff m symlink).0 s in
                  inr (rw is refl, os.perm_symlink, rw is refl, from_symlink ∙ rw is refl)
              | inr l ↦ inl (rw (d, b, r, p, x, l) refl, rw (d, b, r, p, x, l) refl)
            ]
          ]
        ]
      ]
    ]
  ]
