-- ===== src/Disk/Modes.antt =====
-- What the walks of internal/harness/compose.go leave: the permissions of the tree, and nothing else.
use e2e.Base.{
  ℕ, ◌≡◌, arith, ap, sym, ◌∙◌, ◌⊎◌, inl, inr, Option, none, some, Bool, List, [], ◌∷◌, Text,
  text_eq, Any, if◌then◌else◌, Bool-cases, Option-cases,
}
use e2e.Base.Maps.{lookup, insert, lookup-insert}
use e2e.Run.{done}
use e2e.Run.Inversion.{bind-done}
use e2e.Disk.{Disk, Host, chmod, open_entry, walk_dir, make_container_writable, mode_666, mode_777}

-- The permission bits that a path must have.
abbrev pub bits : Host → ℕ → ℕ → Text → Option ℕ
bits host dir_mode file_mode path = elim (host.stat path) [
  | none ↦ none
  | some is_dir ↦ some (if is_dir then dir_mode else file_mode)
]

module _ (host : Host) (dir_mode file_mode : ℕ) where
  chmod-done :
      (path : Text) (mode : ℕ) (d d' : Disk)
      → chmod host path mode d ≡ (done tt, d')
      → d' ≡ record d { modes = insert path mode d.modes }
  unfolding chmod
  chmod-done path mode d d' e = elim (Bool-cases (host.can_chmod path)) [
    | inl able ↦ sym (ap (λ r. r.1) e) ∙ rw (able, chmod)
    | inr unable ↦ absurd (ground (arith, e, unable))
  ]

  open_entry-seen :
      (path : Text) (is_dir : Bool) (d : Disk)
      → host.stat path ≡ some is_dir
      → open_entry host dir_mode file_mode path d
        ≡ chmod host path (if is_dir then dir_mode else file_mode) d
  unfolding open_entry
  open_entry-seen path is_dir d seen = rw (seen, open_entry)

  open_entry-done :
      (path : Text) (d d' : Disk)
      → open_entry host dir_mode file_mode path d ≡ (done tt, d')
      → (mode : ℕ) × (bits host dir_mode file_mode path ≡ some mode)
        × (d' ≡ record d { modes = insert path mode d.modes })
  unfolding open_entry
  open_entry-done path d d' e = elim (Option-cases (host.stat path)) [
    | inl unseen ↦ absurd (ground (arith, e, unseen))
    | inr (is_dir, seen) ↦ (
      if is_dir then dir_mode else file_mode,
      rw (seen, bits),
      chmod-done path (if is_dir then dir_mode else file_mode) d d'
          (sym (open_entry-seen path is_dir d seen) ∙ e),
    )
  ]

  -- A path that is in the rest of the tree, or has its bits before the entry `x` is opened, is in
  -- the rest or has them afterwards.
  entry-bits :
      (x : Text) (tree : List Text) (mode : ℕ) (d t : Disk) (path : Text)
      → t.modes ≡ insert x mode d.modes
      → bits host dir_mode file_mode x ≡ some mode
      → Any (λ y. y ≡ path) (x ∷ tree) ⊎ (lookup path d.modes ≡ bits host dir_mode file_mode path)
      → Any (λ y. y ≡ path) tree ⊎ (lookup path t.modes ≡ bits host dir_mode file_mode path)
  entry-bits x tree mode d t path changed seen (inl (inl here)) = inr (
      ground (
        arith,
        lookup-insert x path mode d.modes,
        changed,
        seen,
        here,
        ap (bits host dir_mode file_mode) here,
      ))
  entry-bits x tree mode d t path changed seen (inl (inr there)) = inl there
  entry-bits x tree mode d t path changed seen (inr before) = inr (elim (text_eq.dec x path) [
    | yes same ↦ ground (
      arith,
      lookup-insert x path mode d.modes,
      changed,
      seen,
      same,
      ap (bits host dir_mode file_mode) same,
    )
    | no other ↦ ground (arith, lookup-insert x path mode d.modes, changed, before, other)
  ])

  none_met :
      (d d' : Disk)
      → d'.modes ≡ d.modes
      → (path : Text) → ⊥ ⊎ (lookup path d.modes ≡ bits host dir_mode file_mode path)
      → lookup path d'.modes ≡ bits host dir_mode file_mode path
  none_met d d' e path (inl met) = absurd met
  none_met d d' e path (inr before) = ap (lookup path) e ∙ before

  -- The walk, when the paths met before it have their bits too.
  pub walk_dir-bits :
      (tree : List Text) (d d' : Disk)
      → walk_dir host dir_mode file_mode tree d ≡ (done tt, d')
      → (d'.files ≡ d.files)
        × ((path : Text)
            → Any (λ x. x ≡ path) tree ⊎ (lookup path d.modes ≡ bits host dir_mode file_mode path)
            → lookup path d'.modes ≡ bits host dir_mode file_mode path)
  unfolding walk_dir
  walk_dir-bits [] d d' e =
      (ap (λ r. r.1.files) (sym e), none_met d d' (ap (λ r. r.1.modes) (sym e)))
  walk_dir-bits (x ∷ tree) d d' e =
      let (u, t, first, rest) =
        bind-done (open_entry host dir_mode file_mode x)
          (λ _. walk_dir host dir_mode file_mode tree) d tt d' e in
      let (mode, seen, changed) = open_entry-done x d t first in
      let (kept, later) = walk_dir-bits tree t d' rest in
      (
        kept ∙ ap (λ s. s.files) changed,
        λ path h. later path (entry-bits x tree mode d t path (ap (λ s. s.modes) changed) seen h),
      )

-- When `makeContainerWritable` returns, every path of the tree has the bits 0777 if it is a directory
-- and 0666 if it is a file, and no file has changed.
pub make_container_writable-opens :
    (host : Host) (tree : List Text) (d d' : Disk)
    → make_container_writable host tree d ≡ (done tt, d')
    → (d'.files ≡ d.files)
      × ((path : Text)
          → Any (λ x. x ≡ path) tree
          → lookup path d'.modes ≡ bits host mode_777 mode_666 path)
unfolding make_container_writable
make_container_writable-opens host tree d d' e =
    let (kept, opened) = walk_dir-bits host mode_777 mode_666 tree d d' e in
    (kept, λ path met. opened path (inl met))
