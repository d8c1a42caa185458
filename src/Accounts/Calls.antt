-- ===== src/Accounts/Calls.antt =====
-- What the calls that internal/harness/nats.go and internal/harness/compose.go are made of leave when
-- they return.
use e2e.Base.{ℕ, ◌≡◌, ap, sym, ◌∙◌, arith, inl, inr, Bool-cases, Text, refl}
use e2e.Base.Maps.{insert}
use e2e.Run.{Run, done}
use e2e.Run.Inversion.{blame-done}
use e2e.Disk.{Disk, Host, mkdir_all, write_file}
use e2e.Accounts.{Fault, Provision, on_disk}

module _ (host : Host) where
  pub write_file-done :
      (path content : Text) (mode : ℕ) (d d' : Disk)
      → write_file host path content mode d ≡ (done tt, d')
      → d'.files ≡ insert path content d.files
  unfolding write_file
  write_file-done path content mode d d' e = elim (Bool-cases (host.can_write path)) [
    | inl able ↦ ap (λ r. r.1.files) (sym e) ∙ rw (able, write_file) refl
    | inr unable ↦ absurd (ground (arith, e, unable))
  ]

  pub mkdir_all-done :
      (path : Text) (mode : ℕ) (d d' : Disk)
      → mkdir_all host path mode d ≡ (done tt, d')
      → d'.files ≡ d.files
  unfolding mkdir_all
  mkdir_all-done path mode d d' e = elim (Bool-cases (host.can_make path)) [
    | inl able ↦ ap (λ r. r.1.files) (sym e) ∙ rw (able, mkdir_all) refl
    | inr unable ↦ absurd (ground (arith, e, unable))
  ]

-- An action on the disk that returned changed the disk alone.
pub on_disk-done :
    {W : Type 0} (fault : Text → Fault) (m : Run Text Disk (Unit {0})) (p p' : Provision W)
    → on_disk fault m p ≡ (done tt, p')
    → (d : Disk) × (m p.disk ≡ (done tt, d)) × (p' ≡ record p { disk = d })
unfolding on_disk
on_disk-done fault m p p' e = (
  (m p.disk).1,
  ap (λ r. (r, (m p.disk).1)) (blame-done fault (m p.disk).0 tt (ap (λ r. r.0) e)),
  sym (ap (λ r. r.1) e),
)
