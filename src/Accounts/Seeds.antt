-- ===== src/Accounts/Seeds.antt =====
-- internal/harness/nats.go and internal/harness/compose.go: the seed file of an account.
use e2e.Base.{◌≡◌, ap, sym, ◌∙◌, ℕ, some, [], ◌∷◌, ◌++◌, Text, lit}
use e2e.Base.Maps.{lookup, insert, lookup-insert_same}
use e2e.Run.{done}
use e2e.Run.Inversion.{bind-done}
use e2e.Disk.{Host, join, write_file}
use e2e.Accounts.{
  Account, Operators, Provision, unwritten, no_account_key, no_operator, unpublished, make_key,
  on_disk, operate, register, provision_account, provision_accounts,
}
use e2e.Accounts.Calls.{on_disk-done, write_file-done}
use e2e.Accounts.Published.{operate-done}

-- Where the seed of an account is.
abbrev pub seed_path : Text → Text → Text
seed_path dir name = join dir (name ++ lit "-account.seed")

-- The account is registered, and its file holds its seed.
abbrev pub IsSeeded : {W : Type 0} → Text → Text → Account → Provision W → Type 0
IsSeeded dir name a p =
    (lookup name p.accounts ≡ some a) × (lookup (seed_path dir name) p.disk.files ≡ some a.seed)

module _ (ops : Operators) (host : Host) (mode : ℕ) (dir trust_seed : Text) where
  provision_account-IsSeeded :
      (name : Text) (p p' : Provision ops.World)
      → provision_account ops host mode dir trust_seed name p ≡ (done tt, p')
      → (a : Account) × IsSeeded dir name a p'
  unfolding provision_account register
  provision_account-IsSeeded name p p' e =
      let ((seed, key), p1, made, e1) =
        bind-done (make_key ops.create_account (no_account_key name)) _ p tt p' e in
      let path = seed_path dir name in
      let (_, p2, written, e2) =
        bind-done (on_disk unwritten (write_file host path seed mode)) _ p1 tt p' e1 in
      let (_, p3, opened, e3) =
        bind-done (operate (ops.new_operator seed trust_seed) (no_operator name)) _ p2 tt p' e2 in
      let (_, p4, published, e4) =
        bind-done (operate (ops.publish_claims key) (unpublished name)) _ p3 tt p' e3 in
      let (d, stored, p2_is) =
        on_disk-done unwritten (write_file host path seed mode) p1 p2 written in
      let (_, p3_is) =
        operate-done ops (ops.new_operator seed trust_seed) (no_operator name) p2 p3 opened in
      let (_, p4_is) =
        operate-done ops (ops.publish_claims key) (unpublished name) p3 p4 published in
      let a : Account = record { name = name; seed_file = path; seed = seed; public_key = key } in
      let files : p'.disk.files ≡ insert path seed p1.disk.files =
        ap (λ r. r.1.disk.files) (sym e4)
        ∙ (ap (λ q. q.disk.files) p4_is
            ∙ (ap (λ q. q.disk.files) p3_is
                ∙ (ap (λ q. q.disk.files) p2_is
                    ∙ write_file-done host path seed mode p1.disk d stored))) in
      (
        a,
        (
          ap (λ r. lookup name r.1.accounts) (sym e4) ∙ lookup-insert_same name a p4.accounts,
          ap (lookup path) files ∙ lookup-insert_same path seed p1.disk.files,
        ),
      )

  pub provision_accounts-IsSeeded :
      (name : Text) (p p' : Provision ops.World)
      → provision_accounts ops host mode dir trust_seed (name ∷ []) p ≡ (done tt, p')
      → (a : Account) × IsSeeded dir name a p'
  unfolding provision_accounts
  provision_accounts-IsSeeded name p p' e =
      let (_, p1, c1, e1) =
        bind-done (provision_account ops host mode dir trust_seed name) _ p tt p' e in
      let (a, seeded) = provision_account-IsSeeded name p p1 c1 in
      let p'_is : p' ≡ p1 = ap (λ r. r.1) (sym e1) in (a, rw p'_is seeded)
