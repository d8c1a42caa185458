-- ===== src/Accounts/Published.antt =====
-- internal/harness/nats.go and internal/harness/compose.go: the loop that provisions the accounts.
use e2e.Base.{
  ℕ, ◌≡◌, ap, sym, ◌∙◌, arith, ◌⊎◌, inl, inr, Bool, true, Option, some, List, [], ◌∷◌, ◌++◌, Text,
  lit, ◌==◌, text_eq, Any, if◌then◌else◌,
}
use e2e.Base.Maps.{lookup, insert, lookup-insert}
use e2e.Run.{done}
use e2e.Run.Inversion.{bind-done, or_fail-done, verdict-done}
use e2e.Disk.{Host, join, write_file}
use e2e.Accounts.Calls.{on_disk-done}
use e2e.Accounts.{
  Fault, no_account_key, unwritten, no_operator, unpublished, Operators, Account, Provision,
  jwt_file, operate, make_key, on_disk, register, provision_account, provision_accounts,
}

-- The JWT directory has the file.
abbrev pub Has : (ops : Operators) → Text → ops.World → Type 0
Has ops file w = (jwt : Text) × (lookup file (ops.jwts w) ≡ some jwt)

-- What is relied on: a publication that succeeds leaves the account's file in the JWT directory, and
-- making keys, operators and publications removes no file from it.
pub record IsLawful (ops : Operators) : Type 0 where
  pub publish_claims-Has :
      (key : Text) (w : ops.World)
      → (ops.publish_claims key w).0 ≡ true
      → Has ops (jwt_file key) (ops.publish_claims key w).1
  pub publish_claims-kept :
      (key : Text) (w : ops.World) (file : Text)
      → Has ops file w
      → Has ops file (ops.publish_claims key w).1
  pub create_account-kept :
      (w : ops.World) (file : Text) → Has ops file w → Has ops file (ops.create_account w).1
  pub new_operator-kept :
      (seed trust : Text) (w : ops.World) (file : Text)
      → Has ops file w
      → Has ops file (ops.new_operator seed trust w).1

-- The account is registered.
abbrev pub IsKnown : {W : Type 0} → Text → Provision W → Type 0
IsKnown name p = (a : Account) × (lookup name p.accounts ≡ some a)

module _ (ops : Operators) where
  -- Every registered account's claims are in the JWT directory.
  abbrev pub IsPublished : Provision ops.World → Type 0
  IsPublished p =
      (name : Text) (a : Account)
      → lookup name p.accounts ≡ some a
      → Has ops (jwt_file a.public_key) p.world

  pub operate-done :
      (call : ops.World → Bool × ops.World) (fault : Fault) (p p' : Provision ops.World)
      → operate call fault p ≡ (done tt, p')
      → ((call p.world).0 ≡ true) × (p' ≡ record p { world = (call p.world).1 })
  unfolding operate
  operate-done call fault p p' e =
      verdict-done (call p.world).0 fault (record p { world = (call p.world).1 }) p' e

  pub make_key-done :
      (create : ops.World → Option (Text × Text) × ops.World) (fault : Fault)
      (p p' : Provision ops.World) (key : Text × Text)
      → make_key create fault p ≡ (done key, p')
      → p' ≡ record p { world = (create p.world).1 }
  unfolding make_key
  make_key-done create fault p p' key e =
      (or_fail-done (create p.world).0 fault (record p { world = (create p.world).1 }) key p' e).1

  module _ (host : Host) (mode : ℕ) (dir trust_seed : Text) where
    -- What the body of the loop leaves: the name's account is new and published, the others stay.
    provision_account-done :
        IsLawful ops
        → (name : Text) (p p' : Provision ops.World)
        → provision_account ops host mode dir trust_seed name p ≡ (done tt, p')
        → (a : Account) × (p'.accounts ≡ insert name a p.accounts)
          × Has ops (jwt_file a.public_key) p'.world
          × ((file : Text) → Has ops file p.world → Has ops file p'.world)
    unfolding provision_account register
    provision_account-done law name p p' e =
        let ((seed, key), p1, made, e1) =
          bind-done (make_key ops.create_account (no_account_key name)) _ p tt p' e in
        let path = join dir (name ++ lit "-account.seed") in
        let (_, p2, written, e2) =
          bind-done (on_disk unwritten (write_file host path seed mode)) _ p1 tt p' e1 in
        let (_, p3, opened, e3) =
          bind-done (operate (ops.new_operator seed trust_seed) (no_operator name)) _ p2 tt p' e2 in
        let (_, p4, published, e4) =
          bind-done (operate (ops.publish_claims key) (unpublished name)) _ p3 tt p' e3 in
        let p1_is = make_key-done ops.create_account (no_account_key name) p p1 (seed, key) made in
        let (_, _, p2_is) = on_disk-done unwritten (write_file host path seed mode) p1 p2 written in
        let (_, p3_is) =
          operate-done (ops.new_operator seed trust_seed) (no_operator name) p2 p3 opened in
        let (ok, p4_is) =
          operate-done (ops.publish_claims key) (unpublished name) p3 p4 published in
        let world = ap (λ r. r.1.world) (sym e4) ∙ ap (λ q. q.world) p4_is in
        (
          record { name = name; seed_file = path; seed = seed; public_key = key },
          ap (λ r. r.1.accounts) (sym e4)
              ∙ ap
                  (insert name
                    (record { name = name; seed_file = path; seed = seed; public_key = key }))
                  (ap (λ q. q.accounts) p4_is
                    ∙ (ap (λ q. q.accounts) p3_is
                        ∙ (ap (λ q. q.accounts) p2_is ∙ ap (λ q. q.accounts) p1_is))),
          rw world (law.publish_claims-Has key p3.world ok),
          λ file held. rw world (
              law.publish_claims-kept key p3.world file (
                rw (ap (λ q. q.world) p3_is) (
                  law.new_operator-kept seed trust_seed p2.world file (
                    rw (ap (λ q. q.world) p2_is ∙ ap (λ q. q.world) p1_is)
                      (law.create_account-kept p.world file held))))),
        )

    inserted :
        (name other : Text) (a : Account) (p p' : Provision ops.World)
        → p'.accounts ≡ insert name a p.accounts
        → lookup other p'.accounts ≡ (if name == other then some a else lookup other p.accounts)
    inserted name other a p p' e = ap (lookup other) e ∙ lookup-insert name other a p.accounts

    insert-IsPublished :
        (name : Text) (a : Account) (p p' : Provision ops.World)
        → p'.accounts ≡ insert name a p.accounts
        → Has ops (jwt_file a.public_key) p'.world
        → ((file : Text) → Has ops file p.world → Has ops file p'.world)
        → IsPublished p
        → IsPublished p'
    insert-IsPublished name a p p' e new kept before other b found = elim (text_eq.dec name other) [
      | yes same ↦
          let both : some a ≡ some b = ground (arith, inserted name other a p p' e, found, same) in
          let is_a : a ≡ b = cc both in rw (← is_a) new
      | no apart ↦
          kept (jwt_file b.public_key)
            (before other b (ground (arith, inserted name other a p p' e, found, apart)))
    ]

    insert-IsKnown :
        (name other : Text) (a : Account) (p p' : Provision ops.World)
        → p'.accounts ≡ insert name a p.accounts
        → (name ≡ other) ⊎ IsKnown other p
        → IsKnown other p'
    insert-IsKnown name other a p p' e known = elim (text_eq.dec name other) [
      | yes same ↦ (a, ground (arith, inserted name other a p p' e, same))
      | no apart ↦ elim known [
        | inl same ↦ absurd (apart same)
        | inr (b, was) ↦ (b, ground (arith, inserted name other a p p' e, was, apart))
      ]
    ]

    -- When the loop over the names returns, every name has an account, and the claims of every
    -- registered account are published.
    pub provision_accounts-done :
        IsLawful ops
        → (names : List Text) (p p' : Provision ops.World)
        → provision_accounts ops host mode dir trust_seed names p ≡ (done tt, p')
        → IsPublished p
        → IsPublished p'
          × ((name : Text) → Any (λ x. x ≡ name) names ⊎ IsKnown name p → IsKnown name p')
    unfolding provision_accounts
    provision_accounts-done law [] p p' e before =
        let p_is : p ≡ p' = ap (λ r. r.1) e in
        (
          rw (← p_is) before,
          λ name here. elim here [ inl met ↦ absurd met | inr was ↦ rw (← p_is) was ],
        )
    provision_accounts-done law (x ∷ names) p p' e before =
        let (_, t, first, rest) =
          bind-done (provision_account ops host mode dir trust_seed x)
            (λ _. provision_accounts ops host mode dir trust_seed names) p tt p' e in
        let (a, accounts, new, kept) = provision_account-done law x p t first in
        let (after, known) =
          provision_accounts-done law names t p' rest
            (insert-IsPublished x a p t accounts new kept before) in
        (
          after,
          λ name here. known name (elim here [
            | inl (inl this) ↦ inr (insert-IsKnown x name a p t accounts (inl this))
            | inl (inr later) ↦ inl later
            | inr was ↦ inr (insert-IsKnown x name a p t accounts (inr was))
          ]),
        )
