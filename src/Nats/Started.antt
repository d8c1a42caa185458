-- ===== src/Nats/Started.antt =====
-- internal/harness/nats.go: what `StartNATS` has done when it returns.
use e2e.Base.{suc, ◌≡◌, ap, sym, ◌∙◌, arith, inl, Option, none, some, List, [], Text, lit, Any}
use e2e.Base.Maps.{lookup}
use e2e.Run.{Run, done, modify}
use e2e.Run.Inversion.{bind-done, zoom-done}
use e2e.Disk.{Host, join, mkdir_all, write_file, mode_600, mode_755}
use e2e.Accounts.{
  Fault, Account, no_operator_key, unmade, unwritten, Operators, Provision, jwt_file, make_key,
  on_disk, provision_accounts,
}
use e2e.Accounts.Published.{IsPublished, IsKnown, provision_accounts-done}
use e2e.Nats.{Brokers, Nats, on_provision, resolver_dir, bridge, start_nats}
use e2e.Nats.Bridged.{bridge-done}

pub on_provision-done :
    {W B A : Type 0} (m : Run Fault (Provision W) A) (n n' : Nats W B) (a : A)
    → on_provision m n ≡ (done a, n')
    → (p : Provision W) × (m n.provision ≡ (done a, p)) × (n' ≡ record n { provision = p })
unfolding on_provision
on_provision-done m n n' a e =
    zoom-done (λ m. m.provision) (λ p m. record m { provision = p }) m n a n' e

module _ (ops : Operators) (brokers : Brokers) (host : Host) (dir : Text) where
  -- The account is registered, and the resolver has the claims that it is checked against.
  abbrev pub IsConnectable : Text → Nats ops.World brokers.State → Type 0
  IsConnectable name n =
      (a : Account) × (jwt : Text) × (lookup name n.provision.accounts ≡ some a)
      × (brokers.stored a.public_key n.broker ≡ some jwt)

  none-IsPublished : (p : Provision ops.World) → p.accounts ≡ [] → IsPublished ops p
  unfolding lookup
  none-IsPublished p empty name a found = absurd (no_account (ap (lookup name) (sym empty) ∙ found))
    where
      no_account : ◌≡◌ {A = Option Account} none (some a) → ⊥
      no_account h = ground (arith, h)

  -- When `StartNATS` returns, every name has an account whose claims the broker's resolver has, so
  -- that a client can connect to it before any grant.
  pub start_nats-IsConnectable :
      e2e.Accounts.Published.IsLawful ops
      → e2e.Nats.Bridged.IsLawful brokers
      → (names : List Text) (n n' : Nats ops.World brokers.State) (url : Text)
      → start_nats ops brokers host dir names n ≡ (done url, n')
      → (name : Text) → Any (λ x. x ≡ name) names
      → IsConnectable name n'
  unfolding start_nats
  start_nats-IsConnectable ops_law law names n n' url e name here =
      let ((seed, key), n1, _, e1) =
        bind-done (on_provision (make_key ops.create_operator no_operator_key)) _ n url n' e in
      let (_, n2, _, e2) =
        bind-done
          (on_provision
            (on_disk unmade (mkdir_all host (resolver_dir ops brokers host dir) mode_755)))
          _ n1 url n' e1 in
      let (_, n3, _, e3) =
        bind-done
          (on_provision
            (on_disk unwritten (write_file host (join dir (lit "operator.seed")) seed mode_600)))
          _ n2 url n' e2 in
      let (_, n4, fresh, e4) =
        bind-done
          (modify (λ n. record {
            provision = record n.provision { accounts = [] };
            broker = brokers.new_resolver;
            shutdowns = n.shutdowns;
          }))
          _ n3 url n' e3 in
      let (_, n5, provisioned, e5) =
        bind-done (on_provision (provision_accounts ops host mode_600 dir seed names)) _ n4 url n'
          e4 in
      let (_, n6, bridged, e6) = bind-done (bridge ops brokers host dir) _ n5 url n' e5 in
      let (_, n7, run, e7) =
        bind-done (modify (λ n. record n { broker = brokers.run_server key n.broker })) _ n6 url n'
          e6 in
      let (_, n8, registered, e8) =
        bind-done (modify (λ n. record n { shutdowns = suc n.shutdowns })) _ n7 url n' e7 in
      let (p, ran, n5_is) =
        on_provision-done (provision_accounts ops host mode_600 dir seed names) n4 n5 tt
          provisioned in
      let (published, known) =
        provision_accounts-done ops host mode_600 dir seed ops_law names n4.provision p ran
          (none-IsPublished n4.provision (ap (λ r. r.1.provision.accounts) (sym fresh))) in
      let (a, found) = known name (inl here) in
      let (jwt, held) = published name a found in
      let (same, stored) = bridge-done ops brokers host dir law n5 n6 bridged in
      let n8_is : n8 ≡ record n7 { shutdowns = suc n7.shutdowns } =
        ap (λ r. r.1) (sym registered) in
      let n7_is : n7 ≡ record n6 { broker = brokers.run_server key n6.broker } =
        ap (λ r. r.1) (sym run) in
      let n'_is : n' ≡ n8 = ap (λ r. r.1) (sym e8) in
      let accounts_are : n'.provision.accounts ≡ n6.provision.accounts =
        ap (λ m. m.provision.accounts) n'_is
        ∙ (ap (λ m. m.provision.accounts) n8_is ∙ ap (λ m. m.provision.accounts) n7_is) in
      let broker_is : n'.broker ≡ brokers.run_server key n6.broker =
        ap (λ m. m.broker) n'_is ∙ (ap (λ m. m.broker) n8_is ∙ ap (λ m. m.broker) n7_is) in
      (
        a,
        jwt,
        ap (lookup name) accounts_are
            ∙ (ap (λ q. lookup name q.accounts) same
                ∙ (ap (λ m. lookup name m.provision.accounts) n5_is ∙ found)),
        ap (brokers.stored a.public_key) broker_is
            ∙ (law.run_server-stored key a.public_key n6.broker
                ∙ stored a.public_key jwt (
                    ap (λ m. lookup (jwt_file a.public_key) (ops.jwts m.provision.world)) n5_is
                    ∙ held)),
      )
