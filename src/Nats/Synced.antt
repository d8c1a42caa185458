-- ===== src/Nats/Synced.antt =====
-- internal/harness/nats.go: what a grant has done when it returns.
use e2e.Base.{
  ◌≡◌, ◌≢◌, refl, ap, sym, ◌∙◌, arith, ◌⊎◌, inl, inr, Option, none, some, Text, ◌==◌, text_eq,
  if◌then◌else◌,
}
use e2e.Base.Maps.{lookup}
use e2e.Run.{done, ◌>>=◌, or_fail}
use e2e.Run.Inversion.{bind-done, zoom-done, or_fail-done, pure-done}
use e2e.Disk.{Host}
use e2e.Accounts.{
  Account, unknown_account, undecoded, Operators, Provision, account, operate, export_failed,
  import_failed, grant_claims, jwt_file,
}
use e2e.Nats.{Brokers, Nats, on_provision, read_jwt, bridge, find_live, push, refresh_loaded, grant}
use e2e.Nats.Bridged.{IsLawful, read_jwt-done, bridge-done}

if_same : {A : Type 0} (x : Text) (a b : A) → (if x == x then a else b) ≡ a
if_same x a b = ground arith

if_apart : {A : Type 0} (x y : Text) (a b : A) → x ≢ y → (if x == y then a else b) ≡ b
if_apart x y a b apart = ground (arith, apart)

module _ (ops : Operators) (brokers : Brokers) (host : Host) (dir : Text) where
  -- The broker has not loaded the account, or it checks the account against the JWT of its file.
  abbrev pub IsFresh : Text → Nats ops.World brokers.State → Type 0
  IsFresh key n =
      (brokers.live_claims key n.broker ≡ none)
      ⊎ ((jwt : Text) × (claims : brokers.Claims) × (lookup (jwt_file key)
              (ops.jwts n.provision.world)
            ≡ some jwt)
          × (brokers.decode jwt ≡ some claims)
          × (brokers.live_claims key n.broker ≡ some claims))

  -- The resolver has the JWT of every account's file.
  abbrev pub IsBridged : Nats ops.World brokers.State → Type 0
  IsBridged n =
      (key jwt : Text)
      → lookup (jwt_file key) (ops.jwts n.provision.world) ≡ some jwt
      → brokers.stored key n.broker ≡ some jwt

  -- What a refresh of `key` leaves.
  record Refreshed (key : Text) (n n' : Nats ops.World brokers.State) : Type 0 where
    pub kept : n'.provision ≡ n.provision
    pub resolver : (other : Text) → brokers.stored other n'.broker ≡ brokers.stored other n.broker
    pub is_fresh : IsFresh key n'
    pub others :
        (other : Text)
        → key ≢ other
        → brokers.live_claims other n'.broker ≡ brokers.live_claims other n.broker

  push-done :
      IsLawful brokers
      → (key : Text) (acc : Option brokers.Live) (n n' : Nats ops.World brokers.State)
      → (brokers.lookup_account key n.broker).0 ≡ acc
      → push ops brokers host dir key acc
          (record n { broker = (brokers.lookup_account key n.broker).1 })
        ≡ (done tt, n')
      → Refreshed key n n'
  unfolding push
  push-done law key none n n' found e =
      let s = (brokers.lookup_account key n.broker).1 in
      let broker = ap (λ r. r.1.broker) (sym e) in
      record {
        kept = ap (λ r. r.1.provision) (sym e);
        resolver = λ other.
            ap (brokers.stored other) broker ∙ law.lookup_account-stored key other n.broker;
        is_fresh =
            inl (ap (brokers.live_claims key) broker ∙ law.lookup_account-none key n.broker found);
        others = λ other apart.
            ap (brokers.live_claims other) broker
            ∙ law.lookup_account-live key other n.broker apart;
      }
  push-done law key (some acc) n n' found e =
      let t = record n { broker = (brokers.lookup_account key n.broker).1 } in
      let (raw, t1, was_read, rest) =
        bind-done (read_jwt ops brokers host dir (jwt_file key)) _ t tt n' e in
      let (held, t1_is) = read_jwt-done ops brokers host dir (jwt_file key) raw t t1 was_read in
      let (claims, t2, decoded, last) =
        bind-done (or_fail (brokers.decode raw) (undecoded key)) _ t1 tt n' rest in
      let (decodes, t2_is) =
        or_fail-done (brokers.decode raw) (undecoded key) t1 claims t2 decoded in
      let t_is = t2_is ∙ t1_is in
      let provision = ap (λ r. r.1.provision) (sym last) ∙ ap (λ m. m.provision) t_is in
      let broker =
        ap (λ r. r.1.broker) (sym last)
        ∙ ap (λ m. brokers.update_claims acc claims m.broker) t_is in
      record {
        kept = provision;
        resolver = λ other.
            ap (brokers.stored other) broker
            ∙ (law.update_claims-stored acc claims other t.broker
                ∙ law.lookup_account-stored key other n.broker);
        is_fresh = inr (
          raw,
          claims,
          ap (λ p. lookup (jwt_file key) (ops.jwts p.world)) provision ∙ held,
          decodes,
          ap (brokers.live_claims key) broker
              ∙ (law.update_claims-live key key acc claims n.broker found
                  ∙ if_same key (some claims) (brokers.live_claims key t.broker)),
        );
        others = λ other apart.
            ap (brokers.live_claims other) broker
            ∙ (law.update_claims-live key other acc claims n.broker found
                ∙ (if_apart key other (some claims) (brokers.live_claims other t.broker) apart
                    ∙ law.lookup_account-live key other n.broker apart));
      }

  refresh_loaded-done :
      IsLawful brokers
      → (key : Text) (n n' : Nats ops.World brokers.State)
      → refresh_loaded ops brokers host dir key n ≡ (done tt, n')
      → Refreshed key n n'
  unfolding refresh_loaded ◌>>=◌ find_live
  refresh_loaded-done law key n n' e =
      push-done law key (brokers.lookup_account key n.broker).0 n n' refl e

  account-done :
      (name : Text) (p p' : Provision ops.World) (a : Account)
      → account name p ≡ (done a, p')
      → (lookup name p.accounts ≡ some a) × (p' ≡ p)
  unfolding account
  account-done name p p' a e = or_fail-done (lookup name p.accounts) (unknown_account name) p a p' e

  -- A fresh account stays so when another is refreshed.
  IsFresh-kept :
      (key other : Text) (n n' : Nats ops.World brokers.State)
      → Refreshed other n n'
      → IsFresh key n
      → IsFresh key n'
  IsFresh-kept key other n n' r f = elim (text_eq.dec other key) [
    | yes same ↦ rw (← same) r.is_fresh
    | no apart ↦ elim f [
      | inl unloaded ↦ inl (r.others key apart ∙ unloaded)
      | inr (jwt, claims, held, decodes, live) ↦ inr (
        jwt,
        claims,
        ap (λ p. lookup (jwt_file key) (ops.jwts p.world)) r.kept ∙ held,
        decodes,
        r.others key apart ∙ live,
      )
    ]
  ]

  -- The accounts that a grant is about.
  grant_claims-done :
      (exporter importer subject : Text) (p p' : Provision ops.World) (exp imp : Account)
      → grant_claims ops exporter importer subject p ≡ (done (exp, imp), p')
      → (lookup exporter p.accounts ≡ some exp) × (lookup importer p.accounts ≡ some imp)
  unfolding grant_claims
  grant_claims-done exporter importer subject p p' exp imp e =
      let (a, t, found, e1) = bind-done (account exporter) _ p (exp, imp) p' e in
      let (b, t1, found1, e2) = bind-done (account importer) _ t (exp, imp) p' e1 in
      let (_, t2, _, e3) =
        bind-done (operate (ops.add_export a.public_key subject) (export_failed exporter subject)) _
          t1 (exp, imp) p' e2 in
      let (_, t3, _, e4) =
        bind-done
          (operate (ops.add_import b.public_key a.public_key subject)
            (import_failed importer subject))
          _ t2 (exp, imp) p' e3 in
      let (is_a, t_is) = account-done exporter p t a found in
      let (is_b, _) = account-done importer t t1 b found1 in
      let (both, _) = pure-done (a, b) (exp, imp) t3 p' e4 in
      (
        is_a ∙ ap some (ap (λ ab. ab.0) both),
        ap (λ q. lookup importer q.accounts) (sym t_is) ∙ (is_b ∙ ap some (ap (λ ab. ab.1) both)),
      )

  -- When `Grant` returns: the resolver has the JWT of every account's file, and neither of the two
  -- accounts is checked against older claims than those of its file: the broker has not loaded it, or
  -- its live claims are the decoded JWT.
  pub grant_synced :
      IsLawful brokers
      → (exporter importer subject : Text) (n n' : Nats ops.World brokers.State)
      → grant ops brokers host dir exporter importer subject n ≡ (done tt, n')
      → IsBridged n'
        × ((exp : Account) × (imp : Account) × (lookup exporter n.provision.accounts ≡ some exp)
            × (lookup importer n.provision.accounts ≡ some imp)
            × IsFresh exp.public_key n'
            × IsFresh imp.public_key n')
  unfolding grant on_provision
  grant_synced law exporter importer subject n n' e =
      let ((exp, imp), t, granted, e1) =
        bind-done (on_provision (grant_claims ops exporter importer subject)) _ n tt n' e in
      let (p, claimed, t_is) =
        zoom-done (λ m. m.provision) (λ p m. record m { provision = p })
          (grant_claims ops exporter importer subject) n (exp, imp) t granted in
      let (found, found1) =
        grant_claims-done exporter importer subject n.provision p exp imp claimed in
      let (_, t1, bridged, e2) = bind-done (bridge ops brokers host dir) _ t tt n' e1 in
      let (same, stored) = bridge-done ops brokers host dir law t t1 bridged in
      let (_, t2, refreshed, e3) =
        bind-done (refresh_loaded ops brokers host dir exp.public_key) _ t1 tt n' e2 in
      let r1 = refresh_loaded-done law exp.public_key t1 t2 refreshed in
      let r2 = refresh_loaded-done law imp.public_key t2 n' e3 in
      let kept = r2.kept ∙ (r1.kept ∙ same) in
      (
        λ key jwt held.
            r2.resolver key
            ∙ (r1.resolver key
                ∙ stored key jwt
                    (ap (λ q. lookup (jwt_file key) (ops.jwts q.world)) (sym kept) ∙ held)),
        (
          exp,
          imp,
          found,
          found1,
          IsFresh-kept exp.public_key imp.public_key t2 n' r2 r1.is_fresh,
          r2.is_fresh,
        ),
      )
