-- ===== src/Nats/Bridged.antt =====
-- internal/harness/nats.go: what `bridge` and `refreshLoaded` leave in the broker.
use e2e.Base.{
  ◌≡◌, ◌≢◌, refl, ap, sym, ◌∙◌, arith, ◌⊎◌, inl, inr, true, Option, none, some, List, [], ◌∷◌, Text,
  lit, ◌==◌, text_eq, Any, if◌then◌else◌,
}
use e2e.Base.Maps.{Map, lookup, keys}
use e2e.Base.Strings.{cut_suffix, cut_suffix-append, cut_suffix_sound}
use e2e.Run.{done, or_fail}
use e2e.Run.Inversion.{bind-done, or_fail-done, guard-done, verdict-done}
use e2e.Disk.{Host, join}
use e2e.Accounts.{unread, unstored, Operators, jwt_file}
use e2e.Nats.{Brokers, Nats, resolver_dir, read_jwt, store_jwt, bridge_file, bridge_entries, bridge}

-- What is relied on of nats-server: a stored JWT is what the resolver fetches until it is replaced;
-- running the server and looking up and
-- updating accounts leave the resolver; an account that a lookup does not find has no
-- live claims; an update replaces the live claims of its account alone.
pub record IsLawful (brokers : Brokers) : Type 0 where
  pub run_server-stored :
      (trusted other : Text) (s : brokers.State)
      → brokers.stored other (brokers.run_server trusted s) ≡ brokers.stored other s
  pub store-stored :
      (key jwt : Text) (s s' : brokers.State)
      → brokers.store key jwt s ≡ (true, s')
      → (other : Text)
      → brokers.stored other s' ≡ (if key == other then some jwt else brokers.stored other s)
  pub lookup_account-stored :
      (key other : Text) (s : brokers.State)
      → brokers.stored other (brokers.lookup_account key s).1 ≡ brokers.stored other s
  pub update_claims-stored :
      (acc : brokers.Live) (c : brokers.Claims) (other : Text) (s : brokers.State)
      → brokers.stored other (brokers.update_claims acc c s) ≡ brokers.stored other s
  pub lookup_account-none :
      (key : Text) (s : brokers.State)
      → (brokers.lookup_account key s).0 ≡ none
      → brokers.live_claims key (brokers.lookup_account key s).1 ≡ none
  pub lookup_account-live :
      (key other : Text) (s : brokers.State)
      → key ≢ other
      → brokers.live_claims other (brokers.lookup_account key s).1 ≡ brokers.live_claims other s
  pub update_claims-live :
      (key other : Text) (acc : brokers.Live) (c : brokers.Claims) (s : brokers.State)
      → (brokers.lookup_account key s).0 ≡ some acc
      → brokers.live_claims other (brokers.update_claims acc c (brokers.lookup_account key s).1) ≡ (
          if key == other
          then some c
          else brokers.live_claims other (brokers.lookup_account key s).1)

-- The name of an account's file gives its public key back.
cut-jwt_file : (name key : Text) → name ≡ jwt_file key → cut_suffix name (lit ".jwt") ≡ some key
unfolding jwt_file
cut-jwt_file name key same = rw same (cut_suffix-append key (lit ".jwt"))

-- A file with another name, or with none of an account, is no account's file.
was_stored :
    {V : Type 0} (name key : Text) (cut : Option Text) (r v : V)
    → cut_suffix name (lit ".jwt") ≡ cut
    → cut ≢ some key
    → (name ≡ jwt_file key) ⊎ (r ≡ v)
    → r ≡ v
was_stored name key cut r v e other (inl same) = absurd (other (sym e ∙ cut-jwt_file name key same))
was_stored name key cut r v e other (inr was) = was

bridged_stored :
    (jwts : Map Text) (name own key jwt other : Text) (before after : Option Text)
    → cut_suffix name (lit ".jwt") ≡ some own
    → after ≡ (if own == key then some jwt else before)
    → lookup (jwt_file own) jwts ≡ some jwt
    → lookup (jwt_file key) jwts ≡ some other
    → (name ≡ jwt_file key) ⊎ (before ≡ some other)
    → after ≡ some other
bridged_stored jwts name own key jwt other before after is_jwt stored held_own held here =
    elim (text_eq.dec own key) [
      | yes same ↦ ground (arith, stored, same, held_own, held, ap jwt_file same)
      | no apart ↦
          let was : before ≡ some other =
            was_stored name key (some own) before (some other) is_jwt (λ e. apart (cc e)) here in
          ground (arith, stored, apart, was)
    ]

lookup-keys :
    {V : Type 0} (key : Text) (v : V) (m : Map V)
    → lookup key m ≡ some v
    → Any (λ x. x ≡ key) (keys m)
unfolding lookup keys
lookup-keys key v [] e = absurd (ground (arith, e))
lookup-keys key v ((name, w) ∷ m) e = elim (text_eq.dec name key) [
  | yes same ↦ inl same
  | no other ↦ inr (lookup-keys key v m (ground (arith, e, other)))
]

module _ (ops : Operators) (brokers : Brokers) (host : Host) (dir : Text) where
  pub read_jwt-done :
      (name jwt : Text) (n n' : Nats ops.World brokers.State)
      → read_jwt ops brokers host dir name n ≡ (done jwt, n')
      → (lookup name (ops.jwts n.provision.world) ≡ some jwt) × (n' ≡ n)
  unfolding read_jwt
  read_jwt-done name jwt n n' e =
      let found =
        guard-done (host.can_read (join (resolver_dir ops brokers host dir) name))
          (or_fail (lookup name (ops.jwts n.provision.world)) (unread name) n) (unread name) n jwt
          n' e in
      or_fail-done (lookup name (ops.jwts n.provision.world)) (unread name) n jwt n' found

  store_jwt-done :
      IsLawful brokers
      → (key jwt : Text) (n n' : Nats ops.World brokers.State)
      → store_jwt ops brokers host dir key jwt n ≡ (done tt, n')
      → (n'.provision ≡ n.provision)
        × ((other : Text)
            → brokers.stored other n'.broker
              ≡ (if key == other then some jwt else brokers.stored other n.broker))
  unfolding store_jwt
  store_jwt-done law key jwt n n' e =
      let s = (brokers.store key jwt n.broker).1 in
      let (ok, n'_is) =
        verdict-done (brokers.store key jwt n.broker).0 (unstored key) (record n { broker = s }) n'
          e in
      (
        ap (λ m. m.provision) n'_is,
        λ other.
            ap (λ m. brokers.stored other m.broker) n'_is
            ∙ law.store-stored key jwt n.broker s (ap (λ b. (b, s)) ok) other,
      )

  -- After a file is bridged: a JWT of the directory is in the resolver if it is the file's or was
  -- there before.
  bridge_file-done :
      IsLawful brokers
      → (name : Text) (cut : Option Text) (n n' : Nats ops.World brokers.State)
      → cut_suffix name (lit ".jwt") ≡ cut
      → bridge_file ops brokers host dir name cut n ≡ (done tt, n')
      → (n'.provision ≡ n.provision)
        × ((key jwt : Text)
            → lookup (jwt_file key) (ops.jwts n.provision.world) ≡ some jwt
            → (name ≡ jwt_file key) ⊎ (brokers.stored key n.broker ≡ some jwt)
            → brokers.stored key n'.broker ≡ some jwt)
  unfolding bridge_file jwt_file
  bridge_file-done law name none n n' no_jwt e = (
    ap (λ r. r.1.provision) (sym e),
    λ key jwt held here.
        ap (λ r. brokers.stored key r.1.broker) (sym e)
        ∙ was_stored name key none (brokers.stored key n.broker) (some jwt) no_jwt
            (λ e. ground (arith, e)) here,
  )
  bridge_file-done law name (some own) n n' is_jwt e =
      let (jwt, t, was_read, rest) = bind-done (read_jwt ops brokers host dir name) _ n tt n' e in
      let (held_own, t_is) = read_jwt-done name jwt n t was_read in
      let (kept, stored) = store_jwt-done law own jwt t n' rest in
      (
        kept ∙ ap (λ m. m.provision) t_is,
        λ key other held here.
            bridged_stored (ops.jwts n.provision.world) name own key jwt other
              (brokers.stored key n.broker) (brokers.stored key n'.broker) is_jwt
              (stored key
                ∙ ap (λ r. if own == key then some jwt else r)
                    (ap (λ m. brokers.stored key m.broker) t_is))
              (sym (
                  ap (λ f. lookup f (ops.jwts n.provision.world))
                    (cut_suffix_sound name (lit ".jwt") own is_jwt))
                ∙ held_own)
              held here,
      )

  bridge_entries-done :
      IsLawful brokers
      → (names : List Text) (n n' : Nats ops.World brokers.State)
      → bridge_entries ops brokers host dir names n ≡ (done tt, n')
      → (n'.provision ≡ n.provision)
        × ((key jwt : Text)
            → lookup (jwt_file key) (ops.jwts n.provision.world) ≡ some jwt
            → Any (λ x. x ≡ jwt_file key) names ⊎ (brokers.stored key n.broker ≡ some jwt)
            → brokers.stored key n'.broker ≡ some jwt)
  unfolding bridge_entries
  bridge_entries-done law [] n n' e = (
    ap (λ r. r.1.provision) (sym e),
    λ key jwt held here.
        ap (λ r. brokers.stored key r.1.broker) (sym e)
        ∙ (elim here [ inl met ↦ absurd met | inr was ↦ was ]),
  )
  bridge_entries-done law (name ∷ names) n n' e =
      let (u, t, first, rest) =
        bind-done (bridge_file ops brokers host dir name (cut_suffix name (lit ".jwt")))
          (λ _. bridge_entries ops brokers host dir names) n tt n' e in
      let (same, one) = bridge_file-done law name (cut_suffix name (lit ".jwt")) n t refl first in
      let (kept, more) = bridge_entries-done law names t n' rest in
      (
        kept ∙ same,
        λ key jwt held here.
            more key jwt (ap (λ p. lookup (jwt_file key) (ops.jwts p.world)) same ∙ held)
              (elim here [
                | inl (inl this) ↦ inr (one key jwt held (inl this))
                | inl (inr later) ↦ inl later
                | inr was ↦ inr (one key jwt held (inr was))
              ]),
      )

  -- When `bridge` returns, nothing but the broker has changed, and the resolver has the JWT of every
  -- account's file in the directory.
  pub bridge-done :
      IsLawful brokers
      → (n n' : Nats ops.World brokers.State) → bridge ops brokers host dir n ≡ (done tt, n')
      → (n'.provision ≡ n.provision)
        × ((key jwt : Text)
            → lookup (jwt_file key) (ops.jwts n.provision.world) ≡ some jwt
            → brokers.stored key n'.broker ≡ some jwt)
  unfolding bridge
  bridge-done law n n' e =
      let (kept, stored) = bridge_entries-done law (keys (ops.jwts n.provision.world)) n n' (
        guard-done (host.can_read (resolver_dir ops brokers host dir))
          (bridge_entries ops brokers host dir (keys (ops.jwts n.provision.world)) n)
          (unread (resolver_dir ops brokers host dir)) n tt n' e) in
      (
        kept,
        λ key jwt held.
            stored key jwt held
              (inl (lookup-keys (jwt_file key) jwt (ops.jwts n.provision.world) held)),
      )
