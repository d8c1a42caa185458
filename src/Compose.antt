-- ===== src/Compose.antt =====
-- internal/harness/compose.go: what is provisioned before a compose project boots.
pub mod Calls
pub mod Latch
pub mod Seeds
use e2e.Base.{
  Bool, true, false, none, some, List, [], ◌∷◌, ◌++◌, ℕ, Text, lit, map, if◌then◌else◌, trim_space,
}
use e2e.Base.Maps.{Map, lookup, keys}
use e2e.Config.{concat}
use e2e.Config.Quote.{quote}
use e2e.Run.{blame, Run, Outcome, done, fatal, ◌>>=◌, ◌>>◌, pure, zoom, or_fail, modify}
use e2e.Disk.{Host, join, mkdir_all, write_file, mode_644, mode_755, make_container_writable}
use e2e.Accounts.{
  Account, account, Fault, no_operator_key, no_operator_jwt, unmade, unwritten, late_grant, unread,
  unopened, Operators, Provision, grant_claims, jwt_file, make_key, on_disk, provision_accounts,
}

-- `ComposeProvision`, without `Dir`.
pub record ComposeProvision (W : Type 0) : Type 0 where
  pub base : Provision W
  pub broker_config_written : Bool

-- What was provisioned, without the latch.
unfoldable pub on_base :
    {W A : Type 0} → Run Fault (Provision W) A → Run Fault (ComposeProvision W) A
unfolding zoom
on_base m = zoom (λ p. p.base) (λ base p. record p { base = base }) m

-- `ComposeProvision.Account`
unfoldable pub provisioned_account : {W : Type 0} → Text → Run Fault (ComposeProvision W) Account
unfolding on_base account
provisioned_account name = on_base (account name)

-- `for _, a := range p.accounts`, over the names in the order of the range.
unfoldable pub ranged : {V : Type 0} → List Text → Map V → List V
ranged [] m = []
ranged (name ∷ order) m =
    let rest = ranged order m in elim (lookup name m) [ none ↦ rest | some v ↦ v ∷ rest ]

-- `&ComposeProvision{…}`
unfoldable pub fresh : {W : Type 0} → ComposeProvision W → ComposeProvision W
fresh p = record { base = record p.base { accounts = [] }; broker_config_written = false }

unfoldable pub nats_conf : Text → Text
nats_conf dir = join (join dir (lit "nats")) (lit "nats-server.conf")

module _ (is_print : ℕ → Bool) where
  -- One line of `resolver_preload`.
  unfoldable pub preload_line : Text → Text → Text
  preload_line public_key raw =
      concat (lit "  " ∷ public_key ∷ lit ": " ∷ quote is_print (trim_space raw) ∷ lit "\n" ∷ [])

  -- The loop over the accounts, which reads each JWT: the text, or the first file that cannot be
  -- read.
  unfoldable pub preload : Map Text → List Account → Outcome Text Text
  preload jwts [] = done []
  preload jwts (a ∷ accounts) = elim (lookup (jwt_file a.public_key) jwts) [
    | none ↦ fatal a.name
    | some raw ↦ elim (preload jwts accounts) [
      | fatal name ↦ fatal name
      | done text ↦ done (preload_line a.public_key raw ++ text)
    ]
  ]

  -- The text of nats-server.conf.
  unfoldable pub broker_config : Map Text → List Account → Outcome Text Text
  broker_config jwts accounts = elim (preload jwts accounts) [
    | fatal name ↦ fatal name
    | done text ↦ done (
        concat (
          lit "port: 4222\nhttp: 8222\n"
          ∷ lit "operator: /etc/nats/operator.jwt\n"
          ∷ lit "resolver: MEMORY\nresolver_preload: {\n"
          ∷ text
          ∷ lit "}\n"
          ∷ []))
  ]

module _ (ops : Operators) (host : Host) (dir : Text) where
  -- The artifacts of the trust root: the operator's seed, which is returned, and its JWT.
  unfoldable pub provision_trust : Run Fault (Provision ops.World) Text
  provision_trust = do
    (seed, public_key) ← make_key ops.create_operator no_operator_key
    on_disk unmade (mkdir_all host (join dir (lit "jwts")) mode_755)
    on_disk unmade (mkdir_all host (join dir (lit "nats")) mode_755)
    on_disk unwritten (write_file host (join dir (lit "operator.seed")) seed mode_644)
    operator_jwt ← or_fail (ops.encode_operator public_key (lit "provin-e2e") seed) no_operator_jwt
    on_disk unwritten
        (write_file host (join (join dir (lit "nats")) (lit "operator.jwt")) operator_jwt mode_644)
    pure seed

  -- `ProvisionCompose`
  unfoldable pub provision_compose : List Text → Run Fault (ComposeProvision ops.World) (Unit {0})
  provision_compose names = do
    seed ← on_base provision_trust
    modify fresh
    on_base (provision_accounts ops host mode_644 dir seed names)

  -- `ComposeProvision.Grant`
  unfoldable pub grant : Text → Text → Text → Run Fault (ComposeProvision ops.World) (Unit {0})
  grant exporter importer subject p =
      if p.broker_config_written
      then (fatal (late_grant exporter importer), p)
      else (on_base (grant_claims ops exporter importer subject) >> pure tt) p

  -- `ComposeProvision.WriteNodeConfig`
  unfoldable pub write_node_config : Text → Text → Run Fault (ComposeProvision ops.World) (Unit {0})
  write_node_config node cfg = do
    let conf_dir = join (join dir node) (lit "config")
    on_base (on_disk unmade (mkdir_all host conf_dir mode_755))
    on_base
        (on_disk unwritten (write_file host (join conf_dir (lit "application.conf")) cfg mode_644))

  -- The JWT directory and its files, in the order of a walk.
  unfoldable pub jwt_tree : ops.World → List Text
  jwt_tree world =
      join dir (lit "jwts") ∷ map (join (join dir (lit "jwts"))) (keys (ops.jwts world))

  -- The text that `WriteBrokerConfig` has built.
  unfoldable pub render_broker : (ℕ → Bool) → List Text → Run Fault (Provision ops.World) Text
  render_broker is_print order p =
      (blame unread (broker_config is_print (ops.jwts p.world) (ranged order p.accounts)), p)

  -- `ComposeProvision.WriteBrokerConfig`. `order` is the order in which the runtime ranges over the
  -- accounts.
  unfoldable pub write_broker_config :
      (ℕ → Bool) → List Text → Run Fault (ComposeProvision ops.World) (Unit {0})
  write_broker_config is_print order = do
    modify (λ p. record p { broker_config_written = true })
    text ← on_base (render_broker is_print order)
    on_base (on_disk unwritten (write_file host (nats_conf dir) text mode_644))
    on_base (λ p. on_disk unopened (make_container_writable host (jwt_tree p.world)) p)
