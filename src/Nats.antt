-- ===== src/Nats.antt =====
-- internal/harness/nats.go: the broker in operator mode, `StartNATS`, `Grant`, `bridge` and
-- `refreshLoaded`.
pub mod Bridged
pub mod Synced
pub mod Started
use e2e.Base.{
  ℕ, suc, Bool, true, false, Option, none, some, List, [], ◌∷◌, Text, lit, if◌then◌else◌,
}
use e2e.Base.Maps.{Map, lookup, keys}
use e2e.Base.Strings.{cut_suffix}
use e2e.Run.{Run, Outcome, done, fatal, ◌>>=◌, ◌>>◌, pure, zoom, or_fail, gets, modify}
use e2e.Disk.{Host, join, mkdir_all, write_file, mode_600, mode_755}
use e2e.Accounts.{
  Fault, no_operator_key, unmade, unwritten, unread, undecoded, unstored, Operators, Provision,
  grant_claims, jwt_file, make_key, on_disk, provision_accounts,
}

-- nats-server and jwt/v2, which are not part of this repository: the account resolver, which fetches
-- what was stored, and the server, which keeps the claims of the accounts that it has loaded.
pub record Brokers : Type 1 where
  pub State : Type 0
  pub Live : Type 0
  pub Claims : Type 0
  pub new_resolver : State
  pub run_server : Text → State → State
  pub client_url : State → Text
  pub store : Text → Text → State → Bool × State
  pub stored : Text → State → Option Text
  pub lookup_account : Text → State → Option Live × State
  pub decode : Text → Option Claims
  pub update_claims : Live → Claims → State → State
  pub live_claims : Text → State → Option Claims

-- `NATS`, with the number of servers whose `Shutdown` is registered as a cleanup.
pub record Nats (W B : Type 0) : Type 0 where
  pub provision : Provision W
  pub broker : B
  pub shutdowns : ℕ

unfoldable pub on_provision : {W B A : Type 0} → Run Fault (Provision W) A → Run Fault (Nats W B) A
unfolding zoom
on_provision m = zoom (λ n. n.provision) (λ p n. record n { provision = p }) m

module _ (ops : Operators) (brokers : Brokers) (host : Host) (dir : Text) where
  unfoldable pub resolver_dir : Text
  resolver_dir = join dir (lit "jwts")

  -- `os.ReadFile` of a file in the JWT directory.
  unfoldable pub read_jwt : Text → Run Fault (Nats ops.World brokers.State) Text
  read_jwt name n =
      if host.can_read (join resolver_dir name)
      then or_fail (lookup name (ops.jwts n.provision.world)) (unread name) n
      else (fatal (unread name), n)

  -- `n.resolver.Store`
  unfoldable pub store_jwt : Text → Text → Run Fault (Nats ops.World brokers.State) (Unit {0})
  store_jwt public_key jwt n =
      let (ok, broker) = brokers.store public_key jwt n.broker in
      (if ok then done tt else fatal (unstored public_key), record n { broker = broker })

  -- The body of the loop of `bridge`, with the file's name without its suffix if it has it.
  unfoldable pub bridge_file :
      Text → Option Text → Run Fault (Nats ops.World brokers.State) (Unit {0})
  bridge_file name none = pure tt
  bridge_file name (some public_key) = do jwt ← read_jwt name; store_jwt public_key jwt

  unfoldable pub bridge_entries : List Text → Run Fault (Nats ops.World brokers.State) (Unit {0})
  bridge_entries [] = pure tt
  bridge_entries (name ∷ names) =
      bridge_file name (cut_suffix name (lit ".jwt")) >> bridge_entries names

  -- `NATS.bridge`
  unfoldable pub bridge : Run Fault (Nats ops.World brokers.State) (Unit {0})
  bridge n =
      if host.can_read resolver_dir
      then bridge_entries (keys (ops.jwts n.provision.world)) n
      else (fatal (unread resolver_dir), n)

  -- `n.server.LookupAccount`
  unfoldable pub find_live : Text → Run Fault (Nats ops.World brokers.State) (Option brokers.Live)
  find_live public_key n =
      let (acc, broker) = brokers.lookup_account public_key n.broker in
      (done acc, record n { broker = broker })

  -- What `refreshLoaded` does with the account that it found.
  unfoldable pub push :
      Text → Option brokers.Live → Run Fault (Nats ops.World brokers.State) (Unit {0})
  push public_key none = pure tt
  push public_key (some acc) = do
    raw ← read_jwt (jwt_file public_key)
    claims ← or_fail (brokers.decode raw) (undecoded public_key)
    modify (λ n. record n { broker = brokers.update_claims acc claims n.broker })

  -- `NATS.refreshLoaded`
  unfoldable pub refresh_loaded : Text → Run Fault (Nats ops.World brokers.State) (Unit {0})
  refresh_loaded public_key = find_live public_key >>= push public_key

  -- `NATS.Grant`
  unfoldable pub grant : Text → Text → Text → Run Fault (Nats ops.World brokers.State) (Unit {0})
  grant exporter importer subject = do
    (exp, imp) ← on_provision (grant_claims ops exporter importer subject)
    bridge
    refresh_loaded exp.public_key
    refresh_loaded imp.public_key

  -- `StartNATS`, which returns the broker's client URL.
  unfoldable pub start_nats : List Text → Run Fault (Nats ops.World brokers.State) Text
  start_nats names = do
    (op_seed, op_pub) ← on_provision (make_key ops.create_operator no_operator_key)
    on_provision (on_disk unmade (mkdir_all host resolver_dir mode_755))
    on_provision
        (on_disk unwritten (write_file host (join dir (lit "operator.seed")) op_seed mode_600))
    modify (λ n. record {
      provision = record n.provision { accounts = [] };
      broker = brokers.new_resolver;
      shutdowns = n.shutdowns;
    })
    on_provision (provision_accounts ops host mode_600 dir op_seed names)
    bridge
    modify (λ n. record n { broker = brokers.run_server op_pub n.broker })
    modify (λ n. record n { shutdowns = suc n.shutdowns })
    gets (λ n. brokers.client_url n.broker)
