-- ===== src/Tests/Composed.antt =====
-- A run of the provisioning of a compose project, and its theorems at a concrete input.
use mathlib.Core.List.{Perm}
use mathlib.Core.List.Permᴰ
use e2e.Base.{
  ℕ, ◌≡◌, refl, Bool, true, false, List, [], ◌∷◌, Text, lit, ltb, text_eq, text_dec, ℕ_discrete,
  trim_space, trim_left, is_space,
}
use e2e.Base.Maps.{lookup, insert, keys}
use e2e.Base.Strings.{cut_suffix}
use e2e.Config.{concat}
use e2e.Config.Quote.{quote, escape, escape_rune, printable}
use e2e.Run.{done, zoom, ◌>>=◌}
use e2e.Disk.{
  Disk, join, mkdir_all, write_file, create_mode, chmod, open_entry, walk_dir,
  make_container_writable,
}
use e2e.Accounts.{
  jwt_file, account, operate, make_key, on_disk, register, grant_claims, provision_account,
  provision_accounts,
}
use e2e.Compose.{
  ComposeProvision, on_base, fresh, ranged, nats_conf, preload_line, preload, broker_config,
  provision_trust, provision_compose, grant, write_broker_config, jwt_tree, render_broker,
}
use e2e.Compose.Latch.{
  Reachable, provisioned, stepped, granted, rendered, IsCurrent, Reachable-IsCurrent,
}
use e2e.Tests.Operators.{host, World, operators}

abbrev dir : Text
dir = lit "/d"

abbrev names : List Text
names = lit "ingress" ∷ lit "node" ∷ []

abbrev ascii : ℕ → Bool
ascii c = ltb c 128

abbrev nothing : ComposeProvision World
nothing = record {
  base = record {
    world = record { made = 0; jwts = [] };
    disk = record { files = []; modes = [] };
    accounts = [];
  };
  broker_config_written = false;
}

abbrev ready : ComposeProvision World
ready = (provision_compose operators host dir names nothing).1

readies : provision_compose operators host dir names nothing ≡ (done tt, ready)
unfolding provision_compose provision_trust on_base fresh zoom make_key on_disk mkdir_all write_file
    provision_accounts provision_account operate register ◌>>=◌ lookup insert create_mode join lit
    jwt_file text_eq text_dec ℕ_discrete
readies = refl

abbrev linked : ComposeProvision World
linked = (grant operators host dir (lit "ingress") (lit "node") (lit "s") ready).1

links : grant operators host dir (lit "ingress") (lit "node") (lit "s") ready ≡ (done tt, linked)
unfolding provision_compose provision_trust on_base fresh zoom make_key on_disk mkdir_all write_file
    provision_accounts provision_account operate register ◌>>=◌ lookup insert create_mode join lit
    jwt_file grant grant_claims account text_eq text_dec ℕ_discrete
links = refl

abbrev written : ComposeProvision World
written = (write_broker_config operators host dir ascii names linked).1

writes : write_broker_config operators host dir ascii names linked ≡ (done tt, written)
unfolding provision_compose provision_trust on_base fresh zoom make_key on_disk mkdir_all write_file
    provision_accounts provision_account operate register ◌>>=◌ lookup insert create_mode join lit
    jwt_file grant grant_claims account text_eq text_dec ℕ_discrete write_broker_config
    render_broker broker_config preload preload_line ranged nats_conf jwt_tree keys
    make_container_writable walk_dir open_entry chmod concat quote escape escape_rune printable
    trim_space trim_left is_space cut_suffix
writes = refl

all_named : Perm (keys linked.base.accounts) names
unfolding provision_compose provision_trust on_base fresh zoom make_key on_disk mkdir_all write_file
    provision_accounts provision_account operate register ◌>>=◌ lookup insert create_mode join lit
    jwt_file grant grant_claims account text_eq text_dec ℕ_discrete keys
all_named = ∣ Permᴰ.refl _ ∣₁

written-Reachable : Reachable operators host dir ascii written
written-Reachable =
    stepped linked written
      (stepped ready linked (provisioned names nothing ready readies)
        (granted (lit "ingress") (lit "node") (lit "s") links))
      (rendered names all_named writes)

is_written : written.broker_config_written ≡ true
unfolding provision_compose provision_trust on_base fresh zoom make_key on_disk mkdir_all write_file
    provision_accounts provision_account operate register ◌>>=◌ lookup insert create_mode join lit
    jwt_file grant grant_claims account text_eq text_dec ℕ_discrete write_broker_config
    render_broker broker_config preload preload_line ranged nats_conf jwt_tree keys
    make_container_writable walk_dir open_entry chmod concat quote escape escape_rune printable
    trim_space trim_left is_space cut_suffix
is_written = refl

Reachable-IsCurrent_example : IsCurrent operators host dir ascii written.base
Reachable-IsCurrent_example =
    Reachable-IsCurrent operators host dir ascii written written-Reachable is_written

abbrev tree : List Text
tree = lit "/d/jwts" ∷ lit "/d/jwts/A.jwt" ∷ []

abbrev closed : Disk
closed = record { files = []; modes = [] }

abbrev opened : Disk
opened = (make_container_writable host tree closed).1

opens : make_container_writable host tree closed ≡ (done tt, opened)
unfolding make_container_writable walk_dir open_entry chmod ◌>>=◌ cut_suffix lit insert
opens = refl

-- An account that was not provisioned.
unknown :
    (e2e.Compose.provisioned_account (lit "nobody") (record {
      base = record { world = tt; disk = closed; accounts = [] };
      broker_config_written = false;
    })).0
    ≡ e2e.Run.fatal (e2e.Accounts.unknown_account (lit "nobody"))
unfolding e2e.Compose.provisioned_account e2e.Compose.on_base account lookup e2e.Run.zoom
unknown = refl
