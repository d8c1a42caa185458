-- ===== src/Tests/Provisions.antt =====
-- Runs of the two provisionings, and their theorems at a concrete input.
use e2e.Base.{◌≡◌, refl, some, inl, inr, List, [], ◌∷◌, Text, lit, text_eq, text_dec, ℕ_discrete}
use e2e.Base.Maps.{lookup, insert, keys}
use e2e.Base.Strings.{cut_suffix}
use e2e.Run.{done, zoom, ◌>>=◌}
use e2e.Disk.{join, mkdir_all, write_file, create_mode}
use e2e.Accounts.{
  Account, jwt_file, account, operate, make_key, on_disk, register, grant_claims, provision_account,
  provision_accounts,
}
use e2e.Nats.{
  Nats, on_provision, resolver_dir, read_jwt, store_jwt, bridge_file, bridge_entries, bridge,
  find_live, push, refresh_loaded, grant, start_nats,
}
use e2e.Nats.Started.{IsConnectable, start_nats-IsConnectable}
use e2e.Nats.Synced.{IsFresh, IsBridged, grant_synced}
use e2e.Tests.Operators.{host, World, State, operators, operators_IsLawful, broker, broker_IsLawful}

abbrev dir : Text
dir = lit "/d"

abbrev names : List Text
names = lit "ingress" ∷ lit "node" ∷ []

abbrev nothing : Nats World State
nothing = record {
  provision = record {
    world = record { made = 0; jwts = [] };
    disk = record { files = []; modes = [] };
    accounts = [];
  };
  broker = record { stored = []; live = [] };
  shutdowns = 0;
}

abbrev started : Nats World State
started = (start_nats operators broker host dir names nothing).1

starts :
    start_nats operators broker host dir names nothing
    ≡ (done (lit "nats://127.0.0.1:4222"), started)
unfolding start_nats on_provision zoom make_key on_disk mkdir_all write_file provision_accounts
    provision_account operate register bridge bridge_entries bridge_file read_jwt store_jwt ◌>>=◌
    cut_suffix lookup insert keys create_mode join lit jwt_file resolver_dir text_eq text_dec
    ℕ_discrete
starts = refl

start_nats-IsConnectable_example : IsConnectable operators broker host dir (lit "node") started
start_nats-IsConnectable_example =
    start_nats-IsConnectable operators broker host dir operators_IsLawful broker_IsLawful names
      nothing started (lit "nats://127.0.0.1:4222") starts (lit "node") (inr (inl refl))

-- The exporter has connected: the broker has loaded its bare claims.
abbrev connected : Nats World State
connected = record started { broker = record started.broker { live = (lit "A", lit "bare") ∷ [] } }

abbrev granted : Nats World State
granted = (grant operators broker host dir (lit "ingress") (lit "node") (lit "s") connected).1

grants :
    grant operators broker host dir (lit "ingress") (lit "node") (lit "s") connected
    ≡ (done tt, granted)
unfolding start_nats on_provision zoom make_key on_disk mkdir_all write_file provision_accounts
    provision_account operate register bridge bridge_entries bridge_file read_jwt store_jwt ◌>>=◌
    cut_suffix lookup insert keys create_mode join lit jwt_file resolver_dir grant grant_claims
    account refresh_loaded find_live push text_eq text_dec ℕ_discrete
grants = refl

-- The push reaches the loaded account.
pushed : lookup (lit "A") granted.broker.live ≡ some (lit "export s")
unfolding start_nats on_provision zoom make_key on_disk mkdir_all write_file provision_accounts
    provision_account operate register bridge bridge_entries bridge_file read_jwt store_jwt ◌>>=◌
    cut_suffix lookup insert keys create_mode join lit jwt_file resolver_dir grant grant_claims
    account refresh_loaded find_live push text_eq text_dec ℕ_discrete
pushed = refl

grant_synced_example :
    IsBridged operators broker host dir granted
    × ((exp : Account) × (imp : Account) × (lookup (lit "ingress") connected.provision.accounts
          ≡ some exp)
        × (lookup (lit "node") connected.provision.accounts ≡ some imp)
        × IsFresh operators broker host dir exp.public_key granted
        × IsFresh operators broker host dir imp.public_key granted)
grant_synced_example =
    grant_synced operators broker host dir broker_IsLawful (lit "ingress") (lit "node") (lit "s")
      connected granted grants
