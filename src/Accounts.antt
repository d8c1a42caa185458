-- ===== src/Accounts.antt =====
-- The NATS accounts that internal/harness/nats.go and internal/harness/compose.go provision alike,
-- and the two halves of a grant.
pub mod Calls
pub mod Published
pub mod Seeds
use e2e.Base.{Bool, Option, none, some, List, [], ◌∷◌, ◌++◌, ℕ, Text, lit, if◌then◌else◌}
use e2e.Base.Maps.{Map, lookup, insert}
use e2e.Run.{Run, Outcome, done, fatal, blame, ◌>>=◌, ◌>>◌, pure, or_fail}
use e2e.Disk.{Disk, Host, join, write_file}

-- nkeys and the account operator of provin.oss, which are not part of this repository. Their state is
-- the keys made, the claims that each operator holds, and the files of the JWT directory, by name. An
-- operator is told by its account's public key; a call says whether it succeeded. `remove_jwts` is what
-- a removal of that directory leaves.
pub record Operators : Type 1 where
  pub World : Type 0
  pub create_operator : World → Option (Text × Text) × World
  pub create_account : World → Option (Text × Text) × World
  pub encode_operator : Text → Text → Text → Option Text
  pub new_operator : Text → Text → World → Bool × World
  pub publish_claims : Text → World → Bool × World
  pub add_export : Text → Text → World → Bool × World
  pub add_import : Text → Text → Text → World → Bool × World
  pub jwts : World → Map Text
  pub remove_jwts : World → World

-- `NATSAccount`, whose operator is in the world.
pub record Account : Type 0 where
  pub name : Text
  pub seed_file : Text
  pub seed : Text
  pub public_key : Text

-- The calls of `t.Fatalf`.
pub data Fault : Type 0 where
  no_operator_key : Fault
  no_operator_jwt : Fault
  unmade : Text → Fault
  unwritten : Text → Fault
  no_account_key : Text → Fault
  no_operator : Text → Fault
  unpublished : Text → Fault
  unknown_account : Text → Fault
  late_grant : Text → Text → Fault
  export_failed : Text → Text → Fault
  import_failed : Text → Text → Fault
  unread : Text → Fault
  undecoded : Text → Fault
  unstored : Text → Fault
  unopened : Text → Fault

-- What a runtime has provisioned.
pub record Provision (W : Type 0) : Type 0 where
  pub world : W
  pub disk : Disk
  pub accounts : Map Account

-- The file in the JWT directory that holds an account's claims.
unfoldable pub jwt_file : Text → Text
jwt_file public_key = public_key ++ lit ".jwt"

module _ {W : Type 0} where
  -- `Account`: of `NATS` and of `ComposeProvision`.
  unfoldable pub account : Text → Run Fault (Provision W) Account
  account name p = or_fail (lookup name p.accounts) (unknown_account name) p

  -- A call of an operator that says whether it succeeded.
  unfoldable pub operate : (W → Bool × W) → Fault → Run Fault (Provision W) (Unit {0})
  operate call fault p =
      let (ok, world) = call p.world in
      (if ok then done tt else fatal fault, record p { world = world })

  -- A new key pair, its seed and its public key.
  unfoldable pub make_key :
      (W → Option (Text × Text) × W) → Fault → Run Fault (Provision W) (Text × Text)
  make_key create fault p =
      let (key, world) = create p.world in or_fail key fault (record p { world = world })

  -- An action on the disk, which fails with a path.
  unfoldable pub on_disk :
      (Text → Fault) → Run Text Disk (Unit {0}) → Run Fault (Provision W) (Unit {0})
  on_disk fault m p = let (r, d) = m p.disk in (blame fault r, record p { disk = d })

  -- `accounts[name] = …`
  unfoldable pub register : Account → Run Fault (Provision W) (Unit {0})
  register a p = (done tt, record p { accounts = insert a.name a p.accounts })

module _ (ops : Operators) where
  -- The half of `Grant` that the two runtimes share. It returns both accounts.
  unfoldable pub grant_claims :
      Text → Text → Text → Run Fault (Provision ops.World) (Account × Account)
  grant_claims exporter importer subject = do
    exp ← account exporter
    imp ← account importer
    operate (ops.add_export exp.public_key subject) (export_failed exporter subject)
    operate (ops.add_import imp.public_key exp.public_key subject) (import_failed importer subject)
    pure (exp, imp)

  module _ (host : Host) (mode : ℕ) (dir trust_seed : Text) where
    -- The body of the loop over the account names. `mode` is that of the seed files.
    unfoldable pub provision_account : Text → Run Fault (Provision ops.World) (Unit {0})
    provision_account name = do
      (seed, public_key) ← make_key ops.create_account (no_account_key name)
      let path = join dir (name ++ lit "-account.seed")
      on_disk unwritten (write_file host path seed mode)
      operate (ops.new_operator seed trust_seed) (no_operator name)
      operate (ops.publish_claims public_key) (unpublished name)
      register (record { name = name; seed_file = path; seed = seed; public_key = public_key })

    unfoldable pub provision_accounts : List Text → Run Fault (Provision ops.World) (Unit {0})
    provision_accounts [] = pure tt
    provision_accounts (name ∷ names) = provision_account name >> provision_accounts names
