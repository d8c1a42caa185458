-- ===== src/Bootstrap.antt =====
-- internal/harness/bootstrap.go: the requests that `BootstrapExternal` sends to the registry.
pub mod Requests
use e2e.Base.{Bool, Option, List, [], ◌∷◌, ◌++◌, Text, if◌then◌else◌}
use e2e.Base.Maps.{Map, lookup}
use e2e.Run.{Run, done, fatal, ◌>>=◌, ◌>>◌, pure, or_fail}

-- `ExternalKeys`
pub record ExternalKeys : Type 0 where
  pub auth_public_key : Text
  pub signing_public_key : Text

-- The requests of the DID service, with their delegations and keys.
pub data Request : Type 0 where
  register_owner : Text → Request
  issue_pipeline : Text → Text → ExternalKeys → Request
  issue_process : Text → Text → ExternalKeys → Request

-- The calls of `t.Fatalf`.
pub data BootstrapFault : Type 0 where
  no_document : BootstrapFault
  no_delegation : Text → BootstrapFault
  no_keys : Text → BootstrapFault
  refused : Request → BootstrapFault

-- The owner's signed document and delegations, which packages did, vc and delegation of provin.oss
-- make with the owner's key, and which requests the registry accepts.
pub record Registry : Type 0 where
  pub owner_document : Option Text
  pub build_delegation : Text → Option Text
  pub accepts : Request → Bool

-- A call of the client. The state is what was sent.
unfoldable pub send : Registry → Request → Run BootstrapFault (List Request) (Unit {0})
send registry request sent =
    (if registry.accepts request then done tt else fatal (refused request), sent ++ (request ∷ []))

module _ (registry : Registry) (external : Map ExternalKeys)
    (issue : Text → Text → ExternalKeys → Request) where
  -- The body of the two loops: `issue` is the request of its loop.
  unfoldable pub issue_one : Text → Run BootstrapFault (List Request) (Unit {0})
  issue_one subject = do
    delegation ← or_fail (registry.build_delegation subject) (no_delegation subject)
    ext ← or_fail (lookup subject external) (no_keys subject)
    send registry (issue subject delegation ext)

  unfoldable pub issue_all : List Text → Run BootstrapFault (List Request) (Unit {0})
  issue_all [] = pure tt
  issue_all (subject ∷ subjects) = issue_one subject >> issue_all subjects

-- `BootstrapExternal`
unfoldable pub bootstrap_external :
    Registry
    → Map ExternalKeys
    → List Text
    → List Text
    → Run BootstrapFault (List Request) (Unit {0})
bootstrap_external registry external pipelines processes = do
  document ← or_fail registry.owner_document no_document
  send registry (register_owner document)
  issue_all registry external issue_pipeline pipelines
  issue_all registry external issue_process processes
