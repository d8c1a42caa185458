-- ===== src/Lib.antt =====
-- The end-to-end harness: what its helpers promise the scenarios that call them.
--
-- A scenario provisions a NATS trust root and accounts, renders the config of each node, boots the
-- nodes as processes or as a compose project, waits until they answer, drives traffic through them,
-- and reads back what they wrote: the records on their standard output and the emission log.
--
-- Files and what they model:
--   Base       shared helpers: text as lists of code points, association lists for Go's maps, sorting
--              of strings, searching in text. A range over a map visits its keys in an order that is
--              an argument wherever the code ranges over one.
--   Run        helpers that change a world and may end the test by `t.Fatalf`, and what a return tells
--              of them.
--   EmissionLog  internal/harness/emissionlog.go: `ReconcileEmissionLog`.
--   Config     internal/harness/config.go: `NodeConfig.Render` and its blocks; Config/Quote is what
--              `%q` writes, Config/Host what `net.JoinHostPort` writes.
--   Separated  internal/harness/separated.go: `SplitNodeConfig`.
--   Poll       the loop that every wait is: `WaitFor`, `waitHealthy`, `WaitForSubscriber`, ...
--   Waits      the waits of internal/harness/node.go, nats.go and compose.go, and `Compose.Port`.
--   Sink       `SinkLines` of internal/harness/node.go and of internal/harness/compose.go.
--   PdpStub    internal/pdpstub/pdpstub.go: `Handler`.
--   Disk       files and permission bits, and the walks of internal/harness/compose.go over them.
--   Accounts   the account provisioning and the half of `Grant` that internal/harness/nats.go and
--              internal/harness/compose.go share.
--   Nats       internal/harness/nats.go: `StartNATS`, `Grant`, `bridge`, `refreshLoaded`.
--   Compose    internal/harness/compose.go: `ProvisionCompose`, `Grant`, `WriteNodeConfig` and
--              `WriteBrokerConfig`, with every sequence of such calls as a step relation.
--   Keys       internal/harness/separated.go: `ProvisionPipelineKey`, `ProvisionExternalIdentity`, and
--              the loops of internal/harness/env.go over a node's DIDs.
--   Owners     internal/harness/bootstrap.go: `Owner`, `NewOwner`, `signedOwnerDoc`.
--   Bootstrap  internal/harness/bootstrap.go: `BootstrapExternal`.
--   Docker     internal/harness/compose.go: `ComposeUp`, the service commands and `Logs`, as the
--              sequence of the commands that run and of the cleanups that are registered.
--   Processes  internal/harness/node.go and internal/harness/separated.go: `StartSeparatedNode` and
--              `Stop`, with the events of both processes in one sequence, the registration of `Stop` as a
--              cleanup included; Processes/Written is what the config files hold.
--   Output     the log buffers of internal/harness/node.go and the readers of internal/harness/separated.go,
--              with every interleaving of writes and reads as a step relation.
--   Builds     internal/harness/node.go: `repoRoot`, `BuildBinaries` and `BuildProvinCLI`, with the
--              variables that a `sync.Once` guards.
--   Env        internal/harness/env.go: the spec and what both runtimes share; Env/Subprocesses is
--              `startSingleNodeProcess` and Env/Containers `startSingleNodeCompose`, each over one
--              world that has the states of the other parts; Env/Registered is the contract on a
--              node's identities in both. Env/Runtimes is `StartSingleNode`, which picks the runtime, over
--              the two worlds; Env/Unlisted and the two Order modules say what a start has done when it
--              has ended the test.
--   Findings   internal/harness/parity_test.go: `openComposeDeferrals`, which reads the register of
--              findings, and `TestComposeParity`.
--   Tests      witnesses and tests.
--
-- Bounds and fuel: a wait loop runs on fuel of one round more than its timeout has milliseconds. A
-- round sleeps for at least a millisecond, so the deadline comes first, which is Poll/Deadline. The
-- search for the root has two
-- rounds more than the directory has characters, and a parent is shorter, which is Builds/Root. Times
-- are natural numbers of milliseconds; no arithmetic of the code can overflow a machine integer. A
-- process that is killed exits.
--
-- Parameters, because their code is not in this repository or is an interface to the outside: the JSON
-- decoders, `url.Parse`, `netip.ParseAddr`, the tables of printable runes, what a request, a process
-- or a command answers in each round, what the file system lets the harness do, key generation, key
-- stores, the packages that build and sign DID documents, SHA-256, the operators that edit account
-- claims, and nats-server. Laws of the key stores, of the operators and of the server are hypotheses
-- of the theorems that need them; Tests/Keyrings and Tests/Operators satisfy them.
--
-- A world is the state at one moment: what is written concurrently by a process that the harness has
-- started is an answer of the environment, not a part of the world, except in Output. There a chunk of
-- output is a text: a character that is written in two chunks counts with the second. In
-- Env/Containers what a port or a request answers depends on the number of compose commands before it
-- that can change something, since a restart publishes other ports; the `port` commands of one wait are
-- recorded once, with the `logs` command of a wait that fails, as queries. In Env/Subprocesses the
-- broker's subscriptions depend on the number of events of the node processes before.
--
-- Not modelled: the command cmd/pdpstub around the handler, the goroutine in which `StartPDPStub`
-- serves it, and `Bearer`, which sets a header that no model of a request has; and the scenarios, which
-- drive binaries of another repository.
pub mod Base
pub mod Run
pub mod Disk
pub mod EmissionLog
pub mod Config
pub mod Separated
pub mod Poll
pub mod Sink
pub mod Waits
pub mod PdpStub
pub mod Accounts
pub mod Nats
pub mod Compose
pub mod Bootstrap
pub mod Processes
pub mod Env
pub mod Findings
pub mod Builds
pub mod Docker
pub mod Keys
pub mod Output
pub mod Owners
mod Tests
