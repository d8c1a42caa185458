-- ===== src/Tests/Subprocesses.antt =====
-- A start of a single node as processes, and its theorem at a concrete input.
use e2e.Base.{true, false, none, some, [], ◌∷◌, ◌++◌, lit}
use e2e.Base.Maps.{keys}
use e2e.Run.{Outcome, done, fatal}
use e2e.Accounts.{account}
use e2e.Config.{Parsers}
use e2e.Waits.{replied}
use e2e.Env.{SingleNodeSpec, EnvFault, Services}
use e2e.Env.Subprocesses.{World, Machine, Served, pipeline_dir, free_port}
use e2e.Env.Subprocesses.Start.{start_single_node_process}
use e2e.Tests.Operators.{host, operators, broker}
use e2e.Tests.Keyrings.{stores, empty}
use e2e.Tests.Documents.{docs}
use e2e.Tests.Lifecycles.{system}

abbrev pub spec : SingleNodeSpec
spec = record {
  account = lit "acme";
  registry_id = lit "r";
  node_did = lit "p";
  pipeline_dids = lit "p" ∷ [];
  process_dids = lit "q" ∷ [];
  loops = λ base. lit "loop " ++ base;
  tunables = [];
  chain_tunables = [];
  ingress_subjects = lit "raw" ∷ [];
}

abbrev pub services : Services
services = record { delegate = λ owner subject. some subject; accepts = λ base request. true }

abbrev pub parsers : Parsers
parsers = record { parse_url = λ _. none; is_loopback = λ _. false; is_print = λ _. true }

abbrev pub machine : Machine
machine = record {
  tools = record {
    getwd = some (lit "/r/s");
    has_go_mod = λ dir. true;
    test_binary = lit "/t";
    can_make = λ _. true;
    go_build = λ _ _. none;
  };
  host = host;
  system = system;
  free_port = λ n. some n;
  stub = λ _. record { answer = replied 200 none; took = 1 };
  subscriptions = λ _ subject _. record { answer = some (subject ∷ []); took = 1 };
  heeds = λ _. true;
  parsers = parsers;
  work_dir = lit "/w";
  owner_dir = lit "/k";
}

abbrev pub World0 : Type 0
World0 = World operators.World broker.State stores.Store

abbrev pub before : World0
before = record {
  builds = record {
    binaries = record { ran = false; value = ([], []); error = none };
    cli = record { ran = false; value = []; error = none };
    commands = [];
  };
  ports = 0;
  stubs = [];
  nats = record {
    provision = record {
      world = record { made = 0; jwts = [] };
      disk = record { files = []; modes = [] };
      accounts = [];
    };
    broker = record { stored = []; live = [] };
    shutdowns = 0;
  };
  keys = empty;
  events = [];
  sent = [];
}

abbrev pub value_or : {E A : Type 0} → A → Outcome E A → A
value_or a (done b) = b
value_or a (fatal _) = a

abbrev pub nothing : Served
nothing = record {
  env = record { node_base = []; pipeline_base = []; nats_url = []; acct_seed = [] };
  boot_spec = record {
    name = [];
    network_bin = [];
    network_listen_addr = [];
    network_dir = [];
    network_config = [];
    pipeline_bin = [];
    pipeline_listen_addr = [];
    pipeline_dir = [];
    pipeline_config = [];
  };
  node = record {
    network = record { name = []; has_process = false; is_done = false };
    pipeline = record { name = []; has_process = false; is_done = false };
  };
}

abbrev run : Outcome EnvFault Served × World0
run = start_single_node_process machine operators broker stores docs services spec before

abbrev served : Served
served = value_or nothing run.0
