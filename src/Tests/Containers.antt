-- ===== src/Tests/Containers.antt =====
-- A start of a single node as containers, and its theorem at a concrete input.
use e2e.Base.{true, false, none, some, [], ◌∷◌, lit}
use e2e.Base.Maps.{keys}
use e2e.Run.{Outcome}
use e2e.Waits.{replied, port}
use e2e.Env.{EnvFault}
use e2e.Env.Containers.{World, Site, Contained}
use e2e.Env.Containers.Start.{start_single_node_compose}
use e2e.Tests.Operators.{host, operators}
use e2e.Tests.Keyrings.{stores, empty}
use e2e.Tests.Documents.{docs}
use e2e.Tests.Subprocesses.{spec, services, parsers, value_or}

-- Every command succeeds, every port is published, and every body names the subject.
abbrev pub site : Site
site = record {
  host = host;
  getwd = some (lit "/s");
  can_remove = λ _. true;
  answer = λ _. record { ok = true; error = []; output = [] };
  sum256 = λ _. [];
  ids = none;
  port = λ _ _ _ _. record { answer = some (lit "0.0.0.0:7"); took = 1 };
  get = λ _ _ _. record { answer = replied 200 (some (lit "\"raw\"")); took = 1 };
  parsers = parsers;
  key_tree = λ dir. dir ∷ [];
  order = lit "acme" ∷ [];
  owner_dir = lit "/k";
}

abbrev pub World0 : Type 0
World0 = World operators.World stores.Store

abbrev pub before : World0
before = record {
  provision = record {
    base = record {
      world = record { made = 0; jwts = [] };
      disk = record { files = (lit "/s/testdata/old", lit "x") ∷ []; modes = [] };
      accounts = [];
    };
    broker_config_written = false;
  };
  keys = empty;
  docker = record { commands = []; cleanups = []; logged = [] };
  queries = [];
  sent = [];
}

abbrev pub nothing : Contained
nothing = record {
  env = record { node_base = []; pipeline_base = []; nats_url = []; acct_seed = [] };
  compose = record { project = []; file = []; dir = [] };
  monitor = [];
}

abbrev run : Outcome EnvFault Contained × World0
run = start_single_node_compose site operators stores docs services spec before

abbrev node : Contained
node = value_or nothing run.0
