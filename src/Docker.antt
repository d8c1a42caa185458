-- ===== src/Docker.antt =====
-- internal/harness/compose.go: the compose commands and the cleanup that they register.
pub mod Project
pub mod Commands
pub mod Teardown
use e2e.Base.{
  ℕ, zero, suc, ◌+◌, Bool, Option, none, some, List, [], ◌∷◌, ◌++◌, Text, lit, length, base_name,
  if◌then◌else◌,
}
use e2e.Base.Numbers.{show_nat}
use e2e.Config.Quote.{hex2}
use e2e.Disk.{join}
use e2e.Run.{Run, done, fatal, ◌>>=◌, ◌>>◌, pure, fail}

-- `Compose`
pub record Compose : Type 0 where
  pub project : Text
  pub file : Text
  pub dir : Text

-- A command of docker: its arguments, its working directory and the variables that are appended to
-- the environment.
pub record Command : Type 0 where
  pub args : List Text
  pub dir : Text
  pub env : List Text

-- What `CombinedOutput` gives: whether there is no error, the error's text, and the output.
pub record Answer : Type 0 where
  pub ok : Bool
  pub error : Text
  pub output : Text

-- The commands run so far, the projects whose teardown is registered, the last one first, and the
-- lines of the test's log.
pub record Docker : Type 0 where
  pub commands : List Command
  pub cleanups : List Compose
  pub logged : List Text

-- The calls of `t.Fatalf`: what was asked for, the error and the output, and the containers' logs.
pub data DockerFault : Type 0 where
  up_failed : Text → Text → Text → DockerFault
  service_failed : Text → Text → Text → Text → DockerFault
  logs_failed : Text → Text → Text → DockerFault

-- `hex.EncodeToString`
unfoldable pub hex_text : List ℕ → Text
hex_text [] = []
hex_text (b ∷ bytes) = hex2 b ++ hex_text bytes

unfoldable pub first_bytes : ℕ → List ℕ → List ℕ
first_bytes zero bytes = []
first_bytes (suc n) [] = []
first_bytes (suc n) (b ∷ bytes) = b ∷ first_bytes n bytes

-- The name of a scenario's project. `sum256` is `sha256.Sum256`.
unfoldable pub project_name : (Text → List ℕ) → Text → Text
project_name sum256 dir =
    lit "e2e-" ++ (base_name dir ++ (lit "-" ++ hex_text (first_bytes 4 (sum256 dir))))

unfoldable pub compose_of : (Text → List ℕ) → Text → Compose
compose_of sum256 dir = record {
  project = project_name sum256 dir;
  file = join dir (lit "docker-compose.yml");
  dir = dir;
}

-- `exec.Command("docker", "compose", "-p", c.Project, "-f", c.File, …)`
unfoldable pub compose_command : Compose → List Text → List Text → Command
compose_command c rest env = record {
  args = lit "compose" ∷ lit "-p" ∷ c.project ∷ lit "-f" ∷ c.file ∷ rest;
  dir = c.dir;
  env = env;
}

unfoldable pub down_command : Compose → Command
down_command c = compose_command c (lit "down" ∷ lit "-v" ∷ lit "--remove-orphans" ∷ []) []

-- The user's ids, where the system has them.
unfoldable pub user_env : Option (ℕ × ℕ) → List Text
user_env none = []
user_env (some (uid, gid)) =
    (lit "E2E_UID=" ++ show_nat uid) ∷ (lit "E2E_GID=" ++ show_nat gid) ∷ []

unfoldable pub up_command : Option (ℕ × ℕ) → Compose → Command
unfolding user_env
up_command ids c = compose_command c (lit "up" ∷ lit "-d" ∷ []) (user_env ids)

unfoldable pub tail_command : Compose → Command
tail_command c = compose_command c (lit "logs" ∷ lit "--no-color" ∷ lit "--tail" ∷ lit "50" ∷ []) []

-- The command of `Logs`, whose output `SinkLines` reads.
unfoldable pub logs_command : Compose → Text → Command
logs_command c service =
    compose_command c (lit "logs" ∷ lit "--no-color" ∷ lit "--no-log-prefix" ∷ service ∷ []) []

-- The command of `Port`.
unfoldable pub port_command : Compose → Text → ℕ → Command
port_command c service container_port =
    compose_command c (lit "port" ∷ service ∷ show_nat container_port ∷ []) []

-- `answer` is what each command gives, by the number of commands before it.
module _ (answer : ℕ → Answer) where
  unfoldable pub run_command : Command → Run DockerFault Docker Answer
  run_command cmd d =
      (done (answer (length d.commands)), record d { commands = d.commands ++ (cmd ∷ []) })

  -- `logf`, if the command failed.
  unfoldable pub log_failure : Answer → Run DockerFault Docker (Unit {0})
  log_failure a d = if a.ok then (done tt, d) else (
    done tt,
    record d {
      logged = d.logged ++ ((lit "compose down: " ++ (a.error ++ (lit "\n" ++ a.output))) ∷ []);
    },
  )

  -- `down(t.Logf)`
  unfoldable pub down : Compose → Run DockerFault Docker (Unit {0})
  down c = run_command (down_command c) >>= log_failure

  -- `t.Cleanup(func() { down(t.Logf) })`
  unfoldable pub register_down : Compose → Run DockerFault Docker (Unit {0})
  register_down c d = (done tt, record d { cleanups = c ∷ d.cleanups })

  -- The containers' logs, or why they could not be read.
  unfoldable pub container_logs : Compose → Run DockerFault Docker Text
  container_logs c = do
    a ← run_command (tail_command c)
    pure (if a.ok then a.output else lit "(could not read container logs: " ++ (a.error ++ lit ")"))

  -- The end of `ComposeUp`. After a failure the containers' logs are read.
  unfoldable pub up_result : Compose → Answer → Run DockerFault Docker Compose
  up_result c a d =
      if a.ok
      then (done c, d)
      else (container_logs c >>= λ text. fail (up_failed a.error a.output text)) d

  -- `ComposeUp`
  unfoldable pub compose_up :
      (Text → List ℕ) → Option (ℕ × ℕ) → Text → Run DockerFault Docker Compose
  compose_up sum256 ids scenario_dir = do
    let c = compose_of sum256 scenario_dir
    down c
    register_down c
    a ← run_command (up_command ids c)
    up_result c a

  -- The end of a test: what was registered runs, the last one first.
  unfoldable pub clean_up : List Compose → Run DockerFault Docker (Unit {0})
  clean_up [] = pure tt
  clean_up (c ∷ cleanups) = down c >> clean_up cleanups

  unfoldable pub end_test : Run DockerFault Docker (Unit {0})
  unfolding clean_up
  end_test d = clean_up d.cleanups d

  -- `verb` of a service, and the failure of it.
  unfoldable pub on_service : Text → Compose → Text → Run DockerFault Docker (Unit {0})
  on_service verb c service = do
    a ← run_command (compose_command c (verb ∷ service ∷ []) [])
    λ d. if a.ok then (done tt, d) else (fatal (service_failed verb service a.error a.output), d)

  -- `Compose.RestartService`
  unfoldable pub restart_service : Compose → Text → Run DockerFault Docker (Unit {0})
  unfolding on_service
  restart_service c service = on_service (lit "restart") c service

  -- `Compose.StopService`
  unfoldable pub stop_service : Compose → Text → Run DockerFault Docker (Unit {0})
  unfolding on_service
  stop_service c service = on_service (lit "stop") c service

  -- `Compose.StartService`
  unfoldable pub start_service : Compose → Text → Run DockerFault Docker (Unit {0})
  unfolding on_service
  start_service c service = on_service (lit "start") c service

  -- `Compose.Logs`
  unfoldable pub logs : Compose → Text → Run DockerFault Docker Text
  logs c service = do
    a ← run_command (logs_command c service)
    λ d. if a.ok then (done a.output, d) else (fatal (logs_failed service a.error a.output), d)
