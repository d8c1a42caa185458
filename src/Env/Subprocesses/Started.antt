-- ===== src/Env/Subprocesses/Started.antt =====
-- internal/harness/env.go: `startSingleNodeProcess` sets up all that the spec asks for.
use e2e.Nats.{Nats}
