-- ===== src/Tests.antt =====
-- Runs of the model, and each theorem at a concrete input.
mod Emissions
mod Configs
mod WaitLoops
mod Sinks
mod Decisions
mod Operators
mod Provisions
mod Composed
mod Bootstraps
mod Lifecycles
mod Keyrings
mod Documents
mod Stacks
mod Subprocesses
mod Containers
mod Toolchains
mod Outputs
mod Runtimes
mod Registers
mod Restarts
mod Resumed
