-- ===== src/Builds.antt =====
-- internal/harness/node.go: the root of the repository and the builds, each once per test binary.
pub mod Root
pub mod Memo
use e2e.Base.{
  ℕ, zero, suc, ◌+◌, Bool, true, false, Option, none, some, List, [], ◌∷◌, ◌++◌, Text, lit, ◌==◌,
  ◌||◌, nat_eq, text_eq, length, base_name, if◌then◌else◌,
}
use e2e.Run.{Run, Outcome, done, fatal, ◌>>=◌, ◌>>◌, pure, zoom}
use e2e.Disk.{join}

unfoldable pub has_slash : Text → Bool
has_slash [] = false
has_slash (c ∷ s) = c == b'/' || has_slash s

-- The text before the last slash.
unfoldable pub cut_last : Text → Text
unfolding has_slash
cut_last [] = []
cut_last (c ∷ s) = let rest = cut_last s in if has_slash s then c ∷ rest else []

-- `filepath.Dir` of a path that is clean and begins with a slash.
unfoldable pub parent_of : Text → Text
unfolding cut_last
parent_of dir = elim (cut_last dir) [ [] ↦ lit "/" | c ∷ s ↦ c ∷ s ]

-- The working directory, which directories have a go.mod, `os.Args[0]`, whether the directory of the
-- outputs can be made, and the error of `go build -o`, if any, by the output and the package.
pub record Toolchain : Type 0 where
  pub getwd : Option Text
  pub has_go_mod : Text → Bool
  pub test_binary : Text
  pub can_make : Text → Bool
  pub go_build : Text → Text → Option Text

-- The calls of `t.Fatalf` in `repoRoot`.
pub data RootFault : Type 0 where
  no_cwd : RootFault
  no_root : RootFault

-- Those, and the calls of `t.Fatalf` after a build.
pub data BuildFault : Type 0 where
  rootless : RootFault → BuildFault
  unbuilt : Text → BuildFault

-- The loop of `repoRoot`. `none` means that the fuel ran out.
unfoldable pub climb : (Text → Bool) → ℕ → Text → Option (Outcome RootFault Text)
climb has_go_mod zero dir = none
climb has_go_mod (suc fuel) dir =
    let next = climb has_go_mod fuel (parent_of dir) in
    if has_go_mod dir
    then some (done dir)
    else (if parent_of dir == dir then some (fatal no_root) else next)

-- `repoRoot`. A parent is shorter, so two rounds more than the directory has characters are enough.
unfoldable pub repo_root : Toolchain → Option (Outcome RootFault Text)
unfolding climb
repo_root tools = elim tools.getwd [
  | none ↦ some (fatal no_cwd)
  | some dir ↦ climb tools.has_go_mod (length dir + 2) dir
]

-- A `sync.Once` with the package's variables that its function sets.
pub record Once {ℓ} (A : Type ℓ) : Type ℓ where
  pub ran : Bool
  pub value : A
  pub error : Option Text

-- The two onces, and the output and package of each `go build`.
pub record Builds : Type 0 where
  pub binaries : Once (Text × Text)
  pub cli : Once Text
  pub commands : List (Text × Text)

-- What is returned after the once: the variables, or the failure that they record.
unfoldable pub report : {A : Type 0} → Once A → Outcome BuildFault A
report o = elim o.error [ none ↦ done o.value | some e ↦ fatal (unbuilt e) ]

-- The variables after a run of the once's function.
unfoldable pub settle : {A : Type 0} → Outcome Text A → Once A → Once A
settle (done a) o = record o { ran = true; value = a }
settle (fatal e) o = record o { ran = true; error = some e }

-- `once.Do`, with a function that first looks for the root, and the return. `t.Fatal` inside of it
-- ends the test, and the once counts as run.
unfoldable pub memo :
    {A : Type 0}
    → Option (Outcome RootFault Text)
    → (Text → Run Text (List (Text × Text)) A)
    → Run BuildFault (Once A × List (Text × Text)) A
unfolding report settle
memo root compile (o, cmds) = if o.ran then (report o, (o, cmds)) else (elim root [
  | none ↦ (fatal (rootless no_root), (record o { ran = true }, cmds))
  | some (fatal fault) ↦ (fatal (rootless fault), (record o { ran = true }, cmds))
  | some (done dir) ↦
      let (r, cmds') = compile dir cmds in (report (settle r o), (settle r o, cmds'))
])

module _ (tools : Toolchain) where
  unfoldable pub make_dir : Text → Run Text (List (Text × Text)) (Unit {0})
  make_dir dir cmds = (if tools.can_make dir then done tt else fatal dir, cmds)

  -- `build`
  unfoldable pub build : Text → Text → Run Text (List (Text × Text)) (Unit {0})
  build out pkg cmds = (
    elim (tools.go_build out pkg) [ none ↦ done tt | some e ↦ fatal e ],
    cmds ++ ((out, pkg) ∷ []),
  )

  -- The function of `buildBinariesOnce`.
  unfoldable pub compile_binaries : Text → Run Text (List (Text × Text)) (Text × Text)
  compile_binaries root = do
    let suffix = base_name tools.test_binary
    let net_out = join (join root (lit ".tmp")) (lit "network-" ++ suffix)
    let pipe_out = join (join root (lit ".tmp")) (lit "pipeline-" ++ suffix)
    make_dir (join root (lit ".tmp"))
    build net_out (lit "./cmd/network")
    build pipe_out (lit "./cmd/pipeline")
    pure (net_out, pipe_out)

  -- The function of `cliOnce`.
  unfoldable pub compile_cli : Text → Run Text (List (Text × Text)) Text
  compile_cli root = do
    let out = join (join root (lit ".tmp")) (lit "provin-" ++ base_name tools.test_binary)
    make_dir (join root (lit ".tmp"))
    build out (lit "./cmd/provin")
    pure out

  -- `BuildBinaries`
  unfoldable pub build_binaries : Run BuildFault Builds (Text × Text)
  unfolding zoom memo repo_root compile_binaries
  build_binaries =
      zoom (λ b. (b.binaries, b.commands)) (λ t b. record b { binaries = t.0; commands = t.1 })
        (memo (repo_root tools) compile_binaries)

  -- `BuildProvinCLI`
  unfoldable pub build_provin_cli : Run BuildFault Builds Text
  unfolding zoom memo repo_root compile_cli
  build_provin_cli =
      zoom (λ b. (b.cli, b.commands)) (λ t b. record b { cli = t.0; commands = t.1 })
        (memo (repo_root tools) compile_cli)
