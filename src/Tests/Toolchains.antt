-- ===== src/Tests/Toolchains.antt =====
-- The builds at a concrete input.
use e2e.Base.{
  ◌≡◌, refl, ◌⊎◌, true, false, none, some, [], Text, lit, ◌==◌, text_eq, text_dec, ℕ_discrete,
}
use e2e.Run.{Outcome, done, fatal}
use e2e.Builds.{
  Toolchain, RootFault, no_cwd, no_root, Builds, climb, repo_root, build_binaries, has_slash,
  cut_last, parent_of,
}
use e2e.Builds.Memo.{again, AreBuilt, build_binaries_twice}
use e2e.Builds.Root.{Climbs, repo_root_ends}

-- A working directory two levels below the root.
abbrev tools : Toolchain
tools = record {
  getwd = some (lit "/r/s/t");
  has_go_mod = λ dir. dir == lit "/r";
  test_binary = lit "/x/t.test";
  can_make = λ _. true;
  go_build = λ _ _. none;
}

abbrev unbuilt_yet : Builds
unbuilt_yet = record {
  binaries = record { ran = false; value = ([], []); error = none };
  cli = record { ran = false; value = []; error = none };
  commands = [];
}

climbs : repo_root tools ≡ some (done (lit "/r"))
unfolding repo_root climb parent_of cut_last has_slash lit text_eq text_dec ℕ_discrete
climbs = refl

repo_root_ends_example :
    (r : Outcome RootFault Text) × (repo_root tools ≡ some r)
    × (((tools.getwd ≡ none) × (r ≡ fatal no_cwd))
        ⊎ ((dir : Text) × (tools.getwd ≡ some dir) × Climbs tools.has_go_mod dir r))
repo_root_ends_example = repo_root_ends tools

build_binaries_twice_example :
    (build_binaries tools (build_binaries tools unbuilt_yet).1
      ≡ (again ([], []) (build_binaries tools unbuilt_yet).0, (build_binaries tools unbuilt_yet).1))
    × ((bins : Text × Text)
        → (build_binaries tools unbuilt_yet).0 ≡ done bins
        → AreBuilt tools bins [] (build_binaries tools unbuilt_yet).1.commands)
build_binaries_twice_example = build_binaries_twice tools unbuilt_yet refl refl

-- Outside of the repository the first call ends the test, and the next one returns empty paths.
abbrev astray : Toolchain
astray = record tools { getwd = none }

after_a_fatal : (build_binaries astray (build_binaries astray unbuilt_yet).1).0 ≡ done ([], [])
unfolding build_binaries e2e.Run.zoom e2e.Builds.memo repo_root e2e.Builds.report
after_a_fatal = refl
