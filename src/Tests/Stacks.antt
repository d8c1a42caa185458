-- ===== src/Tests/Stacks.antt =====
-- The theorems on compose stacks at a concrete input.
use e2e.Base.{
  ◌≡◌, refl, ◌↔◌, ℕ, ◌%◌, ◌++◌, some, true, List, [], ◌∷◌, Text, lit, length, base_name, arith,
}
use e2e.Docker.{Answer, Docker, project_name, first_bytes, compose_of, compose_up, down_command}
use e2e.Docker.Project.{IsDigest, project_name_iff}
use e2e.Docker.Teardown.{UpEnds, compose_up_torn_down}

abbrev zeros : List ℕ
zeros = 0 ∷ 0 ∷ 0 ∷ 0 ∷ 0 ∷ 0 ∷ 0 ∷ 0 ∷ 0 ∷ 0 ∷ 0 ∷ 0 ∷ 0 ∷ 0 ∷ 0 ∷ []

-- A digest of the length alone.
abbrev sum256 : Text → List ℕ
sum256 s = length s % 256 ∷ (zeros ++ (0 ∷ zeros))

sum256-IsDigest : IsDigest sum256
sum256-IsDigest = record { length_is = λ s. refl; bytes = λ s. omega arith }

project_name_iff_example : (project_name sum256 (lit "/a/x") ≡ project_name sum256 (lit "/b/x")) ↔ (
    (base_name (lit "/a/x") ≡ base_name (lit "/b/x"))
    × (first_bytes 4 (sum256 (lit "/a/x")) ≡ first_bytes 4 (sum256 (lit "/b/x"))))
project_name_iff_example = project_name_iff sum256 sum256-IsDigest (lit "/a/x") (lit "/b/x")

-- Every command succeeds.
abbrev answer : ℕ → Answer
answer _ = record { ok = true; error = []; output = [] }

abbrev quiet : Docker
quiet = record { commands = []; cleanups = []; logged = [] }

compose_up_torn_down_example :
    UpEnds answer
      (some (501, 20))
      (compose_of sum256 (lit "/a/x"))
      quiet
      (answer (length (quiet.commands ++ (down_command (compose_of sum256 (lit "/a/x")) ∷ []))))
      (compose_up answer sum256 (some (501, 20)) (lit "/a/x") quiet)
compose_up_torn_down_example =
    compose_up_torn_down answer sum256 (some (501, 20)) (lit "/a/x") quiet refl
