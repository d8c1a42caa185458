-- ===== src/Docker/Teardown.antt =====
-- internal/harness/compose.go: every `ComposeUp` is torn down, whatever its outcome.
use e2e.Base.{
  ℕ, ◌≡◌, refl, arith, ap, ap₂, sym, ◌∙◌, ◌⊎◌, inl, inr, true, false, Bool-cases, Option, List, [],
  ◌∷◌, ◌++◌, append_assoc, map, Text, length, if_false,
}
use e2e.Run.{Outcome, done, fatal, ◌>>=◌, fail}
use e2e.Run.Inversion.{bind-run, bind-done}
use e2e.Docker.Commands.{down-Ran, container_logs-Ran, end_test-commands}
use e2e.Docker.{
  Compose, Command, Answer, Docker, DockerFault, up_failed, compose_of, down_command, up_command,
  tail_command, run_command, down, register_down, container_logs, up_result, compose_up, end_test,
}

module _ (answer : ℕ → Answer) where
  -- How `ComposeUp` ends, by what `up` answered, and the commands that have run when the test is over.
  abbrev pub UpEnds :
      Option (ℕ × ℕ) → Compose → Docker → Answer → Outcome DockerFault Compose × Docker → Type 0
  UpEnds ids c d a r =
      ((a.ok ≡ true)
        × (r.0 ≡ done c)
        × ((end_test answer r.1).1.commands
            ≡ d.commands ++ (down_command c ∷ up_command ids c ∷ down_command c ∷ [])))
      ⊎ ((a.ok ≡ false)
          × ((text : Text) × (r.0 ≡ fatal (up_failed a.error a.output text)))
          × ((end_test answer r.1).1.commands
              ≡ d.commands
                ++ (down_command c ∷ up_command ids c ∷ tail_command c ∷ down_command c ∷ [])))

  -- The end of `ComposeUp`, after the commands `cmds` and with the teardown of `c` registered.
  up_result-ends :
      (c : Compose) (a : Answer) (d : Docker) (cmds : List Command)
      → d.commands ≡ cmds
      → d.cleanups ≡ c ∷ []
      → ((a.ok ≡ true)
          × ((up_result answer c a d).0 ≡ done c)
          × ((end_test answer (up_result answer c a d).1).1.commands
              ≡ cmds ++ (down_command c ∷ [])))
        ⊎ ((a.ok ≡ false)
            × ((text : Text) × ((up_result answer c a d).0
                  ≡ fatal (up_failed a.error a.output text)))
            × ((end_test answer (up_result answer c a d).1).1.commands
                ≡ cmds ++ (tail_command c ∷ down_command c ∷ [])))
  unfolding up_result
  up_result-ends c a d cmds are one = elim (Bool-cases a.ok) [
    | inl fine ↦
        let ends : up_result answer c a d ≡ (done c, d) = rw (fine, up_result) refl in
        inl (
          fine,
          ap (λ r. r.0) ends,
          ap (λ r. (end_test answer r.1).1.commands) ends
              ∙ (end_test-commands answer d ∙ ap₂ (λ x y. x ++ map down_command y) are one),
        )
    | inr bad ↦
        let ran = container_logs-Ran answer c d in
        let ends : up_result answer c a d
            ≡ (fatal (up_failed a.error a.output ran.value), ran.after) =
          rw (bad, up_result)
            (bind-run (container_logs answer c) (λ text. fail (up_failed a.error a.output text)) d
              ran.value ran.after ran.runs) in
        inr (
          bad,
          (ran.value, ap (λ r. r.0) ends),
          ap (λ r. (end_test answer r.1).1.commands) ends
              ∙ (end_test-commands answer ran.after
                  ∙ (ap₂ (λ x y. x ++ map down_command y)
                        (ran.commands_are ∙ ap (λ x. x ++ (tail_command c ∷ [])) are)
                        (ran.cleanups_are ∙ one)
                      ∙ append_assoc cmds (tail_command c ∷ []) (down_command c ∷ []))),
        )
  ]

  UpEnds-eq :
      (ids : Option (ℕ × ℕ)) (c : Compose) (d : Docker) (a b : Answer)
      (r r' : Outcome DockerFault Compose × Docker)
      → a ≡ b
      → r ≡ r'
      → UpEnds ids c d a r
      → UpEnds ids c d b r'
  UpEnds-eq ids c d a b r r' e e' h = rw (← e, ← e') h

  -- `ComposeUp` in a test that has no other project: a stack that an earlier run has left is taken
  -- down first; it returns exactly if the `up` that follows succeeds, and fails with the containers'
  -- logs otherwise; and when the test is over, in either case, the last command has taken the stack
  -- down.
  pub compose_up_torn_down :
      (sum256 : Text → List ℕ) (ids : Option (ℕ × ℕ)) (dir : Text) (d : Docker)
      → d.cleanups ≡ []
      → UpEnds ids
          (compose_of sum256 dir)
          d
          (answer (length (d.commands ++ (down_command (compose_of sum256 dir) ∷ []))))
          (compose_up answer sum256 ids dir d)
  unfolding compose_up register_down run_command
  compose_up_torn_down sum256 ids dir d none_yet =
      let c = compose_of sum256 dir in
      let first = down-Ran answer c d in
      let t = record first.after { cleanups = c ∷ first.after.cleanups } in
      let a = answer (length t.commands) in
      let u = record t { commands = t.commands ++ (up_command ids c ∷ []) } in
      let ends : compose_up answer sum256 ids dir d ≡ up_result answer c a u =
        bind-run (down answer c) _ d tt first.after first.runs
        ∙ (bind-run (register_down answer c) _ first.after tt t refl
            ∙ bind-run (run_command answer (up_command ids c)) (up_result answer c) t a u refl) in
      UpEnds-eq ids c d a (answer (length (d.commands ++ (down_command c ∷ []))))
        (up_result answer c a u) (compose_up answer sum256 ids dir d)
        (ap (λ l. answer (length l)) first.commands_are) (sym ends)
        (elim (up_result-ends c a u (d.commands ++ (down_command c ∷ up_command ids c ∷ []))
          (ap (λ l. l ++ (up_command ids c ∷ [])) first.commands_are
            ∙ append_assoc d.commands (down_command c ∷ []) (up_command ids c ∷ []))
          (ap (λ l. c ∷ l) (first.cleanups_are ∙ none_yet))) [
            | inl (fine, outcome, cmds) ↦ inl (
              fine,
              outcome,
              cmds
                  ∙ append_assoc d.commands (down_command c ∷ up_command ids c ∷ [])
                      (down_command c ∷ []),
            )
            | inr (bad, outcome, cmds) ↦ inr (
              bad,
              outcome,
              cmds
                  ∙ append_assoc d.commands (down_command c ∷ up_command ids c ∷ [])
                      (tail_command c ∷ down_command c ∷ []),
            )
          ])

  up_result-done :
      (c : Compose) (a : Answer) (d : Docker) (c' : Compose) (d' : Docker)
      → up_result answer c a d ≡ (done c', d')
      → (c' ≡ c) × (d' ≡ d)
  unfolding up_result
  up_result-done c a d c' d' e = elim (Bool-cases a.ok) [
    | inl fine ↦
        let returned : ◌≡◌ {A = Outcome DockerFault Compose × Docker} (done c, d) (done c', d') =
          ground (arith, e, fine) in
        (cc (ap (λ r. r.0) (sym returned)), ap (λ r. r.1) (sym returned))
    | inr bad ↦
        let logs = container_logs answer c >>= λ text. fail (up_failed a.error a.output text) in
        let failed : logs d ≡ (done c', d') = sym (if_false a.ok (done c, d) (logs d) bad) ∙ e in
        let rest = bind-done (container_logs answer c) _ d c' d' failed in
        absurd (ground (arith, rest.3))
  ]

  -- A `ComposeUp` that returned the project has registered its teardown.
  pub compose_up-done :
      (sum256 : Text → List ℕ) (ids : Option (ℕ × ℕ)) (dir : Text) (d d' : Docker) (c : Compose)
      → compose_up answer sum256 ids dir d ≡ (done c, d')
      → (c ≡ compose_of sum256 dir) × (d'.cleanups ≡ compose_of sum256 dir ∷ d.cleanups)
  unfolding compose_up register_down run_command
  compose_up-done sum256 ids dir d d' c e =
      let p = compose_of sum256 dir in
      let (_, t, first, e1) = bind-done (down answer p) _ d c d' e in
      let (_, t1, registered, e2) = bind-done (register_down answer p) _ t c d' e1 in
      let (a, t2, ran, e3) = bind-done (run_command answer (up_command ids p)) _ t1 c d' e2 in
      let (c_is, d'_is) = up_result-done p a t2 c d' e3 in
      let lowered = down-Ran answer p d in
      let t_is : t ≡ lowered.after = ap (λ r. r.1) (sym first ∙ lowered.runs) in
      (
        c_is,
        ap (λ x. x.cleanups) d'_is
            ∙ (ap (λ r. r.1.cleanups) (sym ran)
                ∙ (ap (λ r. r.1.cleanups) (sym registered)
                    ∙ ap (λ l. p ∷ l) (ap (λ x. x.cleanups) t_is ∙ lowered.cleanups_are))),
      )
