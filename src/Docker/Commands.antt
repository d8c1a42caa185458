-- ===== src/Docker/Commands.antt =====
-- internal/harness/compose.go: which commands the steps of `ComposeUp` and of the cleanup run.
use e2e.Base.{
  ℕ, ◌≡◌, refl, ap, sym, ◌∙◌, inl, inr, Bool-cases, List, [], ◌∷◌, ◌++◌, append_assoc, append-nil,
  lit, map, length,
}
use e2e.Run.{Run, done, ◌>>=◌}
use e2e.Run.Inversion.{bind-run}
use e2e.Docker.{
  Compose, Command, Answer, Docker, DockerFault, down_command, tail_command, run_command,
  log_failure, down, container_logs, clean_up, end_test,
}

module _ (answer : ℕ → Answer) where
  -- A run that returned, with the commands that it ran; it left what was registered.
  pub record Ran {A : Type 0} (m : Run DockerFault Docker A) (cmds : List Command) (d : Docker)
      : Type 0 where
    pub value : A
    pub after : Docker
    pub runs : m d ≡ (done value, after)
    pub commands_are : after.commands ≡ d.commands ++ cmds
    pub cleanups_are : after.cleanups ≡ d.cleanups

  pub Ran-bind :
      {A B : Type 0} (m : Run DockerFault Docker A) (f : A → Run DockerFault Docker B)
      (cmds cmds' : List Command) (d : Docker)
      → Ran m cmds d
      → ((a : A) (d' : Docker) → Ran (f a) cmds' d')
      → Ran (m >>= f) (cmds ++ cmds') d
  Ran-bind m f cmds cmds' d first next =
      let second = next first.value first.after in
      record {
        value = second.value;
        after = second.after;
        runs = bind-run m f d first.value first.after first.runs ∙ second.runs;
        commands_are =
            second.commands_are
            ∙ (ap (λ l. l ++ cmds') first.commands_are ∙ append_assoc d.commands cmds cmds');
        cleanups_are = second.cleanups_are ∙ first.cleanups_are;
      }

  pub run_command-Ran : (cmd : Command) (d : Docker) → Ran (run_command answer cmd) (cmd ∷ []) d
  unfolding run_command
  run_command-Ran cmd d = record {
    value = answer (length d.commands);
    after = record d { commands = d.commands ++ (cmd ∷ []) };
    runs = refl;
    commands_are = refl;
    cleanups_are = refl;
  }

  pub log_failure-Ran : (a : Answer) (d : Docker) → Ran (log_failure answer a) [] d
  unfolding log_failure
  log_failure-Ran a d = elim (Bool-cases a.ok) [
    | inl fine ↦ record {
      value = tt;
      after = d;
      runs = rw (fine, log_failure) refl;
      commands_are = sym (append-nil d.commands);
      cleanups_are = refl;
    }
    | inr bad ↦ record {
      value = tt;
      after = record d {
        logged = d.logged ++ ((lit "compose down: " ++ (a.error ++ (lit "\n" ++ a.output))) ∷ []);
      };
      runs = rw (bad, log_failure) refl;
      commands_are = sym (append-nil d.commands);
      cleanups_are = refl;
    }
  ]

  pub down-Ran : (c : Compose) (d : Docker) → Ran (down answer c) (down_command c ∷ []) d
  unfolding down
  down-Ran c d =
      Ran-bind (run_command answer (down_command c)) (log_failure answer) (down_command c ∷ []) [] d
        (run_command-Ran (down_command c) d) log_failure-Ran

  pub container_logs-Ran :
      (c : Compose) (d : Docker) → Ran (container_logs answer c) (tail_command c ∷ []) d
  unfolding container_logs
  container_logs-Ran c d =
      Ran-bind (run_command answer (tail_command c)) _ (tail_command c ∷ []) [] d
        (run_command-Ran (tail_command c) d)
        (λ a d'. record {
          value = _;
          after = d';
          runs = refl;
          commands_are = sym (append-nil d'.commands);
          cleanups_are = refl;
        })

  pub clean_up-Ran :
      (cs : List Compose) (d : Docker) → Ran (clean_up answer cs) (map down_command cs) d
  unfolding clean_up
  clean_up-Ran [] d = record {
    value = tt;
    after = d;
    runs = refl;
    commands_are = sym (append-nil d.commands);
    cleanups_are = refl;
  }
  clean_up-Ran (c ∷ cs) d =
      Ran-bind (down answer c) (λ _. clean_up answer cs) (down_command c ∷ []) (map down_command cs)
        d (down-Ran c d) (λ _ d'. clean_up-Ran cs d')

  pub end_test-commands :
      (d : Docker) → (end_test answer d).1.commands ≡ d.commands ++ map down_command d.cleanups
  unfolding end_test
  end_test-commands d =
      let ran = clean_up-Ran d.cleanups d in ap (λ r. r.1.commands) ran.runs ∙ ran.commands_are
