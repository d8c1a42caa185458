-- ===== src/Builds/Memo.antt =====
-- internal/harness/node.go: what a once keeps for the later calls.
use e2e.Base.{
  ◌≡◌, refl, ap, ap₂, sym, ◌∙◌, arith, inl, inr, true, false, Option, none, some, List, [], ◌∷◌,
  ◌++◌, append_assoc, Text, lit, if_false, base_name, Option-cases,
}
use e2e.Run.{Run, Outcome, done, fatal, zoom}
use e2e.Run.Inversion.{bind-done, pure-done}
use e2e.Disk.{join}
use e2e.Builds.{
  Toolchain, RootFault, BuildFault, rootless, unbuilt, Once, Builds, report, settle, memo, make_dir,
  build, compile_binaries, build_binaries, repo_root,
}

-- What a second call returns: the first one's result. After a `t.Fatal` inside of the once there is
-- neither a result nor an error, and the variables are as they were.
abbrev pub again : {A : Type 0} → A → Outcome BuildFault A → Outcome BuildFault A
again unset (done a) = done a
again unset (fatal (rootless _)) = done unset
again unset (fatal (unbuilt e)) = fatal (unbuilt e)

report_settled :
    {A : Type 0} (r : Outcome Text A) (o : Once A)
    → o.error ≡ none
    → report (settle r o) ≡ again o.value (report (settle r o))
unfolding report settle
report_settled (done a) o clean = rw (clean) refl
report_settled (fatal e) o clean = refl

settled-ran : {A : Type 0} (r : Outcome Text A) (o : Once A) → (settle r o).ran ≡ true
unfolding settle
settled-ran (done a) o = refl
settled-ran (fatal e) o = refl

module _ {A : Type 0} (root : Option (Outcome RootFault Text))
    (compile : Text → Run Text (List (Text × Text)) A) where
  memo_ran :
      (o : Once A) (cmds : List (Text × Text))
      → o.ran ≡ true
      → memo root compile (o, cmds) ≡ (report o, (o, cmds))
  unfolding memo
  memo_ran o cmds ran = rw (ran) refl

-- A first run whose root is found, and the second one.
memo_twice :
    {A : Type 0} (dir : Text) (compile : Text → Run Text (List (Text × Text)) A) (o : Once A)
    (cmds : List (Text × Text)) (first : Outcome BuildFault A × (Once A × List (Text × Text)))
    → o.error ≡ none
    → (
      report (settle (compile dir cmds).0 o),
      (settle (compile dir cmds).0 o, (compile dir cmds).1),
    )
      ≡ first
    → memo (some (done dir)) compile first.1 ≡ (again o.value first.0, first.1)
memo_twice dir compile o cmds first clean e =
    let o' = settle (compile dir cmds).0 o in
    let cmds' = (compile dir cmds).1 in
    rw (← e) (
      memo_ran (some (done dir)) compile o' cmds' (settled-ran (compile dir cmds).0 o)
      ∙ ap (λ r. (r, (o', cmds'))) (report_settled (compile dir cmds).0 o clean))

memo-again :
    {A : Type 0} (root : Option (Outcome RootFault Text))
    (compile : Text → Run Text (List (Text × Text)) A) (o : Once A) (cmds : List (Text × Text))
    → o.ran ≡ false
    → o.error ≡ none
    → memo root compile (memo root compile (o, cmds)).1
      ≡ (again o.value (memo root compile (o, cmds)).0, (memo root compile (o, cmds)).1)
unfolding memo report
memo-again none compile o cmds fresh clean = rw (fresh, clean) refl
memo-again (some (fatal fault)) compile o cmds fresh clean = rw (fresh, clean) refl
memo-again (some (done dir)) compile o cmds fresh clean =
    memo_twice dir compile o cmds (memo (some (done dir)) compile (o, cmds)) clean (
      sym (
        if_false o.ran (report o, (o, cmds))
          (
            report (settle (compile dir cmds).0 o),
            (settle (compile dir cmds).0 o, (compile dir cmds).1),
          )
          fresh))

report_clean :
    {A : Type 0} (b : A) (o : Once A) → o.error ≡ none → report (settle (done b) o) ≡ done b
unfolding report settle
report_clean b o clean = rw (clean) refl

report-done :
    {A : Type 0} (r : Outcome Text A) (o : Once A) (a : A)
    → o.error ≡ none
    → report (settle r o) ≡ done a
    → r ≡ done a
unfolding report settle
report-done (done b) o a clean e = cc (sym (report_clean b o clean) ∙ e)
report-done (fatal fault) o a clean e = absurd (ground (arith, e))

-- A first run that returned: the function returned the same.
memo-done :
    {A : Type 0} (root : Option (Outcome RootFault Text))
    (compile : Text → Run Text (List (Text × Text)) A) (o : Once A) (cmds : List (Text × Text))
    (a : A)
    → o.ran ≡ false
    → o.error ≡ none
    → (memo root compile (o, cmds)).0 ≡ done a
    → (dir : Text) × (compile dir cmds ≡ (done a, (memo root compile (o, cmds)).1.1))
unfolding memo
memo-done none compile o cmds a fresh clean e = absurd (ground (arith, e, fresh))
memo-done (some (fatal fault)) compile o cmds a fresh clean e = absurd (ground (arith, e, fresh))
memo-done (some (done dir)) compile o cmds a fresh clean e =
    let r = (compile dir cmds).0 in
    let ran =
      if_false {A = Outcome BuildFault _ × (Once _ × List (Text × Text))} o.ran
        (report o, (o, cmds)) (report (settle r o), (settle r o, (compile dir cmds).1)) fresh in
    let returned = report-done r o a clean (sym (ap (λ x. x.0) ran) ∙ e) in
    (dir, ap₂ (λ x y. (x, y)) returned (sym (ap (λ x. x.1.1) ran)))

module _ (tools : Toolchain) where
  make_dir-done :
      (dir : Text) (cmds cmds' : List (Text × Text))
      → make_dir tools dir cmds ≡ (done tt, cmds')
      → cmds' ≡ cmds
  unfolding make_dir
  make_dir-done dir cmds cmds' e = sym (ap (λ r. r.1) e)

  build-done :
      (out pkg : Text) (cmds cmds' : List (Text × Text))
      → build tools out pkg cmds ≡ (done tt, cmds')
      → (tools.go_build out pkg ≡ none) × (cmds' ≡ cmds ++ ((out, pkg) ∷ []))
  unfolding build
  build-done out pkg cmds cmds' e = elim (Option-cases (tools.go_build out pkg)) [
    | inl built ↦ (built, sym (ap (λ r. r.1) e))
    | inr (fault, failed) ↦ absurd (ground (arith, e, failed))
  ]

  -- Both builds have succeeded, one after the other.
  abbrev pub AreBuilt : Text × Text → List (Text × Text) → List (Text × Text) → Type 0
  AreBuilt bins cmds cmds' =
      (tools.go_build bins.0 (lit "./cmd/network") ≡ none)
      × (tools.go_build bins.1 (lit "./cmd/pipeline") ≡ none)
      × (cmds' ≡ cmds ++ ((bins.0, lit "./cmd/network") ∷ (bins.1, lit "./cmd/pipeline") ∷ []))

  compile_binaries-AreBuilt :
      (root : Text) (cmds cmds' : List (Text × Text)) (bins : Text × Text)
      → compile_binaries tools root cmds ≡ (done bins, cmds')
      → AreBuilt bins cmds cmds'
  unfolding compile_binaries
  compile_binaries-AreBuilt root cmds cmds' bins e =
      let suffix = base_name tools.test_binary in
      let net = join (join root (lit ".tmp")) (lit "network-" ++ suffix) in
      let pipe = join (join root (lit ".tmp")) (lit "pipeline-" ++ suffix) in
      let (_, c1, m1, e1) =
        bind-done (make_dir tools (join root (lit ".tmp"))) _ cmds bins cmds' e in
      let (_, c2, m2, e2) = bind-done (build tools net (lit "./cmd/network")) _ c1 bins cmds' e1 in
      let (_, c3, m3, e3) =
        bind-done (build tools pipe (lit "./cmd/pipeline")) _ c2 bins cmds' e2 in
      let (bins_is, end) = pure-done (net, pipe) bins c3 cmds' e3 in
      let h1 = make_dir-done (join root (lit ".tmp")) cmds c1 m1 in
      let (b2, h2) = build-done net (lit "./cmd/network") c1 c2 m2 in
      let (b3, h3) = build-done pipe (lit "./cmd/pipeline") c2 c3 m3 in
      rw (← bins_is) (b2, b3, simp (end, h3, h2, h1, append_assoc))

  -- A first `BuildBinaries` that returns has built both binaries, each once. Whatever its outcome, a
  -- second one runs no build and ends the same way, except after a `repoRoot` that ended the test:
  -- then the second one returns the variables as they were before the first, that is, empty paths.
  pub build_binaries_twice :
      (b : Builds)
      → b.binaries.ran ≡ false
      → b.binaries.error ≡ none
      → (build_binaries tools (build_binaries tools b).1
          ≡ (again b.binaries.value (build_binaries tools b).0, (build_binaries tools b).1))
        × ((bins : Text × Text)
            → (build_binaries tools b).0 ≡ done bins
            → AreBuilt bins b.commands (build_binaries tools b).1.commands)
  unfolding build_binaries zoom
  build_binaries_twice b fresh clean =
      let again_is =
        memo-again (repo_root tools) (compile_binaries tools) b.binaries b.commands fresh clean in
      (
        ap (λ r. (r.0, record b { binaries = r.1.0; commands = r.1.1 })) again_is,
        λ bins e.
            let (root, compiled) =
              memo-done (repo_root tools) (compile_binaries tools) b.binaries b.commands bins fresh
                clean e in
            compile_binaries-AreBuilt root b.commands (build_binaries tools b).1.commands bins
              compiled,
      )
