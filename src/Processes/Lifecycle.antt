-- ===== src/Processes/Lifecycle.antt =====
-- internal/harness/node.go and internal/harness/separated.go: what `Stop` leaves.
use e2e.Base.{
  ◌≡◌, refl, arith, ◌⊎◌, inl, inr, Bool, true, false, Bool-cases, List, [], ◌∷◌, ◌++◌, Text, Any,
  ◌↔◌, if◌then◌else◌,
}
use e2e.Processes.{Event, interrupted, killed, exited, Node, SeparatedNode, stop, separated_stop}

-- No process, or one that has exited.
abbrev pub IsStopped : Node → Type 0
IsStopped n = (n.has_process ≡ false) ⊎ (n.is_done ≡ true)

abbrev pub IsRunning : Node → Type 0
IsRunning n = (n.has_process ≡ true) × (n.is_done ≡ false)

-- What happens to a running process that is stopped.
abbrev shutdown : Bool → Text → List Event
shutdown heeded name =
    if heeded
    then interrupted name ∷ exited name ∷ []
    else interrupted name ∷ killed name ∷ exited name ∷ []

shutdown_ends :
    (heeded : Bool) (name : Text)
    → (first : List Event) × (shutdown heeded name ≡ first ++ (exited name ∷ []))
      × (Any (λ e. e ≡ killed name) first ↔ (heeded ≡ false))
shutdown_ends true name = (
  interrupted name ∷ [],
  refl,
  (
    λ h. elim h [ inl e ↦ absurd (ground (arith, e)) | inr never ↦ absurd never ],
    λ e. absurd (ground (arith, e)),
  ),
)
shutdown_ends false name =
    (interrupted name ∷ killed name ∷ [], refl, (λ h. refl, λ e. inr (inl refl)))

shutdown_begins :
    (heeded : Bool) (name : Text)
    → (second : List Event) × (shutdown heeded name ≡ interrupted name ∷ second)
shutdown_begins true name = (exited name ∷ [], refl)
shutdown_begins false name = (killed name ∷ exited name ∷ [], refl)

module _ (heeds : Text → Bool) where
  stop_stopped : (n : Node) → IsStopped n → stop heeds n ≡ (n, [])
  unfolding stop
  stop_stopped n (inl none) = rw (none, stop) refl
  stop_stopped n (inr over) = ground (arith, over)

  stop_running :
      (n : Node)
      → IsRunning n
      → stop heeds n ≡ (record n { is_done = true }, shutdown (heeds n.name) n.name)
  unfolding stop
  stop_running n (there, alive) = rw (there, alive, stop) refl

  cases_of_node : (n : Node) → IsStopped n ⊎ IsRunning n
  cases_of_node n = elim (Bool-cases n.has_process) [
    | inr none ↦ inl (inl none)
    | inl there ↦ elim (Bool-cases n.is_done) [
      | inl over ↦ inl (inr over)
      | inr alive ↦ inr (there, alive)
    ]
  ]

  stop-IsStopped : (n : Node) → IsStopped (stop heeds n).0
  stop-IsStopped n = elim (cases_of_node n) [
    | inl stopped ↦ rw (stop_stopped n stopped) stopped
    | inr running ↦ rw (stop_running n running) (inr refl)
  ]

  -- After `SeparatedNode.Stop` neither process runs, and to stop the node again does nothing.
  pub separated_stop-IsStopped :
      (s : SeparatedNode)
      → IsStopped (separated_stop heeds s).0.network
        × IsStopped (separated_stop heeds s).0.pipeline
        × (separated_stop heeds (separated_stop heeds s).0 ≡ ((separated_stop heeds s).0, []))
  unfolding separated_stop
  separated_stop-IsStopped s =
      let network = stop-IsStopped s.network in
      let pipeline = stop-IsStopped s.pipeline in
      (
        network,
        pipeline,
        rw
            (
              stop_stopped (stop heeds s.pipeline).0 pipeline,
              stop_stopped (stop heeds s.network).0 network,
            )
            refl,
      )

  -- Of two running processes the pipeline's has exited before the network's is interrupted, and the
  -- pipeline's process is killed exactly if it does not heed the interrupt.
  pub separated_stop_order :
      (s : SeparatedNode)
      → IsRunning s.pipeline
      → IsRunning s.network
      → (first : List Event) × (second : List Event) × ((separated_stop heeds s).1
          ≡ (first ++ (exited s.pipeline.name ∷ [])) ++ (interrupted s.network.name ∷ second))
        × (Any (λ e. e ≡ killed s.pipeline.name) first ↔ (heeds s.pipeline.name ≡ false))
  unfolding separated_stop
  separated_stop_order s running running1 =
      let (first, ends, kills) = shutdown_ends (heeds s.pipeline.name) s.pipeline.name in
      let (second, begins) = shutdown_begins (heeds s.network.name) s.network.name in
      (
        first,
        second,
        rw (stop_running s.pipeline running, stop_running s.network running1, ends, begins) refl,
        kills,
      )
