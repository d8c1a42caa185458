-- ===== src/Compose/Calls.antt =====
-- internal/harness/compose.go: what its calls leave, and where its files are.
use e2e.Base.{◌+◌, ◌≡◌, ◌≢◌, refl, ap, ◌∙◌, arith, Text, lit, ◌++◌, length, length-append, text_eq}
use e2e.Run.{Run, done}
use e2e.Run.Inversion.{zoom-done}
use e2e.Disk.{Disk, join}
use e2e.Accounts.{Fault, Provision, on_disk}
use e2e.Accounts.Calls.{on_disk-done}
use e2e.Compose.{ComposeProvision, on_base, nats_conf}

-- An action on what was provisioned that returned left the latch.
pub on_base-done :
    {W A : Type 0} (m : Run Fault (Provision W) A) (p p' : ComposeProvision W) (a : A)
    → on_base m p ≡ (done a, p')
    → (base : Provision W) × (m p.base ≡ (done a, base)) × (p' ≡ record p { base = base })
unfolding on_base
on_base-done m p p' a e = zoom-done (λ p. p.base) (λ base p. record p { base = base }) m p a p' e

-- An action on the disk that returned left all else.
pub on_base_disk-done :
    {W : Type 0} (fault : Text → Fault) (m : Run Text Disk (Unit {0})) (p p' : ComposeProvision W)
    → on_base (on_disk fault m) p ≡ (done tt, p')
    → (d : Disk) × (m p.base.disk ≡ (done tt, d))
      × (p' ≡ record p { base = record p.base { disk = d } })
on_base_disk-done fault m p p' e =
    let (base, ran, p'_is) = on_base-done (on_disk fault m) p p' tt e in
    let (d, written, base_is) = on_disk-done fault m p.base base ran in
    (d, written, p'_is ∙ ap (λ b. record p { base = b }) base_is)

length-join : (path name : Text) → length (join path name) ≡ length path + 1 + length name
unfolding join lit
length-join path name = omega (arith, length-append path (lit "/" ++ name))

conf_lengths :
    (length (lit "nats") ≡ 4)
    × (length (lit "nats-server.conf") ≡ 16)
    × (length (lit "config") ≡ 6)
    × (length (lit "application.conf") ≡ 16)
unfolding lit
conf_lengths = (refl, refl, refl, refl)

pub conf_elsewhere :
    (dir node : Text)
    → nats_conf dir ≢ join (join (join dir node) (lit "config")) (lit "application.conf")
unfolding nats_conf
conf_elsewhere dir node e = omega (
  arith,
  ap length e,
  conf_lengths,
  length-join dir (lit "nats"),
  length-join (join dir (lit "nats")) (lit "nats-server.conf"),
  length-join dir node,
  length-join (join dir node) (lit "config"),
  length-join (join (join dir node) (lit "config")) (lit "application.conf"),
)
