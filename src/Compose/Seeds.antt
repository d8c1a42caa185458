-- ===== src/Compose/Seeds.antt =====
-- internal/harness/compose.go: what is written after the accounts leaves their seed files.
use e2e.Base.{
  ◌≡◌, ◌≢◌, refl, ap, sym, ◌∙◌, arith, ℕ, Bool, true, List, [], ◌∷◌, ◌++◌, append_assoc, Text, lit,
}
use e2e.Base.Maps.{lookup, lookup-insert_other}
use e2e.Run.{Run, done, modify, zoom}
use e2e.Run.Inversion.{bind-done}
use e2e.Disk.{
  Disk, Host, join, mkdir_all, write_file, walk_dir, make_container_writable, mode_644, mode_755,
  mode_666, mode_777,
}
use e2e.Disk.Modes.{walk_dir-bits}
use e2e.Docker.Project.{append_inj}
use e2e.Accounts.{
  Account, Fault, Operators, unmade, unwritten, unopened, on_disk, provision_accounts,
}
use e2e.Accounts.Calls.{write_file-done, mkdir_all-done}
use e2e.Accounts.Seeds.{IsSeeded, seed_path, provision_accounts-IsSeeded}
use e2e.Compose.{
  ComposeProvision, on_base, fresh, nats_conf, provision_trust, provision_compose,
  write_node_config, jwt_tree, render_broker, write_broker_config,
}
use e2e.Compose.Calls.{on_base-done, on_base_disk-done}

-- A name that ends in .seed is no name that ends in .conf.
seed_elsewhere : (dir name front : Text) → seed_path dir name ≢ front ++ lit ".conf"
unfolding join lit
seed_elsewhere dir name front e =
    let account = lit "/" ++ (name ++ lit "-account") in
    let split : seed_path dir name ≡ (dir ++ account) ++ lit ".seed" = sym (
      append_assoc dir account (lit ".seed")
      ∙ ap (λ r. dir ++ (lit "/" ++ r)) (append_assoc name (lit "-account") (lit ".seed"))) in
    let ends : lit ".seed" ≡ lit ".conf" =
      (append_inj (dir ++ account) front (lit ".seed") (lit ".conf") refl (sym split ∙ e)).1 in
    absurd (ground (arith, ends))

conf_path :
    (dir : Text) → join dir (lit "application.conf") ≡ (dir ++ lit "/application") ++ lit ".conf"
unfolding join lit
conf_path dir = sym (append_assoc dir (lit "/application") (lit ".conf"))

nats_path :
    (dir : Text) → nats_conf dir ≡ (join dir (lit "nats") ++ lit "/nats-server") ++ lit ".conf"
unfolding nats_conf join lit
nats_path dir = sym (append_assoc (join dir (lit "nats")) (lit "/nats-server") (lit ".conf"))

module _ {W : Type 0} (dir name : Text) (a : Account) where
  -- An action on the disk that leaves the seed file.
  disk-IsSeeded :
      (fault : Text → Fault) (m : Run Text Disk (Unit {0})) (p p' : ComposeProvision W)
      → ((d d' : Disk)
          → m d ≡ (done tt, d')
          → lookup (seed_path dir name) d'.files ≡ lookup (seed_path dir name) d.files)
      → on_base (on_disk fault m) p ≡ (done tt, p')
      → IsSeeded dir name a p.base
      → IsSeeded dir name a p'.base
  disk-IsSeeded fault m p p' keeps e (known, kept) =
      let (d, ran, p'_is) = on_base_disk-done fault m p p' e in
      (
        ap (λ q. lookup name q.base.accounts) p'_is ∙ known,
        ap (λ q. lookup (seed_path dir name) q.base.disk.files) p'_is
            ∙ (keeps p.base.disk d ran ∙ kept),
      )

  write-IsSeeded :
      (host : Host) (path content : Text) (p p' : ComposeProvision W)
      → path ≢ seed_path dir name
      → on_base (on_disk unwritten (write_file host path content mode_644)) p ≡ (done tt, p')
      → IsSeeded dir name a p.base
      → IsSeeded dir name a p'.base
  write-IsSeeded host path content p p' apart =
      disk-IsSeeded unwritten (write_file host path content mode_644) p p' (λ d d' e.
        ap (lookup (seed_path dir name)) (write_file-done host path content mode_644 d d' e)
        ∙ lookup-insert_other path (seed_path dir name) content d.files apart)

  pub walk-IsSeeded :
      (host : Host) (dir_mode file_mode : ℕ) (tree : List Text) (p p' : ComposeProvision W)
      → on_base (on_disk unopened (walk_dir host dir_mode file_mode tree)) p ≡ (done tt, p')
      → IsSeeded dir name a p.base
      → IsSeeded dir name a p'.base
  walk-IsSeeded host dir_mode file_mode tree p p' =
      disk-IsSeeded unopened (walk_dir host dir_mode file_mode tree) p p' (λ d d' e.
        ap (lookup (seed_path dir name)) (walk_dir-bits host dir_mode file_mode tree d d' e).0)

module _ (ops : Operators) (host : Host) (dir name : Text) (a : Account) where
  pub write_node_config-IsSeeded :
      (node cfg : Text) (p p' : ComposeProvision ops.World)
      → write_node_config ops host dir node cfg p ≡ (done tt, p')
      → IsSeeded dir name a p.base
      → IsSeeded dir name a p'.base
  unfolding write_node_config
  write_node_config-IsSeeded node cfg p p' e seeded =
      let conf_dir = join (join dir node) (lit "config") in
      let (_, p1, c1, e1) =
        bind-done (on_base (on_disk unmade (mkdir_all host conf_dir mode_755))) _ p tt p' e in
      let made =
        disk-IsSeeded dir name a unmade (mkdir_all host conf_dir mode_755) p p1
          (λ d d' e.
            ap (lookup (seed_path dir name)) (mkdir_all-done host conf_dir mode_755 d d' e))
          c1 seeded in
      write-IsSeeded dir name a host (join conf_dir (lit "application.conf")) cfg p1 p'
        (λ h. seed_elsewhere dir name (conf_dir ++ lit "/application") (sym h ∙ conf_path conf_dir))
        e1 made

  pub write_broker_config-IsSeeded :
      (is_print : ℕ → Bool) (order : List Text) (p p' : ComposeProvision ops.World)
      → write_broker_config ops host dir is_print order p ≡ (done tt, p')
      → IsSeeded dir name a p.base
      → IsSeeded dir name a p'.base
  unfolding write_broker_config render_broker on_base zoom make_container_writable
  write_broker_config-IsSeeded is_print order p p' e seeded =
      let (_, p1, c1, e1) =
        bind-done (modify (λ p. record p { broker_config_written = true })) _ p tt p' e in
      let (text, p2, c2, e2) =
        bind-done (on_base (render_broker ops host dir is_print order)) _ p1 tt p' e1 in
      let (_, p3, c3, e3) =
        bind-done (on_base (on_disk unwritten (write_file host (nats_conf dir) text mode_644))) _ p2
          tt p' e2 in
      let (base, rendered, p2_is) =
        on_base-done (render_broker ops host dir is_print order) p1 p2 text c2 in
      let same : p2.base ≡ p.base =
        ap (λ q. q.base) p2_is ∙ (ap (λ r. r.1) (sym rendered) ∙ ap (λ r. r.1.base) (sym c1)) in
      let written =
        write-IsSeeded dir name a host (nats_conf dir) text p2 p3
          (λ h.
            seed_elsewhere dir name (join dir (lit "nats") ++ lit "/nats-server")
              (sym h ∙ nats_path dir))
          c3 (rw same seeded) in
      walk-IsSeeded dir name a host mode_777 mode_666 (jwt_tree ops host dir p3.base.world) p3 p' e3
        written

-- `ProvisionCompose` of one account leaves it registered, with its seed in its file.
pub provision_compose-IsSeeded :
    (ops : Operators) (host : Host) (dir name : Text) (p p' : ComposeProvision ops.World)
    → provision_compose ops host dir (name ∷ []) p ≡ (done tt, p')
    → (a : Account) × IsSeeded dir name a p'.base
unfolding provision_compose
provision_compose-IsSeeded ops host dir name p p' e =
    let (seed, p1, c1, e1) = bind-done (on_base (provision_trust ops host dir)) _ p tt p' e in
    let (_, p2, c2, e2) = bind-done (modify fresh) _ p1 tt p' e1 in
    let (base, ran, p'_is) =
      on_base-done (provision_accounts ops host mode_644 dir seed (name ∷ [])) p2 p' tt e2 in
    let (a, seeded) =
      provision_accounts-IsSeeded ops host mode_644 dir seed name p2.base base ran in
    let base_is : p'.base ≡ base = ap (λ q. q.base) p'_is in
    (
      a,
      (
        ap (λ b. lookup name b.accounts) base_is ∙ seeded.0,
        ap (λ b. lookup (seed_path dir name) b.disk.files) base_is ∙ seeded.1,
      ),
    )
