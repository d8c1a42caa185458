-- ===== src/Compose/Latch.antt =====
-- internal/harness/compose.go: the broker's config against the JWTs that accounts hold.
use mathlib.Core.List.{Perm}
use e2e.Base.{
  ℕ, ◌≡◌, refl, ap, sym, ◌∙◌, arith, inl, inr, some, Bool, true, false, Bool-cases, List, Text, lit,
  text_eq,
}
use e2e.Base.Maps.{lookup-insert_same, lookup-insert_other, keys, lookup}
use e2e.Run.{done, ◌>>◌, pure, modify}
use e2e.Run.Inversion.{blame-done, bind-done}
use e2e.Disk.{Host, join, mkdir_all, write_file, mode_755, mode_644, make_container_writable}
use e2e.Disk.Modes.{make_container_writable-opens}
use e2e.Accounts.{unmade, unwritten, unread, unopened, Operators, Provision, on_disk, grant_claims}
use e2e.Accounts.Calls.{write_file-done, mkdir_all-done, on_disk-done}
use e2e.Compose.Calls.{on_base-done, on_base_disk-done, conf_elsewhere}
use e2e.Compose.{
  ComposeProvision, on_base, fresh, ranged, nats_conf, broker_config, provision_trust,
  provision_compose, grant, write_node_config, jwt_tree, render_broker, write_broker_config,
}

module _ (ops : Operators) (host : Host) (dir : Text) (is_print : ℕ → Bool) where
  -- One call of the harness that returned.
  pub data Step (p p' : ComposeProvision ops.World) : Type 0 where
    granted :
        (exporter importer subject : Text)
        → grant ops host dir exporter importer subject p ≡ (done tt, p')
        → Step p p'
    configured :
        (node cfg : Text) → write_node_config ops host dir node cfg p ≡ (done tt, p') → Step p p'
    rendered :
        (order : List Text)
        → Perm (keys p.base.accounts) order
        → write_broker_config ops host dir is_print order p ≡ (done tt, p')
        → Step p p'

  -- What a scenario can have after provisioning and any such calls.
  pub data Reachable : ComposeProvision ops.World → Type 0 where
    provisioned :
        (names : List Text) (p p' : ComposeProvision ops.World)
        → provision_compose ops host dir names p ≡ (done tt, p')
        → Reachable p'
    stepped : (p p' : ComposeProvision ops.World) → Reachable p → Step p p' → Reachable p'

  -- The config on disk has the JWTs that the accounts have now.
  abbrev pub IsCurrent : Provision ops.World → Type 0
  IsCurrent base =
      (order : List Text) × (text : Text) × Perm (keys base.accounts) order
      × (broker_config is_print (ops.jwts base.world) (ranged order base.accounts) ≡ done text)
      × (lookup (nats_conf dir) base.disk.files ≡ some text)

  -- The latch is off.
  provision_compose-off :
      (names : List Text) (p p' : ComposeProvision ops.World)
      → provision_compose ops host dir names p ≡ (done tt, p')
      → p'.broker_config_written ≡ false
  unfolding provision_compose fresh
  provision_compose-off names p p' e =
      let (seed, t, _, rest) = bind-done (on_base (provision_trust ops host dir)) _ p tt p' e in
      let (u, t', reset, last) = bind-done _ _ t tt p' rest in
      let (base, _, changed) = on_base-done _ t' p' tt last in
      ap (λ q. q.broker_config_written) changed ∙ ap (λ r. r.1.broker_config_written) (sym reset)

  grant-unlatched :
      (exporter importer subject : Text) (p : ComposeProvision ops.World)
      → p.broker_config_written ≡ false
      → grant ops host dir exporter importer subject p
        ≡ (on_base (grant_claims ops exporter importer subject) >> pure tt) p
  unfolding grant
  grant-unlatched exporter importer subject p off = rw (off, grant) refl

  grant-off :
      (exporter importer subject : Text) (p p' : ComposeProvision ops.World)
      → grant ops host dir exporter importer subject p ≡ (done tt, p')
      → p'.broker_config_written ≡ false
  unfolding grant
  grant-off exporter importer subject p p' e = elim (Bool-cases p.broker_config_written) [
    | inl latched ↦ absurd (ground (arith, e, latched))
    | inr off ↦
        let (both, t, ran, last) =
          bind-done (on_base (grant_claims ops exporter importer subject)) (λ _. pure tt) p tt p'
            (sym (grant-unlatched exporter importer subject p off) ∙ e) in
        let (base, _, t_is) =
          on_base-done (grant_claims ops exporter importer subject) p t both ran in
        sym (ap (λ r. r.1.broker_config_written) last)
        ∙ (ap (λ q. q.broker_config_written) t_is ∙ off)
  ]

  write_node_config-kept :
      (node cfg : Text) (p p' : ComposeProvision ops.World)
      → write_node_config ops host dir node cfg p ≡ (done tt, p')
      → (p'.broker_config_written ≡ p.broker_config_written)
        × (p'.base.world ≡ p.base.world)
        × (p'.base.accounts ≡ p.base.accounts)
        × (lookup (nats_conf dir) p'.base.disk.files ≡ lookup (nats_conf dir) p.base.disk.files)
  unfolding write_node_config
  write_node_config-kept node cfg p p' e =
      let conf_dir = join (join dir node) (lit "config") in
      let path = join conf_dir (lit "application.conf") in
      let (u, t, first, rest) =
        bind-done (on_base (on_disk unmade (mkdir_all host conf_dir mode_755))) _ p tt p' e in
      let (d, made, t_is) = on_base_disk-done unmade _ p t first in
      let (d', written, p'_is) = on_base_disk-done unwritten _ t p' rest in
      let files =
        ap (λ q. q.base.disk.files) p'_is
        ∙ write_file-done host path cfg mode_644 t.base.disk d' written in
      let before =
        ap (λ q. q.base.disk.files) t_is
        ∙ mkdir_all-done host conf_dir mode_755 p.base.disk d made in
      (
        ap (λ q. q.broker_config_written) p'_is ∙ ap (λ q. q.broker_config_written) t_is,
        ap (λ q. q.base.world) p'_is ∙ ap (λ q. q.base.world) t_is,
        ap (λ q. q.base.accounts) p'_is ∙ ap (λ q. q.base.accounts) t_is,
        ap (lookup (nats_conf dir)) files
            ∙ (lookup-insert_other path (nats_conf dir) cfg t.base.disk.files
                  (λ same. conf_elsewhere dir node (sym same))
                ∙ ap (lookup (nats_conf dir)) before),
      )

  -- What the write of the config and the walk over the JWTs leave.
  stored-conf :
      (text : Text) (p t p' : ComposeProvision ops.World)
      → on_base (on_disk unwritten (write_file host (nats_conf dir) text mode_644)) p ≡ (done tt, t)
      → on_base
          (λ q. on_disk unopened (make_container_writable host (jwt_tree ops host dir q.world)) q)
          t
        ≡ (done tt, p')
      → (p'.base.world ≡ p.base.world)
        × (p'.base.accounts ≡ p.base.accounts)
        × (lookup (nats_conf dir) p'.base.disk.files ≡ some text)
  stored-conf text p t p' stored opened =
      let (d, written, t_is) = on_base_disk-done unwritten _ p t stored in
      let tree = jwt_tree ops host dir t.base.world in
      let (base, walked, p'_is) = on_base-done _ t p' tt opened in
      let (d', walk, base_is) =
        on_disk-done unopened (make_container_writable host tree) t.base base walked in
      let after = p'_is ∙ ap (λ b. record t { base = b }) base_is in
      let files =
        ap (λ q. q.base.disk.files) after
        ∙ ((make_container_writable-opens host tree t.base.disk d' walk).0
            ∙ (ap (λ q. q.base.disk.files) t_is
                ∙ write_file-done host (nats_conf dir) text mode_644 p.base.disk d written)) in
      (
        ap (λ q. q.base.world) after ∙ ap (λ q. q.base.world) t_is,
        ap (λ q. q.base.accounts) after ∙ ap (λ q. q.base.accounts) t_is,
        ap (lookup (nats_conf dir)) files
            ∙ lookup-insert_same (nats_conf dir) text p.base.disk.files,
      )

  write_broker_config-IsCurrent :
      (order : List Text) (p p' : ComposeProvision ops.World)
      → Perm (keys p.base.accounts) order
      → write_broker_config ops host dir is_print order p ≡ (done tt, p')
      → IsCurrent p'.base
  unfolding write_broker_config render_broker
  write_broker_config-IsCurrent order p p' all e =
      let (u, p0, latched, e1) =
        bind-done (modify (λ q. record q { broker_config_written = true })) _ p tt p' e in
      let (text, p1, built, e2) =
        bind-done (on_base (render_broker ops host dir is_print order)) _ p0 tt p' e1 in
      let (v, p2, stored, opened) =
        bind-done (on_base (on_disk unwritten (write_file host (nats_conf dir) text mode_644))) _ p1
          tt p' e2 in
      let (base, texts, p1_is) =
        on_base-done (render_broker ops host dir is_print order) p0 p1 text built in
      let (worlds, accounts, conf) = stored-conf text p1 p2 p' stored opened in
      let same = ap (λ q. q.base) p1_is ∙ sym (ap (λ r. r.1) texts) in
      (
        order,
        text,
        rw (accounts ∙ (ap (λ b. b.accounts) same ∙ sym (ap (λ r. r.1.base.accounts) latched))) all,
        rw (worlds ∙ ap (λ b. b.world) same, accounts ∙ ap (λ b. b.accounts) same)
            (blame-done unread
              (broker_config is_print (ops.jwts p0.base.world) (ranged order p0.base.accounts)) text
              (ap (λ r. r.0) texts)),
        conf,
      )

  on_and_off :
      (p : ComposeProvision ops.World)
      → p.broker_config_written ≡ true
      → p.broker_config_written ≡ false
      → ⊥
  on_and_off p on off = ground (arith, on, off)

  Step-IsCurrent :
      (p p' : ComposeProvision ops.World)
      → Step p p'
      → (p.broker_config_written ≡ true → IsCurrent p.base)
      → p'.broker_config_written ≡ true
      → IsCurrent p'.base
  Step-IsCurrent p p' (granted exporter importer subject e) h on =
      absurd (on_and_off p' on (grant-off exporter importer subject p p' e))
  Step-IsCurrent p p' (rendered order all e) h on = write_broker_config-IsCurrent order p p' all e
  Step-IsCurrent p p' (configured node cfg e) h on =
      let (latch, worlds, accounts, files) = write_node_config-kept node cfg p p' e in
      let (order, text, all, renders, stored) = h (sym latch ∙ on) in
      (order, text, rw accounts all, rw (worlds, accounts) renders, files ∙ stored)

  -- However a scenario grants, writes node configs and renders the broker's config after
  -- `ProvisionCompose`: once the latch `brokerConfigWritten` is on, the nats-server.conf on disk is
  -- the one that the JWTs which the accounts have now, in some order, render to.
  pub Reachable-IsCurrent :
      (p : ComposeProvision ops.World)
      → Reachable p
      → p.broker_config_written ≡ true
      → IsCurrent p.base
  Reachable-IsCurrent _ (provisioned names p q e) on =
      absurd (on_and_off q on (provision_compose-off names p q e))
  Reachable-IsCurrent _ (stepped p q before step) on =
      Step-IsCurrent p q step (Reachable-IsCurrent p before) on
