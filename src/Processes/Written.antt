-- ===== src/Processes/Written.antt =====
-- internal/harness/separated.go: what the two calls that write a node's config have changed.
use e2e.Base.{some, ◌≡◌, ◌≢◌, ap, sym, ◌∙◌, arith, refl, ◌++◌, append_assoc, Text, lit}
use e2e.Base.Maps.{lookup-insert_same, lookup-insert_other, lookup, insert}
use e2e.Run.{Run, done}
use e2e.Run.Inversion.{bind-done, pure-done, blame-done}
use e2e.Disk.{Disk, Host, join, mkdir_all, write_file, mode_644, mode_755}
use e2e.Docker.Project.{append_inj}
use e2e.Accounts.Calls.{mkdir_all-done, write_file-done}
use e2e.Processes.{unconfigured, Booting, configure, write_application_conf, write_config_file}

pub configure-done :
    {A : Type 0} (node : Text) (write : Run Text Disk A) (b b' : Booting) (a : A)
    → configure node write b ≡ (done a, b')
    → (d : Disk) × (write b.disk ≡ (done a, d)) × (b' ≡ record b { disk = d })
unfolding configure
configure-done node write b b' a e = (
  (write b.disk).1,
  ap (λ r. (r, (write b.disk).1))
      (blame-done (λ path. unconfigured node) (write b.disk).0 a (ap (λ r. r.0) e)),
  sym (ap (λ r. r.1) e),
)

-- The paths of the two processes' configs.
abbrev pub application_conf : Text → Text
application_conf dir = join (join dir (lit "config")) (lit "application.conf")

abbrev pub pipeline_conf : Text → Text
pipeline_conf dir = join dir (lit "pipeline.conf")

-- Whatever the directories, the two files are different ones.
confs_apart : (dir dir' : Text) → pipeline_conf dir ≢ application_conf dir'
unfolding join lit
confs_apart dir dir' e =
    let (_, ends) =
      append_inj dir (join dir' (lit "config") ++ lit "/ap") (lit "/pipeline.conf")
        (lit "plication.conf") refl
        (e ∙ sym (append_assoc (join dir' (lit "config")) (lit "/ap") (lit "plication.conf"))) in
    absurd (ground (arith, ends))

module _ (host : Host) where
  pub write_application_conf-done :
      (dir cfg : Text) (d d' : Disk)
      → write_application_conf host dir cfg d ≡ (done tt, d')
      → lookup (application_conf dir) d'.files ≡ some cfg
  unfolding write_application_conf
  write_application_conf-done dir cfg d d' e =
      let file = application_conf dir in
      let (_, t, _, e1) =
        bind-done (mkdir_all host (join dir (lit "config")) mode_755) _ d tt d' e in
      ap (lookup file) (write_file-done host file cfg mode_644 t d' e1)
      ∙ lookup-insert_same file cfg t.files

  -- The pipeline's config is written, and a network's config stays as it was.
  pub write_config_file-done :
      (dir cfg path : Text) (d d' : Disk)
      → write_config_file host dir cfg d ≡ (done path, d')
      → (path ≡ pipeline_conf dir)
        × (lookup (pipeline_conf dir) d'.files ≡ some cfg)
        × ((dir' : Text)
            → lookup (application_conf dir') d'.files ≡ lookup (application_conf dir') d.files)
  unfolding write_config_file
  write_config_file-done dir cfg path d d' e =
      let file = pipeline_conf dir in
      let (_, t, made, e1) = bind-done (mkdir_all host dir mode_755) _ d path d' e in
      let (_, t1, written, e2) = bind-done (write_file host file cfg mode_644) _ t path d' e1 in
      let (is_file, d'_is) = pure-done file path t1 d' e2 in
      let files_are : d'.files ≡ insert file cfg t.files =
        ap (λ q. q.files) d'_is ∙ write_file-done host file cfg mode_644 t t1 written in
      (
        sym is_file,
        ap (lookup file) files_are ∙ lookup-insert_same file cfg t.files,
        λ dir'.
            ap (lookup (application_conf dir')) files_are
            ∙ (lookup-insert_other file (application_conf dir') cfg t.files (confs_apart dir dir')
                ∙ ap (lookup (application_conf dir')) (mkdir_all-done host dir mode_755 d t made)),
      )
