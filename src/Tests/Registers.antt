-- ===== src/Tests/Registers.antt =====
-- The cases of internal/harness/parity_test.go, and a checkout that is at parity.
use e2e.Base.{
  ◌≡◌, ◌↔◌, refl, true, false, some, none, Text, lit, [], ◌∷◌, ◌==◌, if◌then◌else◌, keep,
  has_prefix, trim_prefix, cut_prefix, trim_space, trim_left, is_space, text_eq, text_dec,
  ℕ_discrete,
}
use e2e.Base.Maps.{insert, lookup}
use e2e.Base.Strings.{split, add_head}
use e2e.Run.{done}
use e2e.Builds.{Toolchain, parent_of, climb, repo_root}
use e2e.Disk.{join}
use e2e.Findings.{
  cut_before, cut_after, pieces, is_delimiter, parts, fields_func, read_line, scan, licence_tokens,
  licence_fields, id_of, scan_block, read_block, read_blocks, tail_of, blocks_of,
  open_compose_deferrals, Checkout, judge, twin_of, check_entries, conclude, compose_parity,
  no_twin, still_open,
}
use e2e.Findings.Licences.Blocks.{LastLicence}
use e2e.Findings.Register.{AreBlocks, open_compose_deferrals_reads}
use e2e.Findings.Parity.{IsAtParity, compose_parity_iff}

-- An open deferral licenses its scenario.
abbrev deferred : Text
deferred =
    lit
      "### E2E-F-028 — losswindow has no compose twin\n\n- **Status**: open\n- **Affected scenario**: `scenarios/losswindow`\n- **Compose twin deferred**: `scenarios/losswindow`\n- **Rationale**: whatever\n"

reads_deferred : open_compose_deferrals deferred ≡ (lit "losswindow", lit "E2E-F-028") ∷ []
unfolding open_compose_deferrals read_blocks blocks_of tail_of pieces read_block id_of scan_block
    scan read_line licence_fields licence_tokens fields_func parts keep is_delimiter cut_before
    cut_after split add_head has_prefix trim_prefix cut_prefix trim_space trim_left is_space insert
    lit text_eq text_dec ℕ_discrete
reads_deferred = refl

-- A resolved deferral licenses nothing.
abbrev resolved : Text
resolved =
    lit
      "### E2E-F-028 — losswindow has no compose twin\n\n- **Status**: resolved\n- **Compose twin deferred**: `scenarios/losswindow`\n"

reads_resolved : open_compose_deferrals resolved ≡ []
unfolding open_compose_deferrals read_blocks blocks_of tail_of pieces read_block id_of scan_block
    scan read_line licence_fields licence_tokens fields_func parts keep is_delimiter cut_before
    cut_after split add_head has_prefix trim_prefix cut_prefix trim_space trim_left is_space insert
    lit text_eq text_dec ℕ_discrete
reads_resolved = refl

-- An ordinary finding that names an affected scenario licenses nothing.
abbrev ordinary : Text
ordinary =
    lit
      "### E2E-F-029 — the product exposes no surface for X\n\n- **Status**: open\n- **Affected scenario**: `scenarios/recall`\n- **Rationale**: the product lacks a surface; the harness works around it\n"

reads_ordinary : open_compose_deferrals ordinary ≡ []
unfolding open_compose_deferrals read_blocks blocks_of tail_of pieces read_block id_of scan_block
    scan read_line licence_fields licence_tokens fields_func parts keep is_delimiter cut_before
    cut_after split add_head has_prefix trim_prefix cut_prefix trim_space trim_left is_space insert
    lit text_eq text_dec ℕ_discrete
reads_ordinary = refl

-- One open, one resolved.
abbrev mixed : Text
mixed =
    lit
      "### E2E-F-028 — a\n\n- **Status**: resolved\n- **Compose twin deferred**: scenarios/losswindow\n\n### E2E-F-029 — b\n\n- **Status**: open\n- **Compose twin deferred**: scenarios/branching\n"

reads_mixed : open_compose_deferrals mixed ≡ (lit "branching", lit "E2E-F-029") ∷ []
unfolding open_compose_deferrals read_blocks blocks_of tail_of pieces read_block id_of scan_block
    scan read_line licence_fields licence_tokens fields_func parts keep is_delimiter cut_before
    cut_after split add_head has_prefix trim_prefix cut_prefix trim_space trim_left is_space insert
    lit text_eq text_dec ℕ_discrete
reads_mixed = refl

-- Several scenarios deferred by one finding.
abbrev together : Text
together =
    lit
      "### E2E-F-031 — two scenarios deferred together\n\n- **Status**: open\n- **Compose twin deferred**: scenarios/alpha, scenarios/beta\n"

reads_together :
    open_compose_deferrals together
    ≡ (lit "alpha", lit "E2E-F-031") ∷ (lit "beta", lit "E2E-F-031") ∷ []
unfolding open_compose_deferrals read_blocks blocks_of tail_of pieces read_block id_of scan_block
    scan read_line licence_fields licence_tokens fields_func parts keep is_delimiter cut_before
    cut_after split add_head has_prefix trim_prefix cut_prefix trim_space trim_left is_space insert
    lit text_eq text_dec ℕ_discrete
reads_together = refl

-- Prose that mentions a scenario's path is not a deferral.
abbrev prose : Text
prose =
    lit
      "### E2E-F-032 — something else\n\n- **Status**: open\n- **Rationale**: see scenarios/longchain for the pattern\n"

reads_prose : open_compose_deferrals prose ≡ []
unfolding open_compose_deferrals read_blocks blocks_of tail_of pieces read_block id_of scan_block
    scan read_line licence_fields licence_tokens fields_func parts keep is_delimiter cut_before
    cut_after split add_head has_prefix trim_prefix cut_prefix trim_space trim_left is_space insert
    lit text_eq text_dec ℕ_discrete
reads_prose = refl

-- A qualified status is not open.
abbrev qualified : Text
qualified =
    lit
      "### E2E-F-033 — blocked on something\n\n- **Status**: open (blocked)\n- **Compose twin deferred**: scenarios/alpha\n"

reads_qualified : open_compose_deferrals qualified ≡ []
unfolding open_compose_deferrals read_blocks blocks_of tail_of pieces read_block id_of scan_block
    scan read_line licence_fields licence_tokens fields_func parts keep is_delimiter cut_before
    cut_after split add_head has_prefix trim_prefix cut_prefix trim_space trim_left is_space insert
    lit text_eq text_dec ℕ_discrete
reads_qualified = refl

open_compose_deferrals_reads_example :
    AreBlocks deferred (blocks_of deferred)
    × ((lookup (lit "losswindow") (open_compose_deferrals deferred) ≡ some (lit "E2E-F-028"))
        ↔ LastLicence (lit "losswindow") (lit "E2E-F-028") (blocks_of deferred))
open_compose_deferrals_reads_example =
    open_compose_deferrals_reads deferred (lit "losswindow") (lit "E2E-F-028")

abbrev tools : Toolchain
tools = record {
  getwd = some (lit "/r/s");
  has_go_mod = λ dir. dir == lit "/r";
  test_binary = lit "/t";
  can_make = λ _. true;
  go_build = λ _ _. none;
}

-- Two scenarios and a file: the first has a twin, and the second one's is deferred.
abbrev checkout : Checkout
checkout = record {
  read = λ path. if path == lit "/r/FINDINGS.md" then some deferred else none;
  read_dir = λ path. some (
      record { name = lit "simple"; is_dir = true }
      ∷ record { name = lit "losswindow"; is_dir = true }
      ∷ record { name = lit "README.md"; is_dir = false }
      ∷ []);
  exists = λ path. path == lit "/r/scenarios/simple/docker-compose.yml";
}

passes : compose_parity tools checkout ≡ some (done [])
unfolding compose_parity repo_root climb conclude check_entries judge twin_of parent_of join lookup
    open_compose_deferrals read_blocks blocks_of tail_of pieces read_block id_of scan_block scan
    read_line licence_fields licence_tokens fields_func parts keep is_delimiter cut_before cut_after
    split add_head has_prefix trim_prefix cut_prefix trim_space trim_left is_space insert lit
    text_eq text_dec ℕ_discrete
passes = refl

-- With both twins there, the finding is still open; with none, the first is missing.
fails :
    compose_parity tools (record checkout { exists = λ _. true })
    ≡ some (done (still_open (lit "losswindow") (lit "E2E-F-028") ∷ []))
unfolding compose_parity repo_root climb conclude check_entries judge twin_of parent_of join lookup
    open_compose_deferrals read_blocks blocks_of tail_of pieces read_block id_of scan_block scan
    read_line licence_fields licence_tokens fields_func parts keep is_delimiter cut_before cut_after
    split add_head has_prefix trim_prefix cut_prefix trim_space trim_left is_space insert lit
    text_eq text_dec ℕ_discrete
fails = refl

bare :
    compose_parity tools (record checkout { exists = λ _. false })
    ≡ some (done (no_twin (lit "simple") ∷ []))
unfolding compose_parity repo_root climb conclude check_entries judge twin_of parent_of join lookup
    open_compose_deferrals read_blocks blocks_of tail_of pieces read_block id_of scan_block scan
    read_line licence_fields licence_tokens fields_func parts keep is_delimiter cut_before cut_after
    split add_head has_prefix trim_prefix cut_prefix trim_space trim_left is_space insert lit
    text_eq text_dec ℕ_discrete
bare = refl

compose_parity_iff_example :
    (compose_parity tools checkout ≡ some (done [])) ↔ IsAtParity tools checkout
compose_parity_iff_example = compose_parity_iff tools checkout
