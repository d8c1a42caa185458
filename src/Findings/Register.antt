-- ===== src/Findings/Register.antt =====
-- internal/harness/parity_test.go: what `openComposeDeferrals` reads from a register, as a whole.
use e2e.Base.{◌≡◌, ◌↔◌, false, some, List, ◌++◌, Text, lit, All}
use e2e.Base.Maps.{lookup}
use e2e.Base.Strings.{contains_text}
use e2e.Findings.{tail_of, blocks_of, open_compose_deferrals}
use e2e.Findings.Blocks.{AreParts, rejoined, split-AreParts}
use e2e.Findings.Licences.Blocks.{LastLicence, open_compose_deferrals_iff}

-- The blocks are what stands between the headings of the text: the part before the first heading is
-- left out, and neither it nor a block contains a heading.
abbrev pub AreBlocks : Text → List Text → Type 0
AreBlocks md blocks =
    ((first : Text) × (contains_text first (lit "\n### ") ≡ false)
      × (lit "\n" ++ md ≡ first ++ rejoined (lit "\n### ") blocks))
    × All (λ block. contains_text block (lit "\n### ") ≡ false) blocks

tail-AreBlocks :
    (md : Text) (all : List Text)
    → AreParts (lit "\n### ") (lit "\n" ++ md) all
    → AreBlocks md (tail_of all)
unfolding tail_of
tail-AreBlocks md all p =
    rw p.all_is ((p.first, (rw p.all_is at p.apart).0, p.whole), (rw p.all_is at p.apart).1)

blocks_of-AreBlocks : (md : Text) → AreBlocks md (blocks_of md)
unfolding blocks_of lit
blocks_of-AreBlocks md = tail-AreBlocks md _ (split-AreParts b'\n' _ (lit "\n" ++ md))

-- The blocks that are read are the texts behind each heading up to the next one, from the first
-- heading on, and no block contains a heading. A scenario is
-- deferred by a finding exactly if that finding is the last block that licenses it: a finding whose
-- last status line says `open` and nothing else, and which names the scenario's path in a deferral
-- line, both above the next line that begins with `#`.
pub open_compose_deferrals_reads :
    (md name id : Text)
    → AreBlocks md (blocks_of md)
      × ((lookup name (open_compose_deferrals md) ≡ some id) ↔ LastLicence name id (blocks_of md))
open_compose_deferrals_reads md name id =
    (blocks_of-AreBlocks md, open_compose_deferrals_iff name md id)
