-- ===== src/Findings/Licences.antt =====
-- internal/harness/parity_test.go: which blocks of the register license a missing twin.
pub mod Updates
pub mod Blocks
use e2e.Base.{
  ◌≡◌, ◌↔◌, refl, ap, sym, ◌∙◌, arith, ◌⊎◌, inl, inr, Bool, Bool-cases, true, false, List, [], ◌∷◌,
  ◌++◌, Text, lit, ◌==◌, text_eq, Any, All, if◌then◌else◌, has_prefix, trim_prefix, trim_space,
}
use e2e.Findings.{cut_after, status_mark, deferral_mark, BlockScan, read_line, scan}

-- The lines above a block's next heading, trimmed.
unfoldable pub body : List Text → List Text
body [] = []
body (raw ∷ lines) =
    let rest = body lines in
    if has_prefix (trim_space raw) (lit "#") then [] else trim_space raw ∷ rest

-- The line is a status line that says `open` and nothing else.
abbrev pub SaysOpen : Text → Type 0
SaysOpen line =
    (has_prefix line status_mark ≡ true) × (trim_space (trim_prefix line status_mark) ≡ lit "open")

abbrev pub NoStatus : List Text → Type 0
NoStatus = All (λ line. has_prefix line status_mark ≡ false)

-- There is a status line, and the last one says `open`.
abbrev pub LastSaysOpen : List Text → Type 0
LastSaysOpen [] = ⊥
LastSaysOpen (line ∷ lines) = LastSaysOpen lines ⊎ (SaysOpen line × NoStatus lines)

-- Some deferral line's field has the property.
abbrev pub Defers : (Text → Type 0) → List Text → Type 0
Defers P = Any (λ line. (has_prefix line deferral_mark ≡ true) × P (cut_after b':' line))

read_line-is_open :
    (line : Text) (st : BlockScan)
    → ((read_line line st).is_open ≡ true)
      ↔ (SaysOpen line ⊎ ((has_prefix line status_mark ≡ false) × (st.is_open ≡ true)))
unfolding read_line
read_line-is_open line st = ground arith

scan-is_open :
    (lines : List Text) (st : BlockScan)
    → ((scan lines st).is_open ≡ true)
      ↔ (LastSaysOpen (body lines) ⊎ (NoStatus (body lines) × (st.is_open ≡ true)))
unfolding scan body
scan-is_open [] st = ground arith
scan-is_open (raw ∷ lines) st = ground (
  arith,
  scan-is_open lines (read_line (trim_space raw) st),
  read_line-is_open (trim_space raw) st,
)

Any-snoc :
    {A : Type 0} (P : A → Type 0) (xs : List A) (x : A) → Any P (xs ++ (x ∷ [])) ↔ (Any P xs ⊎ P x)
Any-snoc P [] x = ground arith
Any-snoc P (y ∷ xs) x = ground (arith, Any-snoc P xs x)

read_line-deferrals :
    (P : Text → Type 0) (line : Text) (st : BlockScan)
    → Any P (read_line line st).deferrals
      ↔ (Any P st.deferrals ⊎ ((has_prefix line deferral_mark ≡ true) × P (cut_after b':' line)))
unfolding read_line
read_line-deferrals P line st = ground (arith, Any-snoc P st.deferrals (cut_after b':' line))

scan-deferrals :
    (P : Text → Type 0) (lines : List Text) (st : BlockScan)
    → Any P (scan lines st).deferrals ↔ (Any P st.deferrals ⊎ Defers P (body lines))
unfolding scan body
scan-deferrals P [] st = ground arith
scan-deferrals P (raw ∷ lines) st = ground (
  arith,
  scan-deferrals P lines (read_line (trim_space raw) st),
  read_line-deferrals P (trim_space raw) st,
)
