-- ===== src/Findings.antt =====
-- internal/harness/parity_test.go: the findings register, and the check that every scenario has a twin.
pub mod Licences
pub mod Parity
pub mod Blocks
pub mod Register
use e2e.Base.{
  ℕ, zero, suc, ◌+◌, ◌-◌, Bool, true, false, ◌||◌, Option, none, some, List, [], ◌∷◌, ◌++◌, Text,
  lit, ◌==◌, text_eq, nat_eq, length, keep, not, if◌then◌else◌, cut_prefix, has_prefix, trim_prefix,
  trim_space,
}
use e2e.Base.Maps.{Map, lookup, insert}
use e2e.Base.Strings.{split, add_head}
use e2e.Run.{Outcome, done, fatal}
use e2e.Builds.{Toolchain, RootFault, repo_root}
use e2e.Disk.{join}

-- The characters before the first `sep`, all if there is none: the first result of `strings.Cut`.
unfoldable pub cut_before : ℕ → Text → Text
cut_before sep [] = []
cut_before sep (c ∷ s) = let rest = cut_before sep s in if c == sep then [] else c ∷ rest

-- The characters behind the first `sep`, none if there is none: the second result of `strings.Cut`.
unfoldable pub cut_after : ℕ → Text → Text
cut_after sep [] = []
cut_after sep (c ∷ s) = let rest = cut_after sep s in if c == sep then s else rest

-- `strings.Split` at a text: `skip` characters belong to a separator that has begun.
unfoldable pub pieces : Text → ℕ → Text → List Text
unfolding add_head has_prefix
pieces sep skip [] = [] ∷ []
pieces sep (suc skip) (c ∷ s) = pieces sep skip s
pieces sep zero (c ∷ s) =
    let next = pieces sep (length sep - 1) s in
    let here = pieces sep zero s in if has_prefix (c ∷ s) sep then [] ∷ next else add_head c here

-- The function that `strings.FieldsFunc` is given.
unfoldable pub is_delimiter : ℕ → Bool
is_delimiter c = c == b'`' || c == b',' || c == b' ' || c == b'.' || c == b';'

-- Parts between delimiters, empty ones included.
unfoldable pub parts : (ℕ → Bool) → Text → List Text
unfolding add_head
parts f [] = [] ∷ []
parts f (c ∷ s) = let rest = parts f s in if f c then [] ∷ rest else add_head c rest

-- `strings.FieldsFunc`
unfoldable pub fields_func : (ℕ → Bool) → Text → List Text
unfolding parts keep
fields_func f s = keep (λ part. not (part == [])) (parts f s)

-- `isOpen` and `deferrals`
pub record BlockScan : Type 0 where
  pub is_open : Bool
  pub deferrals : List Text

abbrev pub status_mark : Text
status_mark = lit "- **Status**:"

abbrev pub deferral_mark : Text
deferral_mark = lit "- **Compose twin deferred**:"

-- One line of a block, trimmed and not a heading.
unfoldable pub read_line : Text → BlockScan → BlockScan
unfolding has_prefix trim_prefix trim_space cut_after
read_line line st = record {
  is_open =
      if has_prefix line status_mark
      then trim_space (trim_prefix line status_mark) == lit "open"
      else st.is_open;
  deferrals =
      if has_prefix line deferral_mark
      then st.deferrals ++ (cut_after b':' line ∷ [])
      else st.deferrals;
}

-- The loop over the lines of a block, which the next heading ends.
unfoldable pub scan : List Text → BlockScan → BlockScan
unfolding has_prefix trim_space read_line
scan [] st = st
scan (raw ∷ lines) st =
    let rest = scan lines (read_line (trim_space raw) st) in
    if has_prefix (trim_space raw) (lit "#") then st else rest

-- What `strings.CutPrefix` leaves of a token: a name that is not empty is licensed.
abbrev pub licence_name : Text → Option Text → Map Text → Map Text
licence_name id none out = out
licence_name id (some []) out = out
licence_name id (some (c ∷ name)) out = insert (c ∷ name) id out

-- The loop over the tokens of a field.
unfoldable pub licence_tokens : Text → List Text → Map Text → Map Text
unfolding cut_prefix insert
licence_tokens id [] out = out
licence_tokens id (tok ∷ toks) out =
    licence_tokens id toks (licence_name id (cut_prefix tok (lit "scenarios/")) out)

-- The loop over the fields.
unfoldable pub licence_fields : Text → List Text → Map Text → Map Text
unfolding licence_tokens fields_func is_delimiter
licence_fields id [] out = out
licence_fields id (field ∷ rest) out =
    licence_fields id rest (licence_tokens id (fields_func is_delimiter field) out)

unfoldable pub id_of : Text → Text
unfolding trim_space cut_before
id_of block = trim_space (cut_before b' ' block)

unfoldable pub scan_block : Text → BlockScan
unfolding scan split
scan_block block = scan (split block b'\n') (record { is_open = false; deferrals = [] })

-- One round of the loop over the blocks.
unfoldable pub read_block : Text → Map Text → Map Text
unfolding id_of scan_block has_prefix licence_fields
read_block block out =
    if not (has_prefix (id_of block) (lit "E2E-F-"))
    then out
    else (if not (scan_block block).is_open
        then out
        else licence_fields (id_of block) (scan_block block).deferrals out)

unfoldable pub read_blocks : List Text → Map Text → Map Text
unfolding read_block
read_blocks [] out = out
read_blocks (block ∷ blocks) out = read_blocks blocks (read_block block out)

-- `[1:]`
unfoldable pub tail_of {ℓ} : {A : Type ℓ} → List A → List A
tail_of [] = []
tail_of (x ∷ xs) = xs

-- The blocks of a register.
unfoldable pub blocks_of : Text → List Text
unfolding tail_of pieces
blocks_of md = tail_of (pieces (lit "\n### ") 0 (lit "\n" ++ md))

-- `openComposeDeferrals`
unfoldable pub open_compose_deferrals : Text → Map Text
unfolding read_blocks blocks_of
open_compose_deferrals md = read_blocks (blocks_of md) []

-- `fs.DirEntry`
pub record DirEntry : Type 0 where
  pub name : Text
  pub is_dir : Bool

-- The repository's files: `os.ReadFile`, `os.ReadDir`, and whether `os.Stat` gives no error.
pub record Checkout : Type 0 where
  pub read : Text → Option Text
  pub read_dir : Text → Option (List DirEntry)
  pub exists : Text → Bool

-- The calls of `t.Fatal` and `t.Fatalf`.
pub data ParityFault : Type 0 where
  lost : RootFault → ParityFault
  no_register : ParityFault
  no_scenarios : ParityFault
  vacuous : ParityFault

-- The calls of `t.Errorf`, after which the test goes on.
pub data ParityError : Type 0 where
  no_twin : Text → ParityError
  still_open : Text → Text → ParityError

-- The `switch`: whether the scenario has a twin, and the finding that defers it.
unfoldable pub judge : Text → Bool → Option Text → List ParityError
judge name false none = no_twin name ∷ []
judge name true (some id) = still_open name id ∷ []
judge name false (some id) = []
judge name true none = []

unfoldable pub twin_of : Text → Text → Text
twin_of root name = join (join (join root (lit "scenarios")) name) (lit "docker-compose.yml")

module _ (checkout : Checkout) (root : Text) (deferred : Map Text) where
  -- The loop over the entries: the errors, and how many scenarios there are.
  unfoldable pub check_entries : List DirEntry → List ParityError × ℕ
  unfolding judge twin_of lookup
  check_entries [] = ([], 0)
  check_entries (e ∷ entries) =
      let (errors, scenarios) = check_entries entries in
      if not e.is_dir then (errors, scenarios) else (
        judge e.name (checkout.exists (twin_of root e.name)) (lookup e.name deferred) ++ errors,
        1 + scenarios,
      )

  -- The end of the test.
  unfoldable pub conclude : List ParityError × ℕ → Outcome ParityFault (List ParityError)
  conclude (errors, zero) = fatal vacuous
  conclude (errors, suc n) = done errors

module _ (checkout : Checkout) where
  -- `TestComposeParity` from the repository's root on, by what reading the register and listing the
  -- scenarios give.
  abbrev pub parity_of :
      Text → Option Text → Option (List DirEntry) → Outcome ParityFault (List ParityError)
  parity_of root none listing = fatal no_register
  parity_of root (some md) none = fatal no_scenarios
  parity_of root (some md) (some entries) =
      conclude checkout root (open_compose_deferrals md)
        (check_entries checkout root (open_compose_deferrals md) entries)

  abbrev pub parity_from :
      Option (Outcome RootFault Text) → Option (Outcome ParityFault (List ParityError))
  parity_from none = none
  parity_from (some (fatal fault)) = some (fatal (lost fault))
  parity_from (some (done root)) = some (
      parity_of root (checkout.read (join root (lit "FINDINGS.md")))
        (checkout.read_dir (join root (lit "scenarios"))))

-- `TestComposeParity`
unfoldable pub compose_parity :
    Toolchain → Checkout → Option (Outcome ParityFault (List ParityError))
unfolding repo_root conclude check_entries open_compose_deferrals
compose_parity tools checkout = parity_from checkout (repo_root tools)
