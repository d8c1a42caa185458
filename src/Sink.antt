-- ===== src/Sink.antt =====
-- The sink records in a node's output: internal/harness/node.go reads them from a process's stdout
-- with a scanner, internal/harness/compose.go from a service's logs by splitting.
pub mod Agree
use e2e.Base.{
  ℕ, zero, suc, ◌+◌, ◌*◌, Bool, List, [], ◌∷◌, Text, lit, ltb, ◌==◌, nat_eq, text_eq, if◌then◌else◌,
  trim_space, has_prefix,
}
use e2e.Base.Strings.{split}

-- The loop of both readers: the trimmed lines that begin with a brace.
unfoldable pub json_lines : List Text → List Text
json_lines [] = []
json_lines (l ∷ ls) =
    let rest = json_lines ls in
    let line = trim_space l in if has_prefix line (lit "{") then line ∷ rest else rest

-- `Compose.SinkLines`, of the service's logs.
unfoldable pub compose_sink_lines : Text → List Text
unfolding json_lines split
compose_sink_lines logs = json_lines (split logs b'\n')

-- The bytes of a code point in UTF-8, and of a text.
unfoldable pub rune_len : ℕ → ℕ
rune_len c = if ltb c 0x80 then 1 else if ltb c 0x800 then 2 else if ltb c 0x10000 then 3 else 4

unfoldable pub byte_len : Text → ℕ
unfolding rune_len
byte_len [] = 0
byte_len (c ∷ s) = rune_len c + byte_len s

-- `dropCR` of bufio.ScanLines
unfoldable pub drop_cr : Text → Text
drop_cr [] = []
drop_cr (c ∷ []) = if c == 13 then [] else c ∷ []
drop_cr (c ∷ d ∷ s) = c ∷ drop_cr (d ∷ s)

-- `for sc.Scan()` over the parts between line ends. A line that does not fit in the buffer together
-- with its line end makes `Scan` return false for good; an empty last part is no line.
unfoldable pub scan_lines : ℕ → List Text → List Text
unfolding byte_len drop_cr
scan_lines limit [] = []
scan_lines limit (l ∷ []) =
    if l == [] then [] else if ltb (byte_len l) limit then drop_cr l ∷ [] else []
scan_lines limit (l ∷ m ∷ ls) =
    let rest = scan_lines limit (m ∷ ls) in if ltb (byte_len l) limit then drop_cr l ∷ rest else []

-- The scanner's buffer, `16*1024*1024`.
unfoldable pub max_line : ℕ
max_line = 16 * 1024 * 1024

-- `Node.SinkLines`, of the process's output so far.
unfoldable pub node_sink_lines : Text → List Text
unfolding json_lines split scan_lines
node_sink_lines out = json_lines (scan_lines max_line (split out b'\n'))
