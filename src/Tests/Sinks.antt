-- ===== src/Tests/Sinks.antt =====
-- The theorems of Sink at concrete outputs.
use e2e.Base.{
  ℕ, zero, suc, ◌<◌, All, ◌≡◌, refl, [], ◌∷◌, Text, lit, arith, trim_space, has_prefix, ℕ_discrete,
  text_eq,
}
use e2e.Base.Strings.{split}
use e2e.Sink.{json_lines, byte_len, max_line, compose_sink_lines, node_sink_lines}
use e2e.Sink.Agree.{node_sink_lines_cut, sink_lines_agree}

abbrev output : Text
output = lit "boot\n {\"a\":1}\r\n\nnote {x\n{\"b\":2}"

two_records : compose_sink_lines output ≡ lit "{\"a\":1}" ∷ lit "{\"b\":2}" ∷ []
unfolding compose_sink_lines trim_space has_prefix lit ℕ_discrete
two_records = refl

sink_lines_agree_example : node_sink_lines output ≡ compose_sink_lines output
unfolding split lit ℕ_discrete byte_len max_line
sink_lines_agree_example = sink_lines_agree output (omega arith)

fill : ℕ → Text → Text
fill zero s = s
fill (suc n) s = b'x' ∷ fill n s

byte_len-fill : (n : ℕ) → byte_len (fill n []) ≡ n
unfolding byte_len fill
byte_len-fill zero = refl
byte_len-fill (suc n) = omega (arith, byte_len-fill n)

split-fill : (n : ℕ) (s : Text) → split (fill n (b'\n' ∷ s)) b'\n' ≡ fill n [] ∷ split s b'\n'
unfolding split fill
split-fill zero s = ground arith
split-fill (suc n) s = rw (split-fill n s) (ground arith)

abbrev oversized : Text
oversized = b'{' ∷ b'}' ∷ b'\n' ∷ fill max_line (b'\n' ∷ lit "{1}")

split-oversized : split oversized b'\n' ≡ lit "{}" ∷ (fill max_line [] ∷ split (lit "{1}") b'\n')
unfolding split lit ℕ_discrete
split-oversized = rw (split-fill max_line (lit "{1}"))

short_line : All (λ l. byte_len l < max_line) (lit "{}" ∷ [])
unfolding byte_len lit max_line
short_line = omega arith

node_sink_lines_cut_example : node_sink_lines oversized ≡ json_lines (lit "{}" ∷ [])
node_sink_lines_cut_example =
    node_sink_lines_cut oversized (lit "{}" ∷ []) (fill max_line []) _ split-oversized short_line
      (omega (arith, byte_len-fill max_line))
