-- ===== src/Tests/Outputs.antt =====
-- Reads of a node's records while its processes write.
use e2e.Base.{
  ◌≡◌, refl, List, [], ◌∷◌, ◌++◌, Text, lit, arith, text_eq, text_dec, ℕ_discrete, trim_space,
  has_prefix,
}
use e2e.Base.Strings.{split, add_head}
use e2e.Sink.{byte_len, rune_len, max_line, node_sink_lines}
use e2e.Output.{
  SeparatedOutput, separated_stdout, separated_sink_lines, node_stdout, string, write, network_out,
  network_err, pipeline_out, write_to, Call, wrote, polled, Calls, quiet, writes, polls,
}
use e2e.Output.Polls.{Fits, Extends, written, polls_extend}

abbrev silent : SeparatedOutput
silent = record {
  network = record { stdout = record { buf = [] }; stderr = record { buf = [] } };
  pipeline = record { stdout = record { buf = [] }; stderr = record { buf = [] } };
}

-- One record and the half of another, then the rest of it.
abbrev first : Text
first = lit "{\"a\":1}\n{\"b\""

abbrev second : Text
second = lit ":2}\nbye\n"

abbrev written_once : SeparatedOutput
written_once = write_to pipeline_out first (write_to network_out (lit "{\"n\":0}\n") silent)

abbrev written_twice : SeparatedOutput
written_twice = write_to pipeline_out second (write_to network_err (lit "{oops") written_once)

abbrev early : List Text
early = lit "{\"a\":1}" ∷ lit "{\"b\"" ∷ []

abbrev late : List Text
late = lit "{\"a\":1}" ∷ lit "{\"b\":2}" ∷ []

early-is : early ≡ separated_sink_lines written_once
unfolding separated_sink_lines node_stdout string write_to write node_sink_lines lit max_line
    has_prefix trim_space text_eq text_dec ℕ_discrete
early-is = refl

late-is : late ≡ separated_sink_lines written_twice
unfolding separated_sink_lines node_stdout string write_to write node_sink_lines lit max_line
    has_prefix trim_space text_eq text_dec ℕ_discrete
late-is = refl

abbrev between : List Call
between = wrote network_err (lit "{oops") ∷ wrote pipeline_out second ∷ []

calls : Calls written_once (polled early ∷ (between ++ (polled late ∷ []))) written_twice
calls =
    polls early early-is
      (writes network_err (lit "{oops") (writes pipeline_out second (polls late late-is quiet)))

fits : Fits (separated_stdout written_once)
unfolding separated_stdout node_stdout string write_to write split add_head byte_len rune_len
    max_line lit ℕ_discrete
fits = (omega arith, (omega arith, tt))

Fits-later : Fits (separated_stdout written_once ++ written between)
unfolding separated_stdout node_stdout string write_to write split add_head byte_len rune_len
    max_line lit ℕ_discrete
Fits-later = (omega arith, (omega arith, (omega arith, (omega arith, tt))))

polls_extend_example :
    Extends early late
    × (separated_stdout written_twice
        ≡ (separated_stdout written_once ++ written between) ++ written [])
polls_extend_example =
    polls_extend written_once written_twice early late between [] calls fits Fits-later
