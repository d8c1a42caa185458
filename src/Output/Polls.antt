-- ===== src/Output/Polls.antt =====
-- internal/harness/node.go: what a scenario reads from a node's output while the node writes.
use e2e.Base.{
  ℕ, ◌≤◌, ◌<◌, ◌≡◌, ◌≢◌, refl, ap, sym, ◌∙◌, arith, List, [], ◌∷◌, ◌++◌, append-nil, append_assoc,
  Text, All, length, nat_eq,
}
use e2e.Base.Strings.{split, add_head}
use e2e.Sink.{json_lines, byte_len, max_line, node_sink_lines, compose_sink_lines}
use e2e.Sink.Agree.{sink_lines_agree}
use e2e.Output.{
  SeparatedOutput, separated_stdout, separated_sink_lines, node_stdout, string, write, Stream,
  network_out, network_err, pipeline_out, pipeline_err, write_to, Call, wrote, polled, Calls, quiet,
  writes, polls,
}

-- What the calls wrote to the pipeline's stdout, in order.
abbrev pub written : List Call → Text
written [] = []
written (wrote pipeline_out p ∷ cs) = p ++ written cs
written (wrote network_out _ ∷ cs) = written cs
written (wrote network_err _ ∷ cs) = written cs
written (wrote pipeline_err _ ∷ cs) = written cs
written (polled _ ∷ cs) = written cs

-- The later records begin with the earlier ones, but for the last one at most, whose line may have
-- been read before it was complete.
pub record Extends (early late : List Text) : Type 0 where
  pub whole : List Text
  pub partial : List Text
  pub more : List Text
  pub early_is : early ≡ whole ++ partial
  pub one_partial : length partial ≤ 1
  pub late_is : late ≡ whole ++ more

json_lines-append : (xs ys : List Text) → json_lines (xs ++ ys) ≡ json_lines xs ++ json_lines ys
unfolding json_lines
json_lines-append [] ys = refl
json_lines-append (l ∷ xs) ys = ground (arith, json_lines-append xs ys)

-- A longer text has the complete lines of a shorter one.
split-append :
    (s t : Text) (sep : ℕ)
    → (ls : List Text) × (last : Text) × (rest : List Text) × (split s sep ≡ ls ++ (last ∷ []))
      × (split (s ++ t) sep ≡ ls ++ rest)
unfolding split add_head
split-append [] t sep = ([], [], split t sep, refl, refl)
split-append (c ∷ s) t sep =
    let (ls, last, rest, short, long) = split-append s t sep in
    elim (nat_eq.dec c sep) [
      | yes same ↦ ([] ∷ ls, last, rest, ground (arith, same, short), ground (arith, same, long))
      | no apart ↦ by_head ls last rest short long apart
    ]
  where
    by_head :
        (ls : List Text) (last : Text) (rest : List Text)
        → split s sep ≡ ls ++ (last ∷ [])
        → split (s ++ t) sep ≡ ls ++ rest
        → c ≢ sep
        → (ls : List Text) × (last : Text) × (rest : List Text) × (split (c ∷ s) sep
            ≡ ls ++ (last ∷ []))
          × (split (c ∷ (s ++ t)) sep ≡ ls ++ rest)
    by_head [] last rest short long apart =
        ([], c ∷ last, add_head c rest, ground (arith, apart, short), ground (arith, apart, long))
    by_head (l ∷ ls) last rest short long apart =
        ((c ∷ l) ∷ ls, last, rest, ground (arith, apart, short), ground (arith, apart, long))

json_lines-one : (line : Text) → length (json_lines (line ∷ [])) ≤ 1
unfolding json_lines
json_lines-one line = ground arith

compose_sink_lines-Extends :
    (s t : Text) → Extends (compose_sink_lines s) (compose_sink_lines (s ++ t))
unfolding compose_sink_lines
compose_sink_lines-Extends s t =
    let (ls, last, rest, short, long) = split-append s t b'\n' in
    record {
      whole = json_lines ls;
      partial = json_lines (last ∷ []);
      more = json_lines rest;
      early_is = ap json_lines short ∙ json_lines-append ls (last ∷ []);
      one_partial = json_lines-one last;
      late_is = ap json_lines long ∙ json_lines-append ls rest;
    }

-- Every line fits in the scanner's buffer.
abbrev pub Fits : Text → Type 0
Fits out = All (λ l. byte_len l < max_line) (split out b'\n')

write_to-stdout :
    (stream : Stream) (p : Text) (s : SeparatedOutput) (cs : List Call)
    → separated_stdout (write_to stream p s) ++ written cs
      ≡ separated_stdout s ++ written (wrote stream p ∷ cs)
unfolding write_to write separated_stdout node_stdout string
write_to-stdout network_out p s cs = refl
write_to-stdout network_err p s cs = refl
write_to-stdout pipeline_err p s cs = refl
write_to-stdout pipeline_out p s cs = append_assoc s.pipeline.stdout.buf p (written cs)

Calls-stdout :
    (s s' : SeparatedOutput) (cs : List Call)
    → Calls s cs s'
    → separated_stdout s' ≡ separated_stdout s ++ written cs
Calls-stdout s s' [] (quiet) = sym (append-nil _)
Calls-stdout s s' (wrote stream p ∷ cs) (writes _ _ rest) =
    Calls-stdout (write_to stream p s) s' cs rest ∙ write_to-stdout stream p s cs
Calls-stdout s s' (polled _ ∷ cs) (polls _ _ rest) = Calls-stdout s s' cs rest

Calls-split :
    (s s' : SeparatedOutput) (xs ys : List Call)
    → Calls s (xs ++ ys) s'
    → (t : SeparatedOutput) × Calls s xs t × Calls t ys s'
Calls-split s s' [] ys cs = (s, quiet, cs)
Calls-split s s' (wrote stream p ∷ xs) ys (writes _ _ rest) =
    let (t, first, second) = Calls-split (write_to stream p s) s' xs ys rest in
    (t, writes stream p first, second)
Calls-split s s' (polled seen ∷ xs) ys (polls _ e rest) =
    let (t, first, second) = Calls-split s s' xs ys rest in (t, polls seen e first, second)

-- What a poll returned, and the calls behind it.
polled-is :
    (s s' : SeparatedOutput) (seen : List Text) (cs : List Call)
    → Calls s (polled seen ∷ cs) s'
    → (seen ≡ node_sink_lines (separated_stdout s)) × Calls s cs s'
unfolding separated_sink_lines separated_stdout
polled-is s s' seen cs (polls _ e rest) = (e, rest)

-- However the two processes' writes and a scenario's reads of `SeparatedNode.SinkLines` interleave, a
-- later read returns the records of an earlier one and then more, except that the last record of the
-- earlier one may have been read before its line was complete; no other stream than the pipeline's
-- stdout matters. Both times every line has to fit in the scanner's buffer.
pub polls_extend :
    (s s' : SeparatedOutput) (early late : List Text) (between after : List Call)
    → Calls s (polled early ∷ (between ++ (polled late ∷ after))) s'
    → Fits (separated_stdout s)
    → Fits (separated_stdout s ++ written between)
    → Extends early late
      × (separated_stdout s' ≡ (separated_stdout s ++ written between) ++ written after)
polls_extend s s' early late between after calls fits fits' =
    let (early_is, rest) = polled-is s s' early (between ++ (polled late ∷ after)) calls in
    let (t, first, second) = Calls-split s s' between (polled late ∷ after) rest in
    let (late_is, end) = polled-is t s' late after second in
    let t_is = Calls-stdout s t between first in
    let now : node_sink_lines (separated_stdout s) ≡ compose_sink_lines (separated_stdout s) =
      sink_lines_agree (separated_stdout s) fits in
    let later =
      ap node_sink_lines t_is ∙ sink_lines_agree (separated_stdout s ++ written between) fits' in
    let x = compose_sink_lines-Extends (separated_stdout s) (written between) in
    (
      record {
        whole = x.whole;
        partial = x.partial;
        more = x.more;
        early_is = early_is ∙ (now ∙ x.early_is);
        one_partial = x.one_partial;
        late_is = late_is ∙ (later ∙ x.late_is);
      },
      Calls-stdout t s' after end ∙ ap (λ o. o ++ written after) t_is,
    )
