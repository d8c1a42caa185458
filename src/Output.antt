-- ===== src/Output.antt =====
-- internal/harness/node.go and internal/harness/separated.go: the output of a node's processes, which
-- is written while a scenario reads it.
pub mod Polls
use e2e.Base.{ℕ, ◌≡◌, List, [], ◌∷◌, ◌++◌, Text}
use e2e.Sink.{byte_len, node_sink_lines}

-- `LogBuffer`. Its lock makes each call of the two methods one step.
pub record LogBuffer : Type 0 where
  pub buf : Text

-- `LogBuffer.Write`, with the number of bytes that it returns.
unfoldable pub write : Text → LogBuffer → ℕ × LogBuffer
unfolding byte_len
write p b = (byte_len p, record { buf = b.buf ++ p })

-- `LogBuffer.String`
unfoldable pub string : LogBuffer → Text
string b = b.buf

-- The buffers of a `Node`.
pub record NodeOutput : Type 0 where
  pub stdout : LogBuffer
  pub stderr : LogBuffer

-- `Node.Stdout` and `Node.Stderr`
unfoldable pub node_stdout : NodeOutput → Text
unfolding string
node_stdout n = string n.stdout

unfoldable pub node_stderr : NodeOutput → Text
unfolding string
node_stderr n = string n.stderr

-- The output of the two processes of a `SeparatedNode`.
pub record SeparatedOutput : Type 0 where
  pub network : NodeOutput
  pub pipeline : NodeOutput

-- `SeparatedNode.Stdout`, `SeparatedNode.Stderr` and `SeparatedNode.SinkLines`
unfoldable pub separated_stdout : SeparatedOutput → Text
unfolding node_stdout
separated_stdout s = node_stdout s.pipeline

unfoldable pub separated_stderr : SeparatedOutput → Text
unfolding node_stderr
separated_stderr s = node_stderr s.pipeline

unfoldable pub separated_sink_lines : SeparatedOutput → List Text
unfolding node_stdout node_sink_lines
separated_sink_lines s = node_sink_lines (node_stdout s.pipeline)

-- A stream of one of the two processes.
pub data Stream : Type 0 where
  network_out network_err pipeline_out pipeline_err : Stream

-- What the copier of a stream does with a chunk.
unfoldable pub write_to : Stream → Text → SeparatedOutput → SeparatedOutput
unfolding write
write_to network_out p s = record s {
  network = record s.network { stdout = (write p s.network.stdout).1 };
}
write_to network_err p s = record s {
  network = record s.network { stderr = (write p s.network.stderr).1 };
}
write_to pipeline_out p s = record s {
  pipeline = record s.pipeline { stdout = (write p s.pipeline.stdout).1 };
}
write_to pipeline_err p s = record s {
  pipeline = record s.pipeline { stderr = (write p s.pipeline.stderr).1 };
}

-- One call on the buffers: a chunk that a process wrote, or the records that a scenario read.
pub data Call : Type 0 where
  wrote : Stream → Text → Call
  polled : List Text → Call

-- The calls in the order in which the locks let them in.
pub data Calls : SeparatedOutput → List Call → SeparatedOutput → Type 0 where
  quiet : {s : SeparatedOutput} → Calls s [] s
  writes :
      {s s' : SeparatedOutput} {cs : List Call} (stream : Stream) (p : Text)
      → Calls (write_to stream p s) cs s'
      → Calls s (wrote stream p ∷ cs) s'
  polls :
      {s s' : SeparatedOutput} {cs : List Call} (seen : List Text)
      → seen ≡ separated_sink_lines s
      → Calls s cs s'
      → Calls s (polled seen ∷ cs) s'
