-- ===== src/Sink/Agree.antt =====
-- internal/harness/node.go, internal/harness/compose.go: where the two readers agree.
use mathlib.Core.List.{reverse, reverse-append, cons-ne-nil}
use e2e.Base.{
  ◌≢◌, ℕ, ◌≤◌, ◌<◌, ◌≡◌, refl, ap, ◌∙◌, sym, List, [], ◌∷◌, ◌++◌, Text, All, lit, nat_eq, text_eq,
  trim_space, trim_left, is_space, has_prefix, arith, ◌⊎◌, inl, inr, Bool-cases,
}
use e2e.Base.Strings.{split}
use e2e.Sink.{
  json_lines, compose_sink_lines, node_sink_lines, scan_lines, drop_cr, byte_len, max_line,
}

append-ne-nil : (xs : List Text) (y : Text) (ys : List Text) → xs ++ y ∷ ys ≢ []
append-ne-nil [] y ys = cons-ne-nil y ys
append-ne-nil (x ∷ xs) y ys = cons-ne-nil x (xs ++ y ∷ ys)

-- A carriage return at the end of a text is trimmed with it.
trim_left-append_cr :
    (s : Text)
    → ((trim_left s ≡ []) × (trim_left (s ++ 13 ∷ []) ≡ []))
      ⊎ (trim_left (s ++ 13 ∷ []) ≡ trim_left s ++ 13 ∷ [])
unfolding trim_left is_space
trim_left-append_cr [] = ground arith
trim_left-append_cr (c ∷ s) = elim (Bool-cases (is_space c)) [
  | inl space ↦ rw space (trim_left-append_cr s)
  | inr letter ↦ inr (rw letter)
]

trim_left-cr : (s : Text) → trim_left (13 ∷ s) ≡ trim_left s
unfolding trim_left is_space
trim_left-cr s = ground arith

trim_space-append_cr : (s : Text) → trim_space (s ++ 13 ∷ []) ≡ trim_space s
unfolding trim_space
trim_space-append_cr s = elim (trim_left-append_cr s) [
  | inl (e, f) ↦ rw (e, f)
  | inr e ↦
      rw (e, reverse-append (trim_left s) (13 ∷ []))
        (ap reverse (trim_left-cr (reverse (trim_left s))))
]

drop_cr_cases : (s : Text) → (s ≡ drop_cr s) ⊎ (s ≡ drop_cr s ++ 13 ∷ [])
unfolding drop_cr
drop_cr_cases [] = inl refl
drop_cr_cases (c ∷ []) = ground arith
drop_cr_cases (c ∷ d ∷ s) = elim (drop_cr_cases (d ∷ s)) [
  | inl e ↦ inl (ap (◌∷◌ c) e)
  | inr e ↦ inr (ap (◌∷◌ c) e)
]

trim_space-drop_cr : (s : Text) → trim_space (drop_cr s) ≡ trim_space s
trim_space-drop_cr s = elim (drop_cr_cases s) [
  | inl e ↦ ap trim_space (sym e)
  | inr e ↦ sym (trim_space-append_cr (drop_cr s)) ∙ ap trim_space (sym e)
]

json_lines-cons :
    (l m : Text) (ls ms : List Text)
    → trim_space l ≡ trim_space m
    → json_lines ls ≡ json_lines ms
    → json_lines (l ∷ ls) ≡ json_lines (m ∷ ms)
unfolding json_lines
json_lines-cons l m ls ms e f = rw (e, f)

json_lines-empty : json_lines ([] ∷ []) ≡ []
unfolding json_lines trim_space trim_left has_prefix lit
json_lines-empty = refl

json_lines-nil : json_lines [] ≡ []
unfolding json_lines
json_lines-nil = refl

module _ (limit : ℕ) where
  scan_lines_step :
      (l : Text) (ls : List Text)
      → ls ≢ []
      → byte_len l < limit
      → scan_lines limit (l ∷ ls) ≡ drop_cr l ∷ scan_lines limit ls
  unfolding scan_lines
  scan_lines_step l [] h b = absurd (h refl)
  scan_lines_step l (m ∷ ls) h b = ground arith

  scan_lines_empty : scan_lines limit ([] ∷ []) ≡ []
  unfolding scan_lines
  scan_lines_empty = ground arith

  scan_lines_last :
      (l : Text) → byte_len l < limit → json_lines (scan_lines limit (l ∷ [])) ≡ json_lines (l ∷ [])
  unfolding scan_lines
  scan_lines_last [] b = rw scan_lines_empty (json_lines-nil ∙ sym json_lines-empty)
  scan_lines_last (c ∷ s) b =
      ground
        (arith, json_lines-cons (drop_cr (c ∷ s)) (c ∷ s) [] [] (trim_space-drop_cr (c ∷ s)) refl)

  json_lines-scan_lines :
      (ls : List Text)
      → All (λ l. byte_len l < limit) ls
      → json_lines (scan_lines limit ls) ≡ json_lines ls
  json_lines-scan_lines [] _ = unfold scan_lines in refl
  json_lines-scan_lines (l ∷ []) (b, _) = scan_lines_last l b
  json_lines-scan_lines (l ∷ m ∷ ls) (b, bs) =
      rw (scan_lines_step l (m ∷ ls) (cons-ne-nil m ls) b) (
        json_lines-cons (drop_cr l) l _ _ (trim_space-drop_cr l)
          (json_lines-scan_lines (m ∷ ls) bs))

  -- What stands before a line that does not fit.
  json_lines-scan_lines_cut :
      (before : List Text) (long : Text) (after : List Text)
      → All (λ l. byte_len l < limit) before
      → limit ≤ byte_len long
      → json_lines (scan_lines limit (before ++ long ∷ after)) ≡ json_lines before
  unfolding scan_lines
  json_lines-scan_lines_cut [] long [] _ b = ground arith
  json_lines-scan_lines_cut [] long (m ∷ after) _ b = ground arith
  json_lines-scan_lines_cut (l ∷ before) long after (s, ss) b =
      rw (scan_lines_step l (before ++ long ∷ after) (append-ne-nil before long after) s) (
        json_lines-cons (drop_cr l) l _ _ (trim_space-drop_cr l)
          (json_lines-scan_lines_cut before long after ss b))

-- If every line of the output fits in the scanner's buffer, the process reader and the compose
-- reader return the same records: the carriage returns that one of them drops are trimmed anyway.
pub sink_lines_agree :
    (out : Text)
    → All (λ l. byte_len l < max_line) (split out b'\n')
    → node_sink_lines out ≡ compose_sink_lines out
unfolding node_sink_lines compose_sink_lines
sink_lines_agree out fits = json_lines-scan_lines max_line (split out b'\n') fits

-- A line that does not fit ends the process reader's output: the records behind it are not
-- returned, however many there are, and nothing says so.
pub node_sink_lines_cut :
    (out : Text) (before : List Text) (long : Text) (after : List Text)
    → split out b'\n' ≡ before ++ long ∷ after
    → All (λ l. byte_len l < max_line) before
    → max_line ≤ byte_len long
    → node_sink_lines out ≡ json_lines before
unfolding node_sink_lines
node_sink_lines_cut out before long after e fits b =
    rw e (json_lines-scan_lines_cut max_line before long after fits b)
