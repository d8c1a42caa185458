-- ===== src/EmissionLog/Views.antt =====
-- internal/harness/emissionlog.go: the two views that follow the log, Sequences and Lost.
use e2e.Base.{
  ℕ, ◌+◌, ◌≡◌, refl, ap, ◌∙◌, Bool, not, List, [], ◌∷◌, ◌++◌, map, append-nil, append_assoc, Text,
  keep, Bool-cases, inl, inr,
}
use e2e.Base.Order.{sort_strings}
use e2e.Base.Maps.{Map, flagged}
use e2e.EmissionLog.{
  Emission, EmissionReconciliation, Decoded, good, reconciled, Scan, scanned, start, note_record,
  scan_records, collect_unlogged, finish, reconcile_emission_log,
}

-- The payloads decode, one after the other, to these records.
abbrev pub DecodesTo : {P : Type 0} → (P → Decoded) → List P → List Emission → Type 0
DecodesTo unmarshal [] [] = Unit
DecodesTo unmarshal (p ∷ ps) (em ∷ ems) = (unmarshal p ≡ good em) × DecodesTo unmarshal ps ems
DecodesTo unmarshal _ _ = ⊥

-- A record whose credential never reached the consumer.
abbrev pub undelivered : Map Bool → Emission → Bool
undelivered delivered em = not (flagged em.credential_hash delivered)

-- All records of the log, one after the other.
unfoldable pub note_all : Map Bool → List Emission → Scan → Scan
note_all delivered [] s = s
note_all delivered (em ∷ ems) s = note_all delivered ems (note_record delivered em s)

module _ {P : Type 0} (unmarshal : P → Decoded) (delivered : Map Bool) where
  pub scan_records_decoded :
      (i : ℕ) (ps : List P) (ems : List Emission) (s : Scan)
      → DecodesTo unmarshal ps ems
      → scan_records unmarshal delivered i ps s ≡ scanned (note_all delivered ems s)
  unfolding scan_records note_all
  scan_records_decoded i [] [] s d = refl
  scan_records_decoded i [] (em ∷ ems) s d = absurd d
  scan_records_decoded i (p ∷ ps) [] s d = absurd d
  scan_records_decoded i (p ∷ ps) (em ∷ ems) s (e, d) =
      rw (e, scan_records) (scan_records_decoded (i + 1) ps ems (note_record delivered em s) d)

module _ (delivered : Map Bool) where
  pub sequences-note_all :
      (ems : List Emission) (s : Scan)
      → (note_all delivered ems s).out.sequences ≡ s.out.sequences ++ map (λ em. em.sequence_no) ems
  unfolding note_all note_record
  sequences-note_all [] s = rw append-nil
  sequences-note_all (em ∷ ems) s =
      sequences-note_all ems (note_record delivered em s) ∙ rw append_assoc

  pub lost-note_all :
      (ems : List Emission) (s : Scan)
      → (note_all delivered ems s).out.lost
        ≡ s.out.lost ++ map (λ em. em.sequence_no) (keep (undelivered delivered) ems)
  unfolding note_all note_record keep
  lost-note_all [] s = rw append-nil
  lost-note_all (em ∷ ems) s = elim (Bool-cases (flagged em.credential_hash delivered)) [
    | inl got ↦ lost-note_all ems (note_record delivered em s) ∙ rw (got, keep)
    | inr missed ↦
        lost-note_all ems (note_record delivered em s) ∙ rw (missed, keep) (rw append_assoc)
  ]

-- What the run gives for these records.
unfoldable pub report : Map Bool → List Text → List Emission → EmissionReconciliation
report delivered order ems =
    let s = note_all delivered ems start in
    record s.out { unlogged = sort_strings (collect_unlogged s.logged order) }

module _ {P : Type 0} (unmarshal : P → Decoded) (delivered : Map Bool) (order : List Text) where
  pub reconcile_decoded :
      (ps : List P) (ems : List Emission)
      → DecodesTo unmarshal ps ems
      → reconcile_emission_log unmarshal ps delivered order
        ≡ reconciled (report delivered order ems)
  unfolding reconcile_emission_log report
  reconcile_decoded ps ems d =
      ap (finish order) (scan_records_decoded unmarshal delivered 0 ps ems start d)

  -- If every payload decodes, the run succeeds. Sequences holds the sequence number of every record
  -- in log order, and Lost those of the records whose hash the consumer does not hold, in log
  -- order. Neither is keyed by the hash, so a repeated hash or number drops nothing.
  pub reconcile_views :
      (ps : List P) (ems : List Emission)
      → DecodesTo unmarshal ps ems
      → (r : EmissionReconciliation) × (reconcile_emission_log unmarshal ps delivered order
          ≡ reconciled r)
        × (r.sequences ≡ map (λ em. em.sequence_no) ems)
        × (r.lost ≡ map (λ em. em.sequence_no) (keep (undelivered delivered) ems))
  unfolding report
  reconcile_views ps ems d = (
    report delivered order ems,
    reconcile_decoded ps ems d,
    sequences-note_all delivered ems start,
    lost-note_all delivered ems start,
  )
