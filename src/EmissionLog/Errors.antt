-- ===== src/EmissionLog/Errors.antt =====
-- internal/harness/emissionlog.go: a payload that does not parse.
use mathlib.Core.Logic.{◌↔◌}
use e2e.Base.{
  inl, inr, ◌⊎◌, refl, ℕ, zero, suc, ◌+◌, ◌≡◌, ap, ◌∙◌, Bool, List, [], ◌∷◌, Text, arith,
}
use e2e.Base.Maps.{Map}
use e2e.EmissionLog.{
  Scanned, stopped, finish, scanned, malformed, Emission, Decoded, good, bad, Scan, start,
  note_record, scan_records, reconcile_emission_log,
}

-- The first payload that does not decode stands at this position, and the decoder says this of it.
abbrev pub FirstBad : {P : Type 0} → (P → Decoded) → List P → ℕ → Text → Type 0
FirstBad unmarshal [] i e = ⊥
FirstBad unmarshal (p ∷ ps) zero e = unmarshal p ≡ bad e
FirstBad unmarshal (p ∷ ps) (suc i) e =
    ((em : Emission) × (unmarshal p ≡ good em)) × FirstBad unmarshal ps i e

Decoded-cases : (d : Decoded) → ((em : Emission) × (d ≡ good em)) ⊎ ((m : Text) × (d ≡ bad m))
Decoded-cases (good em) = inl (em, refl)
Decoded-cases (bad m) = inr (m, refl)

finish-eq-malformed :
    (order : List Text) (r : Scanned) (i : ℕ) (e : Text)
    → finish order r ≡ malformed i e
    → r ≡ stopped i e
unfolding finish
finish-eq-malformed order (scanned s) i e h = cc
finish-eq-malformed order (stopped j m) i e h = cc

module _ {P : Type 0} (unmarshal : P → Decoded) (delivered : Map Bool) where
  scan_records_bad :
      (ps : List P) (i k : ℕ) (e : Text) (s : Scan)
      → FirstBad unmarshal ps k e
      → scan_records unmarshal delivered i ps s ≡ stopped (i + k) e
  unfolding scan_records
  scan_records_bad [] i k e s h = absurd h
  scan_records_bad (p ∷ ps) i zero e s h = ground arith
  scan_records_bad (p ∷ ps) i (suc k) e s ((em, eq), h) =
      rw (eq, scan_records)
        (scan_records_bad ps (i + 1) k e (note_record delivered em s) h
          ∙ ap (λ n. stopped n e) (omega arith))

  scan_records_stopped :
      (ps : List P) (i j : ℕ) (e : Text) (s : Scan)
      → scan_records unmarshal delivered i ps s ≡ stopped j e
      → (k : ℕ) × (j ≡ i + k) × FirstBad unmarshal ps k e
  unfolding scan_records
  scan_records_stopped [] i j e s h = cc
  scan_records_stopped (p ∷ ps) i j e s h = elim (Decoded-cases (unmarshal p)) [
    | inl (em, q) ↦
        let (k, a, b) =
          scan_records_stopped ps (i + 1) j e (note_record delivered em s)
            (rw (q, scan_records) at h) in
        (suc k, omega arith, ((em, q), b))
    | inr (m, q) ↦ (0, ground arith, ground arith)
  ]

  -- The run fails exactly if some payload does not decode, with the position of the first such
  -- payload and the decoder's message for it. No part of a result comes with the error.
  pub reconcile_malformed :
      (order : List Text) (ps : List P) (i : ℕ) (e : Text)
      → (reconcile_emission_log unmarshal ps delivered order ≡ malformed i e)
        ↔ FirstBad unmarshal ps i e
  unfolding reconcile_emission_log
  reconcile_malformed order ps i e = (
    λ h.
        let (k, at, found) =
          scan_records_stopped ps 0 i e start (finish-eq-malformed order _ i e h) in
        let same : k ≡ i = omega arith in rw same at found,
    λ found.
        rw (scan_records_bad ps 0 i e start found, finish) (ap (λ n. malformed n e) (omega arith)),
  )
