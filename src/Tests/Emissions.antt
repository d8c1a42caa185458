-- ===== src/Tests/Emissions.antt =====
-- internal/harness/emissionlog_test.go: its table, and the theorems of EmissionLog at concrete logs.
use mathlib.Core.List.{Perm, Permᴰ}
use e2e.Base.{
  String, ◌≡◌, ◌↔◌, refl, Bool, true, List, [], ◌∷◌, map, Text, lit, keep, ℕ_discrete, text_eq,
  text_dec,
}
use e2e.Base.Order.{sort_strings, text_le, IsSorted}
use e2e.Base.Maps.{Map, insert, flagged}
use e2e.EmissionLog.{
  Emission, EmissionReconciliation, Decoded, good, bad, reconciled, malformed,
  reconcile_emission_log, scan_records, note_record,
}
use e2e.EmissionLog.Views.{DecodesTo, undelivered, reconcile_views}
use e2e.EmissionLog.Unlogged.{Has, Logs, reconcile_unlogged, reconcile_order}
use e2e.EmissionLog.Errors.{FirstBad, reconcile_malformed}

abbrev em : String → String → Emission
em hash seq = record { credential_hash = lit hash; sequence_no = lit seq }

-- A payload is what its decoding gives.
abbrev decode : Decoded → Decoded
decode p = p

abbrev consumer : Map Bool
consumer = (lit "h1", true) ∷ (lit "h4", true) ∷ (lit "hGhost", true) ∷ (lit "h5", true) ∷ []

abbrev order : List Text
order = lit "hGhost" ∷ lit "h5" ∷ lit "h1" ∷ lit "h4" ∷ []

-- The forked log: the last record starts the sequence again.
abbrev log : List Emission
log = em "h1" "1" ∷ em "h2" "2" ∷ em "h3" "3" ∷ em "h4" "4" ∷ em "h5" "1" ∷ []

abbrev payloads : List Decoded
payloads = map good log

forked :
    reconcile_emission_log decode payloads consumer order
    ≡ reconciled (record {
      sequences = lit "1" ∷ lit "2" ∷ lit "3" ∷ lit "4" ∷ lit "1" ∷ [];
      lost = lit "2" ∷ lit "3" ∷ [];
      unlogged = lit "hGhost" ∷ [];
    })
unfolding reconcile_emission_log scan_records note_record flagged insert sort_strings text_le lit
    text_eq text_dec ℕ_discrete
forked = refl

log_decodes : DecodesTo decode payloads log
log_decodes = (refl, (refl, (refl, (refl, (refl, tt)))))

reconcile_views_example :
    (r : EmissionReconciliation) × (reconcile_emission_log decode payloads consumer order
      ≡ reconciled r)
    × (r.sequences ≡ map (λ em. em.sequence_no) log)
    × (r.lost ≡ map (λ em. em.sequence_no) (keep (undelivered consumer) log))
reconcile_views_example = reconcile_views decode consumer order payloads log log_decodes

reconcile_unlogged_example :
    (r : EmissionReconciliation) × (reconcile_emission_log decode payloads consumer order
      ≡ reconciled r)
    × IsSorted r.unlogged
    × ((h : Text) → Has h r.unlogged ↔ (Has h order × ¬ Logs h log))
reconcile_unlogged_example = reconcile_unlogged decode consumer order payloads log log_decodes

abbrev torn : List Decoded
torn = good (em "h1" "1") ∷ bad (lit "unexpected end") ∷ good (em "h2" "2") ∷ []

reconcile_malformed_example :
    (reconcile_emission_log decode torn consumer order ≡ malformed 1 (lit "unexpected end"))
    ↔ FirstBad decode torn 1 (lit "unexpected end")
reconcile_malformed_example =
    reconcile_malformed decode consumer order torn 1 (lit "unexpected end")

swapped : Perm (lit "h1" ∷ lit "h4" ∷ []) (lit "h4" ∷ lit "h1" ∷ [])
swapped = ∣ Permᴰ.swap refl refl ∣₁

reconcile_order_example :
    reconcile_emission_log decode torn consumer (lit "h1" ∷ lit "h4" ∷ [])
    ≡ reconcile_emission_log decode torn consumer (lit "h4" ∷ lit "h1" ∷ [])
reconcile_order_example = reconcile_order decode consumer _ _ torn swapped
