-- ===== src/EmissionLog/Unlogged.antt =====
-- internal/harness/emissionlog.go: the view that follows the consumer, Unlogged.
use mathlib.Core.Logic.{◌↔◌}
use e2e.Base.{
  Bool-cases, inl, inr, refl, ap, ◌≡◌, Bool, true, false, List, [], ◌∷◌, Text, Any, ◌⊎◌, arith,
  if◌then◌else◌, ◌==◌, text_eq,
}
use e2e.Base.Maps.{Map, flagged, insert, lookup-insert}
use mathlib.Core.List.{Perm, Permᴰ}
use mathlib.Core.Logic.{∥∥₁_map}
use e2e.Base.Order.{sort_strings_of_perm, sort_strings-IsSorted, Any-sort_strings, IsSorted}
use mathlib.Core.List.Permᴰ
use e2e.EmissionLog.{
  EmissionReconciliation, Decoded, reconciled, start, scan_records, Scanned, scanned, stopped,
  finish, reconcile_emission_log, Emission, Scan, note_record, collect_unlogged,
}
use e2e.EmissionLog.Views.{DecodesTo, report, reconcile_decoded, note_all}

-- A text of the list is `h`.
abbrev pub Has : Text → List Text → Type 0
Has h = Any (λ k. k ≡ h)

-- A record of the log carries the hash `h`.
abbrev pub Logs : Text → List Emission → Type 0
Logs h = Any (λ em. em.credential_hash ≡ h)

flagged-insert :
    (k j : Text) (m : Map Bool)
    → flagged j (insert k true m) ≡ (if k == j then true else flagged j m)
unfolding flagged
flagged-insert k j m = ground (arith, lookup-insert k j true m)

flagged-note_all :
    (delivered : Map Bool) (h : Text) (ems : List Emission) (s : Scan)
    → (flagged h (note_all delivered ems s).logged ≡ true)
      ↔ ((flagged h s.logged ≡ true) ⊎ Logs h ems)
unfolding note_all note_record
flagged-note_all delivered h [] s = (λ e. inl e, λ e. ground arith)
flagged-note_all delivered h (em ∷ ems) s = ground (
  arith,
  flagged-note_all delivered h ems (note_record delivered em s),
  flagged-insert em.credential_hash h s.logged,
)

Has-collect_unlogged :
    (logged : Map Bool) (h : Text) (order : List Text)
    → Has h (collect_unlogged logged order) ↔ (Has h order × (flagged h logged ≡ false))
unfolding collect_unlogged
Has-collect_unlogged logged h [] = (λ e. absurd e, λ e. e.0)
Has-collect_unlogged logged h (k ∷ order) = ground (arith, Has-collect_unlogged logged h order)

nothing_logged : (h : Text) → flagged h start.logged ≡ false
unfolding flagged
nothing_logged h = refl

-- Keeping what the log lacks commutes with reordering.
collect_unlogged-Permᴰ :
    (logged : Map Bool) {order order' : List Text}
    → Permᴰ order order'
    → Permᴰ (collect_unlogged logged order) (collect_unlogged logged order')
unfolding collect_unlogged
collect_unlogged-Permᴰ logged Permᴰ.nil = Permᴰ.nil
collect_unlogged-Permᴰ logged (Permᴰ.cons {b = k} e p) =
    rw e (elim (Bool-cases (flagged k logged)) [
      | inl seen ↦ rw seen (collect_unlogged-Permᴰ logged p)
      | inr fresh ↦ rw fresh (Permᴰ.cons refl (collect_unlogged-Permᴰ logged p))
    ])
collect_unlogged-Permᴰ logged (Permᴰ.swap {a' = k} {b' = j} {l = l} e f) =
    rw (e, f)
      (elim (Bool-cases (flagged k logged)) [
        | inl seen ↦ rw seen (Permᴰ.refl _)
        | inr fresh ↦ rw fresh (elim (Bool-cases (flagged j logged)) [
          | inl seen ↦ rw seen (Permᴰ.refl _)
          | inr new ↦ rw new (Permᴰ.swap refl refl)
        ])
      ])
collect_unlogged-Permᴰ logged (Permᴰ.trans p q) =
    Permᴰ.trans (collect_unlogged-Permᴰ logged p) (collect_unlogged-Permᴰ logged q)

finish-perm :
    {order order' : List Text}
    → Perm order order'
    → (r : Scanned) → finish order r ≡ finish order' r
unfolding finish
finish-perm p (stopped i e) = refl
finish-perm p (scanned s) =
    ap (λ u. reconciled (record s.out { unlogged = u }))
      (sort_strings_of_perm (∥∥₁_map p (collect_unlogged-Permᴰ s.logged)))

unlogged_iff :
    (delivered : Map Bool) (order : List Text) (ems : List Emission) (h : Text)
    → Has h (report delivered order ems).unlogged ↔ (Has h order × ¬ Logs h ems)
unfolding report
unlogged_iff delivered order ems h = ground (
  arith,
  Any-sort_strings (λ k. k ≡ h) (collect_unlogged (note_all delivered ems start).logged order),
  Has-collect_unlogged (note_all delivered ems start).logged h order,
  flagged-note_all delivered h ems start,
  nothing_logged h,
)

module _ {P : Type 0} (unmarshal : P → Decoded) (delivered : Map Bool) where
  -- If every payload decodes, Unlogged is sorted, and a hash stands in it exactly if the range over
  -- the consumer's map visits it and no record of the log carries it.
  pub reconcile_unlogged :
      (order : List Text) (ps : List P) (ems : List Emission)
      → DecodesTo unmarshal ps ems
      → (r : EmissionReconciliation) × (reconcile_emission_log unmarshal ps delivered order
          ≡ reconciled r)
        × IsSorted r.unlogged
        × ((h : Text) → Has h r.unlogged ↔ (Has h order × ¬ Logs h ems))
  unfolding report
  reconcile_unlogged order ps ems d = (
    report delivered order ems,
    reconcile_decoded unmarshal delivered order ps ems d,
    sort_strings-IsSorted _,
    λ h. unlogged_iff delivered order ems h,
  )

  -- Go ranges over a map in a random order. Whatever the order, the run has the same result, the
  -- error result included.
  pub reconcile_order :
      (order order' : List Text) (ps : List P)
      → Perm order order'
      → reconcile_emission_log unmarshal ps delivered order
        ≡ reconcile_emission_log unmarshal ps delivered order'
  unfolding reconcile_emission_log
  reconcile_order order order' ps p = finish-perm p (scan_records unmarshal delivered 0 ps start)
