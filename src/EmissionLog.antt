-- ===== src/EmissionLog.antt =====
-- internal/harness/emissionlog.go: an emission log read against what a consumer received.
pub mod Views
pub mod Unlogged
pub mod Errors
use e2e.Base.{ℕ, ◌+◌, Bool, true, List, [], ◌∷◌, ◌++◌, Text, if◌then◌else◌}
use e2e.Base.Order.{sort_strings}
use e2e.Base.Maps.{Map, insert, flagged}

-- The anonymous struct that a payload is unmarshalled into.
pub record Emission : Type 0 where
  pub credential_hash : Text
  pub sequence_no : Text

pub record EmissionReconciliation : Type 0 where
  pub sequences : List Text
  pub lost : List Text
  pub unlogged : List Text

-- What `json.Unmarshal` gives for one payload.
pub data Decoded : Type 0 where
  good : Emission → Decoded
  bad : Text → Decoded

-- `emission record %d: %w`, by the position in the payloads and the decoder's message.
pub data Reconciled : Type 0 where
  reconciled : EmissionReconciliation → Reconciled
  malformed : ℕ → Text → Reconciled

-- The loop's variables: the result so far and the hashes seen in the log.
pub record Scan : Type 0 where
  pub out : EmissionReconciliation
  pub logged : Map Bool

pub data Scanned : Type 0 where
  scanned : Scan → Scanned
  stopped : ℕ → Text → Scanned

abbrev pub start : Scan
start = record { out = record { sequences = []; lost = []; unlogged = [] }; logged = [] }

-- The body of the first loop, for a record that decoded.
unfoldable pub note_record : Map Bool → Emission → Scan → Scan
note_record delivered em s = record {
  out = record {
    sequences = s.out.sequences ++ (em.sequence_no ∷ []);
    lost =
        if flagged em.credential_hash delivered
        then s.out.lost
        else s.out.lost ++ (em.sequence_no ∷ []);
    unlogged = s.out.unlogged;
  };
  logged = insert em.credential_hash true s.logged;
}

module _ {P : Type 0} (unmarshal : P → Decoded) (delivered : Map Bool) where
  -- `for i, payload := range payloads`
  unfoldable pub scan_records : ℕ → List P → Scan → Scanned
  scan_records i [] s = scanned s
  scan_records i (payload ∷ payloads) s = elim (unmarshal payload) [
    | bad e ↦ stopped i e
    | good em ↦ scan_records (i + 1) payloads (note_record delivered em s)
  ]

-- `for h := range delivered`, over the keys in the order of the range.
unfoldable pub collect_unlogged : Map Bool → List Text → List Text
collect_unlogged logged [] = []
collect_unlogged logged (h ∷ order) =
    let rest = collect_unlogged logged order in if flagged h logged then rest else h ∷ rest

unfoldable pub finish : List Text → Scanned → Reconciled
unfolding collect_unlogged
finish order (stopped i e) = malformed i e
finish order (scanned s) =
    reconciled (record s.out { unlogged = sort_strings (collect_unlogged s.logged order) })

-- `ReconcileEmissionLog`. `order` is the order in which the runtime ranges over `delivered`.
unfoldable pub reconcile_emission_log :
    {P : Type 0} → (P → Decoded) → List P → Map Bool → List Text → Reconciled
unfolding finish
reconcile_emission_log unmarshal payloads delivered order =
    finish order (scan_records unmarshal delivered 0 payloads start)
