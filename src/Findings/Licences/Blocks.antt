-- ===== src/Findings/Licences/Blocks.antt =====
-- internal/harness/parity_test.go: what `openComposeDeferrals` reads from a register.
use e2e.Base.{
  ◌≡◌, ◌↔◌, refl, ap, sym, ◌∙◌, arith, ◌⊎◌, inl, inr, Bool, true, false, not, some, List, [], ◌∷◌,
  Text, lit, All, if◌then◌else◌, has_prefix,
}
use e2e.Base.Maps.{Map, lookup}
use e2e.Base.Strings.{split}
use e2e.Findings.{id_of, scan_block, read_block, read_blocks, blocks_of, open_compose_deferrals}
use e2e.Findings.Licences.{body, LastSaysOpen, Defers, scan-is_open, scan-deferrals}
use e2e.Findings.Licences.Updates.{Writes, Writes-never, Writes-iff, Lists, licence_fields-Writes}

-- The block is a finding whose last status line above the next heading says `open` and nothing else,
-- and a deferral line above that heading names the scenario's path.
pub record Licenses (name block : Text) : Type 0 where
  pub is_finding : has_prefix (id_of block) (lit "E2E-F-") ≡ true
  pub is_open : LastSaysOpen (body (split block b'\n'))
  pub is_deferred : Defers (Lists name) (body (split block b'\n'))

-- The last block that licenses the scenario has this id.
abbrev pub LastLicence : Text → Text → List Text → Type 0
LastLicence name id [] = ⊥
LastLicence name id (block ∷ blocks) =
    LastLicence name id blocks
    ⊎ (Licenses name block × (id_of block ≡ id) × All (λ b. ¬ Licenses name b) blocks)

Writes-if :
    {name id : Text} {P : Type 0} {u : Map Text → Map Text} (b : Bool)
    → Writes name id P u
    → Writes name id ((b ≡ true) × P) (λ out. if not b then out else u out)
Writes-if true f = Writes-iff (λ p. (refl, p)) (λ p. p.1) f
Writes-if {P} false f = Writes-never ((false ≡ true) × P) (λ p. absurd (ground (arith, p.0)))

module _ (name : Text) where
  read_block-Writes :
      (block : Text) → Writes name (id_of block) (Licenses name block) (read_block block)
  unfolding read_block scan_block
  read_block-Writes block =
      let st = scan_block block in
      let opened = scan-is_open (split block b'\n') (record { is_open = false; deferrals = [] }) in
      let deferred =
        scan-deferrals (Lists name) (split block b'\n')
          (record { is_open = false; deferrals = [] }) in
      Writes-iff
        (λ p. record {
          is_finding = p.0;
          is_open = elim (opened.0 p.1.0) [ inl o ↦ o | inr (_, e) ↦ absurd (ground (arith, e)) ];
          is_deferred = elim (deferred.0 p.1.1) [ inl n ↦ absurd n | inr d ↦ d ];
        })
        (λ l. (l.is_finding, (opened.1 (inl l.is_open), deferred.1 (inr l.is_deferred))))
        (Writes-if (has_prefix (id_of block) (lit "E2E-F-"))
          (Writes-if st.is_open (licence_fields-Writes name (id_of block) st.deferrals)))

  read_blocks-LastLicence :
      (id : Text) (blocks : List Text) (out : Map Text)
      → (lookup name (read_blocks blocks out) ≡ some id) ↔ (
          LastLicence name id blocks
          ⊎ (All (λ b. ¬ Licenses name b) blocks × (lookup name out ≡ some id)))
  unfolding read_blocks
  read_blocks-LastLicence id [] out = ground arith
  read_blocks-LastLicence id (block ∷ blocks) out =
      let f = read_block-Writes block in
      let rest = read_blocks-LastLicence id blocks (read_block block out) in
      elim f.decided [
        | inl l ↦
            let wrote = f.writes l out in
            (
              λ e. elim (rest.0 e) [
                | inl last ↦ inl (inl last)
                | inr (others, found) ↦
                    let both : some (id_of block) ≡ some id = sym wrote ∙ found in
                    inl (inr (l, cc both, others))
              ],
              λ last. rest.1 (elim last [
                | inl (inl later) ↦ inl later
                | inl (inr (_, same, others)) ↦ inr (others, wrote ∙ ap some same)
                | inr ((no_l, _), _) ↦ absurd (no_l l)
              ]),
            )
        | inr no_l ↦
            let left = f.leaves no_l out in
            (
              λ e. elim (rest.0 e) [
                | inl last ↦ inl (inl last)
                | inr (others, found) ↦ inr ((no_l, others), sym left ∙ found)
              ],
              λ last. rest.1 (elim last [
                | inl (inl later) ↦ inl later
                | inl (inr (l, _, _)) ↦ absurd (no_l l)
                | inr ((_, others), found) ↦ inr (others, left ∙ found)
              ]),
            )
      ]

  pub open_compose_deferrals_iff :
      (md id : Text)
      → (lookup name (open_compose_deferrals md) ≡ some id) ↔ LastLicence name id (blocks_of md)
  unfolding open_compose_deferrals lookup
  open_compose_deferrals_iff md id =
      let all = read_blocks-LastLicence id (blocks_of md) [] in
      (
        λ e. elim (all.0 e) [
          | inl last ↦ last
          | inr (_, none_is) ↦ absurd (ground (arith, none_is))
        ],
        λ last. all.1 (inl last),
      )
