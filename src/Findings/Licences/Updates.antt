-- ===== src/Findings/Licences/Updates.antt =====
-- internal/harness/parity_test.go: a map update that writes one key, exactly under a condition.
use e2e.Base.{
  ◌≡◌, ◌≢◌, refl, ap, sym, ◌∙◌, arith, ◌⊎◌, inl, inr, Option, some, none, List, [], ◌∷◌, ◌++◌, Text,
  lit, Any, text_eq, cut_prefix,
}
use e2e.Base.Maps.{Map, lookup, insert, lookup-insert_same, lookup-insert_other}
use e2e.Base.Strings.{cut_prefix_sound, cut_prefix-append}
use e2e.Findings.{fields_func, is_delimiter, licence_name, licence_tokens, licence_fields}

-- The update writes `id` at `name` if `P` holds, and leaves `name` alone if not.
pub record Writes (name id : Text) (P : Type 0) (u : Map Text → Map Text) : Type 0 where
  pub decided : P ⊎ (¬ P)
  pub writes : P → (out : Map Text) → lookup name (u out) ≡ some id
  pub leaves : ¬ P → (out : Map Text) → lookup name (u out) ≡ lookup name out

module _ {name id : Text} where
  pub Writes-never : (P : Type 0) → ¬ P → Writes name id P (λ out. out)
  Writes-never P no_p = record {
    decided = inr no_p;
    writes = λ p. absurd (no_p p);
    leaves = λ _ out. refl;
  }

  pub Writes-then :
      {P Q : Type 0} {u v : Map Text → Map Text}
      → Writes name id P u
      → Writes name id Q v
      → Writes name id (P ⊎ Q) (λ out. v (u out))
  Writes-then {P} {Q} {u} {v} f g = record {
    decided = elim f.decided [
      | inl p ↦ inl (inl p)
      | inr no_p ↦ elim g.decided [
        | inl q ↦ inl (inr q)
        | inr no_q ↦ inr (λ either. elim either [ inl p ↦ no_p p | inr q ↦ no_q q ])
      ]
    ];
    writes = λ either out. elim g.decided [
      | inl q ↦ g.writes q (u out)
      | inr no_q ↦
          g.leaves no_q (u out) ∙ f.writes (elim either [ inl p ↦ p | inr q ↦ absurd (no_q q) ]) out
    ];
    leaves = λ neither out.
        g.leaves (λ q. neither (inr q)) (u out) ∙ f.leaves (λ p. neither (inl p)) out;
  }

  pub Writes-iff :
      {P Q : Type 0} {u : Map Text → Map Text}
      → (P → Q)
      → (Q → P)
      → Writes name id P u
      → Writes name id Q u
  Writes-iff to from f = record {
    decided = elim f.decided [ inl p ↦ inl (to p) | inr no_p ↦ inr (λ q. no_p (from q)) ];
    writes = λ q. f.writes (from q);
    leaves = λ no_q. f.leaves (λ p. no_q (to p));
  }

-- The token is the path of the scenario.
abbrev pub IsPath : Text → Text → Type 0
IsPath name tok = (tok ≡ lit "scenarios/" ++ name) × (name ≢ [])

-- The field has the path of the scenario among its tokens.
abbrev pub Lists : Text → Text → Type 0
Lists name field = Any (IsPath name) (fields_func is_delimiter field)

module _ (name id : Text) where
  insert-Writes : (key : Text) → Writes name id (key ≡ name) (insert key id)
  insert-Writes key = record {
    decided = elim (text_eq.dec key name) [ yes same ↦ inl same | no apart ↦ inr apart ];
    writes = λ same out.
        ap (λ k. lookup k (insert key id out)) (sym same) ∙ lookup-insert_same key id out;
    leaves = λ apart out. lookup-insert_other key name id out apart;
  }

  -- What a token's name is, by the prefix that was cut.
  token_name :
      (tok rest : Text)
      → cut_prefix tok (lit "scenarios/") ≡ some rest
      → tok ≡ lit "scenarios/" ++ name
      → rest ≡ name
  token_name tok rest cut is_path =
      let again : some rest ≡ some name =
        sym cut
        ∙ (ap (λ t. cut_prefix t (lit "scenarios/")) is_path
            ∙ cut_prefix-append (lit "scenarios/") name) in
      cc again

  licence_name-Writes :
      (tok : Text) (o : Option Text)
      → cut_prefix tok (lit "scenarios/") ≡ o
      → Writes name id (IsPath name tok) (licence_name id o)
  licence_name-Writes tok none cut = Writes-never (IsPath name tok) (λ p. absurd (
      ground (
        arith,
        cut,
        ap (λ t. cut_prefix t (lit "scenarios/")) p.0,
        cut_prefix-append (lit "scenarios/") name,
      )))
  licence_name-Writes tok (some []) cut =
      Writes-never (IsPath name tok) (λ p. p.1 (sym (token_name tok [] cut p.0)))
  licence_name-Writes tok (some (c ∷ rest)) cut =
      Writes-iff
        (λ same. (
          cut_prefix_sound tok (lit "scenarios/") (c ∷ rest) cut
              ∙ ap (λ n. lit "scenarios/" ++ n) same,
          λ gone. absurd (ground (arith, same, gone)),
        ))
        (λ p. token_name tok (c ∷ rest) cut p.0) (insert-Writes (c ∷ rest))

  licence_tokens-Writes :
      (toks : List Text) → Writes name id (Any (IsPath name) toks) (licence_tokens id toks)
  unfolding licence_tokens
  licence_tokens-Writes [] = Writes-never ⊥ (λ p. p)
  licence_tokens-Writes (tok ∷ toks) =
      Writes-then (licence_name-Writes tok (cut_prefix tok (lit "scenarios/")) refl)
        (licence_tokens-Writes toks)

  pub licence_fields-Writes :
      (fs : List Text) → Writes name id (Any (Lists name) fs) (licence_fields id fs)
  unfolding licence_fields
  licence_fields-Writes [] = Writes-never ⊥ (λ p. p)
  licence_fields-Writes (f ∷ fs) =
      Writes-then (licence_tokens-Writes (fields_func is_delimiter f)) (licence_fields-Writes fs)
