-- ===== src/Config/Pieces.antt =====
-- internal/harness/config.go: which pieces stand in the text of a rendered config.
use mathlib.Core.List.{Perm}
use e2e.Base.{
  ◌≡◌, ◌≢◌, refl, ap, sym, List, [], ◌∷◌, ◌++◌, append_assoc, append-nil, Text, lit, arith, Any,
  inl, inr, text_eq,
}
use e2e.Base.Order.{sort_strings_of_perm}
use e2e.Base.Maps.{Map}
use e2e.Config.{
  NodeConfig, Parsers, render, registry_block, registry_lines, concat, endpoint_line, loops_section,
}
use e2e.Config.Quote.{quote}

-- The text holds this piece.
abbrev pub Contains : Text → Text → Type 0
Contains piece text = (before : Text) × (after : Text) × (text ≡ before ++ (piece ++ after))

pub Contains-concat :
    (piece : Text) (pieces : List Text)
    → Any (λ p. p ≡ piece) pieces
    → Contains piece (concat pieces)
unfolding concat
Contains-concat piece [] h = absurd h
Contains-concat piece (p ∷ pieces) (inl e) = ([], concat pieces, rw e)
Contains-concat piece (p ∷ pieces) (inr h) =
    let (before, after, e) = Contains-concat piece pieces h in
    (p ++ before, after, rw e (sym (append_assoc p before _)))

-- A line that sets a key to a quoted value.
abbrev pub line : Parsers → Text → Text → Text
line std key value = key ++ (quote std.is_print value ++ lit "\n")

-- The section that holds the loops.
abbrev pub loops_text : Text → Text
loops_text loops = lit "    loops {\n" ++ (loops ++ lit "\n    }\n")

registry_block_order :
    (std : Parsers) (urls : Map Text) {order order' : List Text}
    → Perm order order'
    → registry_block std urls order ≡ registry_block std urls order'
unfolding registry_block
registry_block_order std [] p = refl
registry_block_order std (url ∷ urls) p =
    ap
      (λ regs.
        lit "      registry-base-urls {\n"
        ++ (registry_lines std (url ∷ urls) regs ++ lit "      }\n"))
      (sort_strings_of_perm p)

module _ (std : Parsers) (c : NodeConfig) where
  endpoint_line-eq :
      c.vc_store_endpoint ≢ []
      → endpoint_line std c ≡ line std (lit "    vc-store-endpoint = ") c.vc_store_endpoint
  unfolding endpoint_line concat
  endpoint_line-eq h = ground (arith, append-nil (lit "\n"))

  loops_section-eq : c.loops_block ≢ [] → loops_section std c ≡ loops_text c.loops_block
  unfolding loops_section concat
  loops_section-eq h = ground (arith, append-nil (lit "\n    }\n"))

  -- The endpoint of the credential store stands in the config if there is one.
  pub render-Contains_endpoint :
      (order : List Text)
      → c.vc_store_endpoint ≢ []
      → Contains
          (line std (lit "    vc-store-endpoint = ") c.vc_store_endpoint)
          (render std order c)
  unfolding render
  render-Contains_endpoint order h =
      Contains-concat _ _ (inr (inr (inr (inr (inr (inl (endpoint_line-eq h)))))))

  pub render-Contains_loops :
      (order : List Text)
      → c.loops_block ≢ []
      → Contains (loops_text c.loops_block) (render std order c)
  unfolding render
  render-Contains_loops order h =
      Contains-concat _ _
        (inr (inr (inr (inr (inr (inr (inr (inr (inr (inl (loops_section-eq h)))))))))))

  -- Go ranges over a map in a random order; the keys are sorted before they are written, so every
  -- order gives the same text.
  pub render_order :
      (order order' : List Text) → Perm order order' → render std order c ≡ render std order' c
  unfolding render
  render_order order order' p = rw (registry_block_order std c.registry_base_urls p)
