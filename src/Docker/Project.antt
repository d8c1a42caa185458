-- ===== src/Docker/Project.antt =====
-- internal/harness/compose.go: which scenario directories share a project name.
use e2e.Base.{
  ℕ, zero, suc, ◌+◌, ◌*◌, ◌/◌, ◌%◌, ◌<◌, ◌≡◌, refl, ap, ap₂, sym, ◌∙◌, ◌↔◌, arith, List, [], ◌∷◌,
  ◌++◌, Text, lit, All, length, length-append, base_name,
}
use e2e.Config.Quote.{hex_digit, hex2}
use e2e.Docker.{hex_text, first_bytes, project_name}

hex_digit-inj : (a b : ℕ) → a < 16 → b < 16 → hex_digit a ≡ hex_digit b → a ≡ b
unfolding hex_digit
hex_digit-inj a b ha hb e = ground arith

abbrev pub IsByte : ℕ → Type 0
IsByte b = b < 256

hex_text-inj :
    (xs ys : List ℕ) → All IsByte xs → All IsByte ys → hex_text xs ≡ hex_text ys → xs ≡ ys
unfolding hex_text hex2
hex_text-inj [] [] hx hy e = refl
hex_text-inj [] (y ∷ ys) hx hy e = absurd (ground (arith, e))
hex_text-inj (x ∷ xs) [] hx hy e = absurd (ground (arith, e))
hex_text-inj (x ∷ xs) (y ∷ ys) (px, hx) (py, hy) e =
    let high : hex_digit (x / 16 % 16) ≡ hex_digit (y / 16 % 16) = cc e in
    let low : hex_digit (x % 16) ≡ hex_digit (y % 16) = cc e in
    let rest : hex_text xs ≡ hex_text ys = cc e in
    let h = hex_digit-inj (x / 16 % 16) (y / 16 % 16) (omega arith) (omega arith) high in
    let l = hex_digit-inj (x % 16) (y % 16) (omega arith) (omega arith) low in
    ap₂ ◌∷◌ (omega (arith, h, l)) (hex_text-inj xs ys hx hy rest)

length-hex_text : (xs : List ℕ) → length (hex_text xs) ≡ 2 * length xs
unfolding hex_text hex2
length-hex_text [] = refl
length-hex_text (x ∷ xs) = omega (arith, length-hex_text xs)

pub append_inj : (xs ys s t : Text) → length s ≡ length t → xs ++ s ≡ ys ++ t → (xs ≡ ys) × (s ≡ t)
append_inj [] [] s t h e = (refl, e)
append_inj [] (y ∷ ys) s t h e = absurd (omega (arith, h, ap length e, length-append ys t))
append_inj (x ∷ xs) [] s t h e = absurd (omega (arith, h, ap length e, length-append xs s))
append_inj (x ∷ xs) (y ∷ ys) s t h e =
    let head : x ≡ y = cc e in
    let rest : xs ++ s ≡ ys ++ t = cc e in
    let (front, back) = append_inj xs ys s t h rest in (ap₂ ◌∷◌ head front, back)

first_bytes-All : (n : ℕ) (xs : List ℕ) → All IsByte xs → All IsByte (first_bytes n xs)
unfolding first_bytes
first_bytes-All zero xs h = tt
first_bytes-All (suc n) [] h = tt
first_bytes-All (suc n) (x ∷ xs) (p, h) = (p, first_bytes-All n xs h)

length-first_bytes : (n m : ℕ) (xs : List ℕ) → length xs ≡ n + m → length (first_bytes n xs) ≡ n
unfolding first_bytes
length-first_bytes zero m xs h = refl
length-first_bytes (suc n) m [] h = absurd (omega arith)
length-first_bytes (suc n) m (x ∷ xs) h = omega (arith, length-first_bytes n m xs (omega arith))

-- What `sha256.Sum256` gives.
pub record IsDigest (sum256 : Text → List ℕ) : Type 0 where
  pub length_is : (s : Text) → length (sum256 s) ≡ 4 + 28
  pub bytes : (s : Text) → All IsByte (sum256 s)

module _ (sum256 : Text → List ℕ) (digest : IsDigest sum256) where
  length-suffix : (dir : Text) → length (lit "-" ++ hex_text (first_bytes 4 (sum256 dir))) ≡ 9
  unfolding lit
  length-suffix dir = omega (
    arith,
    length-hex_text (first_bytes 4 (sum256 dir)),
    length-first_bytes 4 28 (sum256 dir) (digest.length_is dir),
  )

  project_name-inj :
      (dir dir' : Text)
      → project_name sum256 dir ≡ project_name sum256 dir'
      → (base_name dir ≡ base_name dir')
        × (first_bytes 4 (sum256 dir) ≡ first_bytes 4 (sum256 dir'))
  unfolding project_name lit
  project_name-inj dir dir' e =
      let rest : base_name dir ++ (lit "-" ++ hex_text (first_bytes 4 (sum256 dir)))
          ≡ base_name dir' ++ (lit "-" ++ hex_text (first_bytes 4 (sum256 dir'))) =
        cc e in
      let (base, suffix) =
        append_inj (base_name dir) (base_name dir')
          (lit "-" ++ hex_text (first_bytes 4 (sum256 dir)))
          (lit "-" ++ hex_text (first_bytes 4 (sum256 dir')))
          (length-suffix dir ∙ sym (length-suffix dir')) rest in
      let hex : hex_text (first_bytes 4 (sum256 dir)) ≡ hex_text (first_bytes 4 (sum256 dir')) =
        cc suffix in
      (
        base,
        hex_text-inj (first_bytes 4 (sum256 dir)) (first_bytes 4 (sum256 dir'))
            (first_bytes-All 4 (sum256 dir) (digest.bytes dir))
            (first_bytes-All 4 (sum256 dir') (digest.bytes dir')) hex,
      )

  -- Two scenario directories share a project name exactly if they have the same base name and their
  -- digests begin with the same four bytes, so two checkouts are kept apart by their digests.
  pub project_name_iff :
      (dir dir' : Text)
      → (project_name sum256 dir ≡ project_name sum256 dir') ↔ (
          (base_name dir ≡ base_name dir')
          × (first_bytes 4 (sum256 dir) ≡ first_bytes 4 (sum256 dir')))
  unfolding project_name
  project_name_iff dir dir' = (
    project_name-inj dir dir',
    λ h. ap₂ (λ b f. lit "e2e-" ++ (b ++ (lit "-" ++ hex_text f))) h.0 h.1,
  )
