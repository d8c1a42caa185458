-- ===== src/Run/Kept.antt =====
-- What an action leaves alone, whether it returns or ends the test.
use e2e.Base.{◌≡◌, ◌≢◌, refl, ap, sym, ◌∙◌, arith, ◌⊎◌, inl, inr, Option, none, some}
use e2e.Run.{Outcome, done, fatal, Run, resume, ◌>>=◌, relabel, lift, or_fail}

-- The action leaves what `get` reads as it was, however it ends.
abbrev pub Keeps : {E S A T : Type 0} → (S → T) → Run E S A → Type 0
Keeps {S = S} get m = (s : S) → get (m s).1 ≡ get s

-- The action never returns, and leaves what `get` reads as it was.
abbrev pub Stops : {E S A T : Type 0} → (S → T) → Run E S A → Type 0
Stops {S = S} {A = A} get m = (s : S) → ((a : A) → (m s).0 ≢ done a) × (get (m s).1 ≡ get s)

module _ {E S A B T : Type 0} (get : S → T) where
  resume-Keeps :
      (r : Outcome E A) (f : A → Run E S B) (s : S)
      → ((a : A) → Keeps get (f a))
      → get (resume r f s).1 ≡ get s
  resume-Keeps (done a) f s h = h a s
  resume-Keeps (fatal e) f s h = refl

  pub bind-Keeps :
      (m : Run E S A) (f : A → Run E S B)
      → Keeps get m
      → ((a : A) → Keeps get (f a))
      → Keeps get (m >>= f)
  unfolding ◌>>=◌
  bind-Keeps m f km kf s = resume-Keeps (m s).0 f (m s).1 kf ∙ km s

  resume-stopped :
      (r : Outcome E A) (f : A → Run E S B) (s : S)
      → ((a : A) → r ≢ done a)
      → ((b : B) → (resume r f s).0 ≢ done b) × (get (resume r f s).1 ≡ get s)
  resume-stopped (done a) f s h = absurd (h a refl)
  resume-stopped (fatal e) f s h = (λ b same. ground (arith, same), refl)

  -- A sequence stops at a first action that never returns.
  pub bind-stopped : (m : Run E S A) (f : A → Run E S B) → Stops get m → Stops get (m >>= f)
  unfolding ◌>>=◌
  bind-stopped m f h s =
      let (stopped, same) = resume-stopped (m s).0 f (m s).1 (h s).0 in (stopped, same ∙ (h s).1)

  resume-Stops :
      (r : Outcome E A) (f : A → Run E S B) (s : S)
      → ((a : A) → Stops get (f a))
      → ((b : B) → (resume r f s).0 ≢ done b) × (get (resume r f s).1 ≡ get s)
  resume-Stops (done a) f s h = h a s
  resume-Stops (fatal e) f s h = (λ b same. ground (arith, same), refl)

  pub bind-Stops :
      (m : Run E S A) (f : A → Run E S B)
      → Keeps get m
      → ((a : A) → Stops get (f a))
      → Stops get (m >>= f)
  unfolding ◌>>=◌
  bind-Stops m f km sf s =
      let (stopped, same) = resume-Stops (m s).0 f (m s).1 sf in (stopped, same ∙ km s)

pub relabel-fails :
    {E F A : Type 0} (fault : E → F) (r : Outcome E A)
    → ((a : A) → r ≢ done a)
    → (a : A) → relabel fault r ≢ done a
relabel-fails fault (done b) h a e = h b refl
relabel-fails fault (fatal x) h a e = ground (arith, e)

module _ {E F S P A T : Type 0} (get : S → T) (fault : E → F) (inner : S → P) (set : P → S → S)
    (apart : (p : P) (s : S) → get (set p s) ≡ get s) where
  pub lift-Keeps : (m : Run E P A) → Keeps get (lift fault inner set m)
  unfolding lift
  lift-Keeps m s = apart (m (inner s)).1 s

  pub lift-Stops :
      (m : Run E P A) → ((p : P) (a : A) → (m p).0 ≢ done a) → Stops get (lift fault inner set m)
  unfolding lift
  lift-Stops m h s = (relabel-fails fault (m (inner s)).0 (h (inner s)), apart (m (inner s)).1 s)

pub or_fail-Keeps :
    {E S A T : Type 0} (get : S → T) (o : Option A) (fault : E)
    → Keeps get (or_fail {S = S} o fault)
or_fail-Keeps get none fault s = refl
or_fail-Keeps get (some a) fault s = refl

-- A sequence whose first action leaves what `get` reads alone: if the rest leaves it alone or ends in
-- `P`, so does the whole.
module _ {E S A B T : Type 0} (get : S → T) (P : S → Type 0) where
  resume-either :
      (r : Outcome E A) (f : A → Run E S B) (t : S)
      → ((a : A) → r ≡ done a → (get (f a t).1 ≡ get t) ⊎ P (f a t).1)
      → (get (resume r f t).1 ≡ get t) ⊎ P (resume r f t).1
  resume-either (done a) f t h = h a refl
  resume-either (fatal e) f t h = inl refl

  pub bind-either :
      (m : Run E S A) (f : A → Run E S B) (s : S)
      → get (m s).1 ≡ get s
      → ((a : A) (t : S) → m s ≡ (done a, t) → (get (f a t).1 ≡ get t) ⊎ P (f a t).1)
      → (get ((m >>= f) s).1 ≡ get s) ⊎ P ((m >>= f) s).1
  unfolding ◌>>=◌
  bind-either m f s same h =
      elim (resume-either (m s).0 f (m s).1 (λ a e. h a (m s).1 (ap (λ r. (r, (m s).1)) e))) [
        | inl kept ↦ inl (kept ∙ same)
        | inr p ↦ inr p
      ]

pub Keeps-done :
    {E S A T : Type 0} (get : S → T) (m : Run E S A) (s : S) (a : A) (t : S)
    → Keeps get m
    → m s ≡ (done a, t)
    → get t ≡ get s
Keeps-done get m s a t h e = ap (λ r. get r.1) (sym e) ∙ h s
