-- ===== src/Run.antt =====
-- The harness's helpers as actions: a helper changes the world and returns, or ends the test by
-- `t.Fatalf`. What it did before the failure stays done.
pub mod Inversion
pub mod Kept
use e2e.Base.{Option, none, some, Text}

pub data Outcome {ℓ} (E A : Type ℓ) : Type ℓ where
  done : A → Outcome E A
  fatal : E → Outcome E A

abbrev pub Run : Type 0 → Type 0 → Type 0 → Type 0
Run E S A = S → Outcome E A × S

module _ {E S A : Type 0} where
  abbrev pub pure : A → Run E S A
  pure a s = (done a, s)

  abbrev pub fail : E → Run E S A
  fail e s = (fatal e, s)

  abbrev pub gets : (S → A) → Run E S A
  gets f s = (done (f s), s)

  -- A value, or the failure that its lack is.
  abbrev pub or_fail : Option A → E → Run E S A
  or_fail none e = fail e
  or_fail (some a) e = pure a

abbrev pub modify : {E S : Type 0} → (S → S) → Run E S (Unit {0})
modify f s = (done tt, f s)

module _ {E S A B : Type 0} where
  abbrev pub resume : Outcome E A → (A → Run E S B) → S → Outcome E B × S
  resume (done a) f s = f a s
  resume (fatal e) f s = (fatal e, s)

  infixl 10 ◌>>=◌ ◌>>◌
  unfoldable pub ◌>>=◌ : Run E S A → (A → Run E S B) → Run E S B
  ◌>>=◌ m f s = let (r, s') = m s in resume r f s'

  abbrev pub ◌>>◌ : Run E S A → Run E S B → Run E S B
  m >> n = m >>= λ _. n

-- An action on a part of the world.
unfoldable pub zoom : {E S T A : Type 0} → (S → T) → (T → S → S) → Run E T A → Run E S A
zoom get set m s = let (r, t) = m (get s) in (r, set t s)

abbrev pub relabel : {E F A : Type 0} → (E → F) → Outcome E A → Outcome F A
relabel fault (done a) = done a
relabel fault (fatal e) = fatal (fault e)

-- An action on a part of the world, whose failures are failures of the whole.
unfoldable pub lift : {E F S T A : Type 0} → (E → F) → (S → T) → (T → S → S) → Run E T A → Run F S A
lift fault get set m s = let (r, t) = m (get s) in (relabel fault r, set t s)

-- A failure that names a path, as the caller reports it.
abbrev pub blame : {E A : Type 0} → (Text → E) → Outcome Text A → Outcome E A
blame fault (done a) = done a
blame fault (fatal path) = fatal (fault path)
