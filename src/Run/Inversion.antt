-- ===== src/Run/Inversion.antt =====
-- What an action that returned went through.
use e2e.Base.{Text, ◌≡◌, refl, ap, sym, arith, Bool, true, false, Option, none, some, if◌then◌else◌}
use e2e.Run.{blame, Outcome, done, fatal, Run, resume, ◌>>=◌, zoom, relabel, lift, or_fail, pure}

module _ {E S A B : Type 0} where
  resume-done :
      (r : Outcome E A) (f : A → Run E S B) (t : S) (b : B) (s' : S)
      → resume r f t ≡ (done b, s')
      → (a : A) × (r ≡ done a) × (f a t ≡ (done b, s'))
  resume-done (done a) f t b s' e = (a, refl, e)
  resume-done (fatal x) f t b s' e = absurd (ground (arith, e))

  -- A sequence that returned: its first action returned, and so did the rest from there.
  pub bind-done :
      (m : Run E S A) (f : A → Run E S B) (s : S) (b : B) (s' : S)
      → (m >>= f) s ≡ (done b, s')
      → (a : A) × (t : S) × (m s ≡ (done a, t)) × (f a t ≡ (done b, s'))
  unfolding ◌>>=◌
  bind-done m f s b s' e =
      let (a, first, rest) = resume-done (m s).0 f (m s).1 b s' e in
      (a, (m s).1, ap (λ r. (r, (m s).1)) first, rest)

-- What happened to the part of the world that the action saw.
pub zoom-done :
    {E S T A : Type 0} (get : S → T) (set : T → S → S) (m : Run E T A) (s : S) (a : A) (s' : S)
    → zoom get set m s ≡ (done a, s')
    → (t : T) × (m (get s) ≡ (done a, t)) × (s' ≡ set t s)
unfolding zoom
zoom-done get set m s a s' e =
    ((m (get s)).1, ap (λ r. (r.0, (m (get s)).1)) e, sym (ap (λ r. r.1) e))

relabel-done :
    {E F A : Type 0} (fault : E → F) (r : Outcome E A) (a : A)
    → relabel fault r ≡ done a
    → r ≡ done a
relabel-done fault (done b) a e = cc e
relabel-done fault (fatal x) a e = absurd (ground (arith, e))

pub lift-done :
    {E F S T A : Type 0} (fault : E → F) (get : S → T) (set : T → S → S) (m : Run E T A) (s : S)
    (a : A) (s' : S)
    → lift fault get set m s ≡ (done a, s')
    → (t : T) × (m (get s) ≡ (done a, t)) × (s' ≡ set t s)
unfolding lift
lift-done fault get set m s a s' e = (
  (m (get s)).1,
  ap (λ r. (r, (m (get s)).1)) (relabel-done fault (m (get s)).0 a (ap (λ r. r.0) e)),
  sym (ap (λ r. r.1) e),
)

module _ {E S A : Type 0} where
  pub or_fail-done :
      (o : Option A) (fault : E) (s : S) (a : A) (s' : S)
      → or_fail o fault s ≡ (done a, s')
      → (o ≡ some a) × (s' ≡ s)
  or_fail-done none fault s a s' e = absurd (ground (arith, e))
  or_fail-done (some b) fault s a s' e = (cc (ap (λ r. r.0) e), sym (ap (λ r. r.1) e))

  pub pure-done : (a b : A) (s s' : S) → pure {E = E} a s ≡ (done b, s') → (a ≡ b) × (s' ≡ s)
  pure-done a b s s' e = (cc (ap (λ r. r.0) e), sym (ap (λ r. r.1) e))

  -- A guard that ends the test.
  pub guard-done :
      (b : Bool) (r : Outcome E A × S) (fault : E) (s : S) (a : A) (s' : S)
      → (if b then r else (fatal fault, s)) ≡ (done a, s')
      → r ≡ (done a, s')
  guard-done true r fault s a s' e = e
  guard-done false r fault s a s' e = absurd (ground (arith, e))

-- A call whose result is a Boolean.
pub verdict-done :
    {E S : Type 0} (b : Bool) (fault : E) (s s' : S)
    → ◌≡◌ {A = Outcome E (Unit {0}) × S} (if b then done tt else fatal fault, s) (done tt, s')
    → (b ≡ true) × (s' ≡ s)
verdict-done true fault s s' e = (refl, sym (ap (λ r. r.1) e))
verdict-done false fault s s' e = absurd (ground (arith, e))

-- A first action that returned hands over to the second one.
pub bind-run :
    {E S A B : Type 0} (m : Run E S A) (f : A → Run E S B) (s : S) (a : A) (t : S)
    → m s ≡ (done a, t)
    → (m >>= f) s ≡ f a t
unfolding ◌>>=◌
bind-run m f s a t e = ap (λ r. resume r.0 f r.1) e

pub blame-done :
    {E A : Type 0} (fault : Text → E) (r : Outcome Text A) (a : A)
    → blame fault r ≡ done a
    → r ≡ done a
blame-done fault (done b) a e = cc (e)
blame-done fault (fatal path) a e = absurd (ground (arith, e))
