-- ===== src/Exceptions/Raises.antt =====
-- Which exceptions a computation raises: a predicate with a rule for each way to build one.
use forms.Prelude.{◌≡◌, Bool, true, false, if◌then◌else◌}
use forms.Exceptions.{Exception, Result, ok, err, refuse, ◌>>=◌}

-- It returns, or it raises an exception that passes the test.
pub data Raises {ℓ} {A : Type ℓ} (p : Exception → Bool) : Result A → Type ℓ where
  returns : (a : A) → Raises p (ok a)
  raises : (e : Exception) → p e ≡ true → Raises p (err e)

pub refuse-Raises :
    (p : Exception → Bool) (b : Bool) (e : Exception) → p e ≡ true → Raises p (refuse b e)
refuse-Raises p true e h = raises e h
refuse-Raises p false e h = returns tt

pub bind-Raises {ℓ κ} :
    {A : Type ℓ} {B : Type κ} (p : Exception → Bool) (m : Result A) (f : A → Result B)
    → Raises p m
    → ((a : A) → Raises p (f a))
    → Raises p (m >>= f)
bind-Raises p (ok a) f h k = k a
bind-Raises p (err e) f (raises _ h) k = raises e h

-- A guard, and what comes after it.
pub guard-Raises {ℓ} :
    {A : Type ℓ} (p : Exception → Bool) (b : Bool) (e : Exception) (r : Result A)
    → p e ≡ true
    → Raises p r
    → Raises p (refuse b e >>= λ _. r)
guard-Raises p true e r h k = raises e h
guard-Raises p false e r h k = k

pub if-Raises {ℓ} :
    {A : Type ℓ} (p : Exception → Bool) (b : Bool) (r s : Result A)
    → Raises p r
    → Raises p s
    → Raises p (if b then r else s)
if-Raises p true r s h k = h
if-Raises p false r s h k = k

pub raised {ℓ} :
    {A : Type ℓ} (p : Exception → Bool) (r : Result A) (e : Exception)
    → Raises p r
    → r ≡ err e
    → p e ≡ true
raised p (ok a) e h is = cc
raised p (err e') e (raises _ h) is = cc

-- A weaker test.
pub weaken-Raises {ℓ} :
    {A : Type ℓ} (p q : Exception → Bool) (r : Result A)
    → ((e : Exception) → p e ≡ true → q e ≡ true)
    → Raises p r
    → Raises q r
weaken-Raises p q (ok a) weaker h = returns a
weaken-Raises p q (err e) weaker (raises _ h) = raises e (weaker e h)

pub ruleset raising = (returns, refuse-Raises, bind-Raises, guard-Raises, if-Raises)
