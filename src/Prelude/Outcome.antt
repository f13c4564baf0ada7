-- ===== src/Prelude/Outcome.antt =====
-- What a Go function with an `error` result does: return a value, return an error, or panic.
use mathlib.Core.Path.{◌≡◌, refl}

pub data Outcome {ℓ} (E : Type ℓ) (A : Type ℓ) : Type ℓ where
  ok : A → Outcome E A
  err : E → Outcome E A
  panic : Outcome E A

infixl 5 ◌>>=◌
abbrev pub ◌>>=◌ {ℓ} : {E A B : Type ℓ} → Outcome E A → (A → Outcome E B) → Outcome E B
ok a >>= f = f a
err e >>= f = err e
panic >>= f = panic

-- Inversion of a successful bind.
pub >>=-eq-ok {ℓ} :
    {E A B : Type ℓ} (first : Outcome E A) (rest : A → Outcome E B) {final : B}
    → (first >>= rest) ≡ ok final
    → (value : A) × (first ≡ ok value) × (rest value ≡ ok final)
>>=-eq-ok panic rest done = cc
>>=-eq-ok (err e) rest done = cc
>>=-eq-ok (ok value) rest done = (value, refl, done)

-- To split on a computed outcome and keep the equation.
pub data Split {ℓ} {E A : Type ℓ} (m : Outcome E A) : Type ℓ where
  returns : (a : A) → m ≡ ok a → Split m
  fails : (e : E) → m ≡ err e → Split m
  panics : m ≡ panic → Split m

pub Outcome-cases {ℓ} : {E A : Type ℓ} (m : Outcome E A) → Split m
Outcome-cases (ok a) = returns a refl
Outcome-cases (err e) = fails e refl
Outcome-cases panic = panics refl

-- A bind fails with `x` only if one of its parts does.
pub >>=-ne-err {ℓ} :
    {E A B : Type ℓ} (m : Outcome E A) (f : A → Outcome E B) (x : E)
    → ¬ (m ≡ err x)
    → ((a : A) → ¬ (f a ≡ err x))
    → ¬ ((m >>= f) ≡ err x)
>>=-ne-err (ok a) f x h k = k a
>>=-ne-err (err e) f x h k = λ q. h (cc)
>>=-ne-err panic f x h k = λ q. cc

pub bind_regroup {ℓ} :
    {E A B C : Type ℓ} (m : Outcome E A) (f : A → Outcome E C) (g : A → Outcome E B)
    (k : B → Outcome E C)
    → ((a : A) → f a ≡ (g a >>= k))
    → (m >>= f) ≡ ((m >>= g) >>= k)
bind_regroup (ok a) f g k h = h a
bind_regroup (err e) f g k h = refl
bind_regroup panic f g k h = refl

-- Two continuations that agree on what is returned.
pub >>=-agree {ℓ} :
    {E A B : Type ℓ} (m : Outcome E A) (f g : A → Outcome E B)
    → ((a : A) → m ≡ ok a → f a ≡ g a)
    → (m >>= f) ≡ (m >>= g)
>>=-agree (ok a) f g h = h a refl
>>=-agree (err e) f g h = refl
>>=-agree panic f g h = refl
