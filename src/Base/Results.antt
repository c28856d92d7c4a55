-- ===== src/Base/Results.antt =====
-- A method that reads and writes the database: it takes the state and returns the new state with
-- a value or a thrown error. What was written before a throw stays written.
use mathlib.Core.Path.{◌≡◌, refl}
use mathlib.Core.Logic.{◌⊎◌, inl, inr}
use mathlib.Core.Bool.{Bool, true, false}

pub data Result (E : Type 0) (A : Type 0) : Type 0 where
  ok : A → Result E A
  err : E → Result E A

module _ {E : Type 0} {S : Type 0} where
  -- `throw`, without a write
  abbrev pub fail : {A : Type 0} → E → S → S × Result E A
  fail e s = (s, err e)

  abbrev pub done : {A : Type 0} → A → S → S × Result E A
  done a s = (s, ok a)

abbrev pub is_ok : {E A : Type 0} → Result E A → Bool
is_ok (ok a) = true
is_ok (err e) = false

-- The rest of a method, after a step that may throw.
abbrev pub after : {E S A B : Type 0} → S × Result E A → (A → S → S × Result E B) → S × Result E B
after (s, ok a) f = f a s
after (s, err e) f = (s, err e)

pub Result-cases :
    {E A : Type 0} (r : Result E A) → ((e : E) × (r ≡ err e)) ⊎ ((a : A) × (r ≡ ok a))
Result-cases (ok a) = inr (a, refl)
Result-cases (err e) = inl (e, refl)

-- A method that ends well has passed its first step.
pub after-ok :
    {E S A B : Type 0} (x : S × Result E A) (f : A → S → S × Result E B) (b : B)
    → (after x f).1 ≡ ok b
    → (a : A) × (x.1 ≡ ok a) × (after x f ≡ f a x.0) × ((f a x.0).1 ≡ ok b)
after-ok (s, ok a) f b h = (a, refl, refl, h)
after-ok (s, err e) f b h = cc

-- A method that throws does so at its first step, or after it.
pub after-err :
    {E S A B : Type 0} (x : S × Result E A) (f : A → S → S × Result E B) (e : E)
    → (after x f).1 ≡ err e
    → ((x.1 ≡ err e) × ((after x f).0 ≡ x.0))
      ⊎ ((a : A) × (x.1 ≡ ok a) × (after x f ≡ f a x.0) × ((f a x.0).1 ≡ err e))
after-err (s, ok a) f e h = inr (a, refl, refl, h)
after-err (s, err d) f e h = inl (cc, refl)

pub err_is_not_ok : {E A P : Type 0} (e : E) (a : A) → ◌≡◌ {A = Result E A} (err e) (ok a) → P
err_is_not_ok e a h = cc

pub ok_is_not_err : {E A P : Type 0} (e : E) (a : A) → ◌≡◌ {A = Result E A} (ok a) (err e) → P
ok_is_not_err e a h = cc
