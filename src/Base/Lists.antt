-- ===== src/Base/Lists.antt =====
-- Lists measured by native numbers, and Boolean searches over them.
use Prim.Native.Nat.{ℕ, zero, suc, ◌+◌, ◌≤◌}
use mathlib.Core.Path.{◌≡◌, refl}
use mathlib.Core.Bool.{Bool, true, false, ◌&&◌, ◌||◌}
use mathlib.Core.List.{List, [], ◌∷◌, ◌++◌}
use mathlib.Core.Option.{Option, none, some}
use native.Mathlib.Omega.{arith}
use fcare.Base.Tests.{if◌then◌else◌, ◌==◌, Bool-cases}
use mathlib.Core.Logic.{inl, inr}

module _ {ℓ} {A : Type ℓ} where
  abbrev pub length : List A → ℕ
  length [] = 0
  length (x ∷ xs) = suc (length xs)

  abbrev pub get_or : List A → ℕ → A → A
  get_or [] i d = d
  get_or (x ∷ xs) zero d = x
  get_or (x ∷ xs) (suc i) d = get_or xs i d

  abbrev pub take : ℕ → List A → List A
  take zero xs = []
  take (suc n) [] = []
  take (suc n) (x ∷ xs) = x ∷ take n xs

  abbrev pub drop : ℕ → List A → List A
  drop zero xs = xs
  drop (suc n) [] = []
  drop (suc n) (x ∷ xs) = drop n xs

  -- `xs.some(p)` and `xs.every(p)`
  abbrev pub any : (A → Bool) → List A → Bool
  any p [] = false
  any p (x ∷ xs) = p x || any p xs

  abbrev pub all : (A → Bool) → List A → Bool
  all p [] = true
  all p (x ∷ xs) = p x && all p xs

  -- `xs.filter(p)`; one structural call under the test
  abbrev pub keep : (A → Bool) → List A → List A
  keep p [] = []
  keep p (x ∷ xs) = if p x then x ∷ keep p xs else keep p xs

  -- `xs.find(p)`
  abbrev pub find : (A → Bool) → List A → Option A
  find p [] = none
  find p (x ∷ xs) = if p x then some x else find p xs

  -- rows that fit: `count({ where })`
  abbrev pub count : (A → Bool) → List A → ℕ
  count p [] = 0
  count p (x ∷ xs) = if p x then suc (count p xs) else count p xs

  -- `updateMany({ where, data })`: every row that fits is changed
  abbrev pub update_where : (A → Bool) → (A → A) → List A → List A
  update_where p f [] = []
  update_where p f (x ∷ xs) = (if p x then f x else x) ∷ update_where p f xs

module _ {ℓ} {A : Type ℓ} where
  pub length-append : (xs ys : List A) → length (xs ++ ys) ≡ length xs + length ys
  length-append [] ys = omega arith
  length-append (x ∷ xs) ys = omega (arith, length-append xs ys)

  pub any-append : (p : A → Bool) (xs ys : List A) → any p (xs ++ ys) ≡ (any p xs || any p ys)
  any-append p [] ys = refl
  any-append p (x ∷ xs) ys = ground (arith, any-append p xs ys)

  pub count-append : (p : A → Bool) (xs ys : List A) → count p (xs ++ ys) ≡ count p xs + count p ys
  count-append p [] ys = omega arith
  count-append p (x ∷ xs) ys = ground (arith, count-append p xs ys)

  pub count-le-length : (p : A → Bool) (xs : List A) → count p xs ≤ length xs
  count-le-length p [] = omega arith
  count-le-length p (x ∷ xs) = ground (arith, count-le-length p xs)

module _ {ℓ κ} {A : Type ℓ} where
  abbrev pub All : (A → Type κ) → List A → Type κ
  All P [] = Unit
  All P (x ∷ xs) = P x × All P xs

  pub All-append : (P : A → Type κ) (xs ys : List A) → All P xs → All P ys → All P (xs ++ ys)
  All-append P [] ys hx hy = hy
  All-append P (x ∷ xs) ys hx hy = (hx.0, All-append P xs ys hx.1 hy)

-- Membership in a list of numbers: `xs.includes(n)`.
abbrev pub contains : List ℕ → ℕ → Bool
contains xs n = any (λ x. x == n) xs

-- Tests that agree on every value agree on a list.
pub any_cong {ℓ} :
    {A : Type ℓ} (p q : A → Bool) (xs : List A) → ((a : A) → p a ≡ q a) → any p xs ≡ any q xs
any_cong p q [] h = refl
any_cong p q (x ∷ xs) h = λ i. h x i || any_cong p q xs h i

pub any_mono {ℓ} :
    {A : Type ℓ} (p q : A → Bool) (xs : List A)
    → ((a : A) → p a ≡ true → q a ≡ true)
    → any p xs ≡ true
    → any q xs ≡ true
any_mono p q (x ∷ xs) h e = ground (arith, h x, any_mono p q xs h)
any_mono p q [] h e = e

-- What every row keeps under an update, every row has after it.
pub all-update_where {ℓ} :
    {A : Type ℓ} (p q : A → Bool) (f : A → A) (xs : List A)
    → ((a : A) → q a ≡ true → p a ≡ true → p (f a) ≡ true)
    → all p xs ≡ true
    → all p (update_where q f xs) ≡ true
all-update_where p q f [] h e = e
all-update_where p q f (x ∷ xs) h e = ground (arith, h x, all-update_where p q f xs h)

pub all-append {ℓ} :
    {A : Type ℓ} (p : A → Bool) (xs ys : List A) → all p (xs ++ ys) ≡ (all p xs && all p ys)
all-append p [] ys = refl
all-append p (x ∷ xs) ys = ground (arith, all-append p xs ys)

-- The row that a search finds fits the search, and has what every row has.
pub find_fits {ℓ} :
    {A : Type ℓ} (q : A → Bool) (xs : List A) {a : A} → find q xs ≡ some a → q a ≡ true
find_fits q [] h = cc
find_fits q (x ∷ xs) {a} h = ground (arith, find_fits q xs {a = a})

pub all-find {ℓ} :
    {A : Type ℓ} (p q : A → Bool) (xs : List A) {a : A}
    → all p xs ≡ true
    → find q xs ≡ some a
    → p a ≡ true
all-find p q [] e h = cc
all-find p q (x ∷ xs) {a} e h = ground (arith, all-find p q xs {a = a})

-- An update that keeps what a search reads changes the row found, and no other is found.
pub find-update_where {ℓ} :
    {A : Type ℓ} (p q : A → Bool) (f : A → A) (xs : List A)
    → ((a : A) → p (f a) ≡ p a)
    → {a : A} → find p xs ≡ some a
    → find p (update_where q f xs) ≡ some (if q a then f a else a)
find-update_where p q f [] h e = cc
find-update_where p q f (x ∷ xs) h {a} e = ground (arith, h x, find-update_where p q f xs h {a = a})

pub find-append {ℓ} :
    {A : Type ℓ} (p : A → Bool) (xs ys : List A) {a : A}
    → find p xs ≡ some a
    → find p (xs ++ ys) ≡ some a
find-append p [] ys h = cc
find-append p (x ∷ xs) ys {a} h = ground (arith, find-append p xs ys {a = a})

pub all-snoc {ℓ} :
    {A : Type ℓ} (p : A → Bool) (xs : List A) (a : A)
    → all p xs ≡ true
    → p a ≡ true
    → all p (xs ++ a ∷ []) ≡ true
all-snoc p xs a h e = rw (all-append p xs (a ∷ [])) (ground arith)

-- What a selected row has, a row has that is selected.
pub any-keep {ℓ} :
    {A : Type ℓ} (p r : A → Bool) (xs : List A)
    → any r (keep p xs) ≡ true
    → any (λ a. p a && r a) xs ≡ true
any-keep p r [] h = h
any-keep p r (x ∷ xs) h = elim (Bool-cases (p x)) [
  | inl kept ↦ ground (arith, h, kept, any-keep p r xs)
  | inr left ↦ ground (arith, any-keep p r xs (rw left at h))
]
