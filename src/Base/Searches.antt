-- ===== src/Base/Searches.antt =====
-- Laws of searches, counts and updates of rows, for any kind of row.
use Prim.Native.Nat.{ℕ, ◌≤◌}
use mathlib.Core.Path.{◌≡◌, refl, sym, ap, ◌∙◌}
use mathlib.Core.Bool.{Bool, true, false, not, ◌&&◌, ◌||◌}
use mathlib.Core.Logic.{inl, inr}
use mathlib.Core.Option.{Option, none, some}
use mathlib.Core.List.{List, [], ◌∷◌, ◌++◌, map}
use native.Mathlib.Omega.{arith}
use fcare.Base.Tests.{if◌then◌else◌, ◌==◌, and_split, and_join, Bool-cases, ==_refl, ==_iff}
use fcare.Base.Lists.{all, any, keep, count, update_where, contains, find}

abbrev pub implies : Bool → Bool → Bool
implies a b = not a || b

-- An update that makes no row fit that did not fit counts no more.
pub count-update_where {ℓ} :
    {A : Type ℓ} (p q : A → Bool) (f : A → A) (xs : List A)
    → all (λ a. not (q a) || implies (p (f a)) (p a)) xs ≡ true
    → count p (update_where q f xs) ≤ count p xs
count-update_where p q f [] h = omega arith
count-update_where p q f (x ∷ xs) h = ground (arith, count-update_where p q f xs)

pub all_of {ℓ} :
    {A : Type ℓ} (p : A → Bool) (xs : List A) → ((a : A) → p a ≡ true) → all p xs ≡ true
all_of p [] h = refl
all_of p (x ∷ xs) h = ground (arith, h x, all_of p xs h)

pub all_imply {ℓ} :
    {A : Type ℓ} (p q : A → Bool) (xs : List A)
    → ((a : A) → p a ≡ true → q a ≡ true)
    → all p xs ≡ true
    → all q xs ≡ true
all_imply p q [] h e = refl
all_imply p q (x ∷ xs) h e = ground (arith, h x, all_imply p q xs h)

pub all-keep {ℓ} : {A : Type ℓ} (p : A → Bool) (xs : List A) → all p (keep p xs) ≡ true
all-keep p [] = refl
all-keep p (x ∷ xs) = ground (arith, all-keep p xs)

pub zero_all {ℓ} :
    {A : Type ℓ} (q r : A → Bool) (xs : List A)
    → count q xs ≡ 0
    → all (λ a. not (q a) || r a) xs ≡ true
zero_all q r [] h = refl
zero_all q r (x ∷ xs) h = ground (arith, zero_all q r xs)

pub zero_any {ℓ} :
    {A : Type ℓ} (q r : A → Bool) (xs : List A) → count q xs ≡ 0 → any (λ a. q a && r a) xs ≡ false
zero_any q r [] h = refl
zero_any q r (x ∷ xs) h = ground (arith, zero_any q r xs)

-- What holds of one row of an id holds of all, if there is one row of an id.
pub one_all {ℓ} :
    {A : Type ℓ} (q r : A → Bool) (xs : List A)
    → count q xs ≤ 1
    → any (λ a. q a && r a) xs ≡ true
    → all (λ a. not (q a) || r a) xs ≡ true
one_all q r [] h e = refl
one_all q r (x ∷ xs) h e = ground (arith, one_all q r xs, zero_all q r xs, zero_any q r xs)

pub count-keep {ℓ} : {A : Type ℓ} (p q : A → Bool) (xs : List A) → count p (keep q xs) ≤ count p xs
count-keep p q [] = omega arith
count-keep p q (x ∷ xs) = ground (arith, count-keep p q xs)

-- The row that stands first in an order: `findFirst({ orderBy })`.
abbrev pub better {ℓ} : {A : Type ℓ} → (A → A → Bool) → A → Option A → A
better before a none = a
better before a (some b) = if before b a then b else a

abbrev pub first_by {ℓ} : {A : Type ℓ} → (A → A → Bool) → List A → Option A
first_by before [] = none
first_by before (a ∷ rest) = some (better before a (first_by before rest))

pub count-none {ℓ} :
    {A : Type ℓ} (before : A → A → Bool) (p : A → Bool) (xs : List A)
    → first_by before (keep p xs) ≡ none
    → count p xs ≡ 0
count-none before p [] e = refl
count-none before p (x ∷ xs) e = ground (arith, e, count-none before p xs)

better-holds {ℓ} :
    {A : Type ℓ} (before : A → A → Bool) (p : A → Bool) (a : A) (o : Option A)
    → p a ≡ true
    → ((b : A) → o ≡ some b → p b ≡ true)
    → p (better before a o) ≡ true
better-holds before p a none h k = h
better-holds before p a (some b) h k = elim (Bool-cases (before b a)) [
  | inl first ↦ rw first (k b refl)
  | inr later ↦ rw later h
]

-- What every row has, the first row has.
pub first_by-all {ℓ} :
    {A : Type ℓ} (before : A → A → Bool) (p : A → Bool) (xs : List A)
    → all p xs ≡ true
    → (c : A) → first_by before xs ≡ some c
    → p c ≡ true
first_by-all before p [] h c e = cc
first_by-all {A} before p (x ∷ xs) h c e =
    let (this, rest) = and_split (p x) (all p xs) h in
    some_inj e (better-holds before p x (first_by before xs) this (first_by-all before p xs rest))
  where
    some_inj : {a b : A} → some a ≡ some b → p a ≡ true → p b ≡ true
    some_inj {a} {b} e h = ap (λ o. p (elim o [ none ↦ a | some d ↦ d ])) (sym e) ∙ h

none_kept {ℓ} :
    {A : Type ℓ} (p r : A → Bool) (ys : List A)
    → any r ys ≡ false
    → all (λ a. not (r a)) (keep p ys) ≡ true
none_kept p r [] n = refl
none_kept p r (y ∷ ys) n = ground (arith, none_kept p r ys)

-- The first row that fits a search is one of the rows.
pub first_by-any {ℓ} :
    {A : Type ℓ} (before : A → A → Bool) (p r : A → Bool) (xs : List A) (c : A)
    → first_by before (keep p xs) ≡ some c
    → r c ≡ true
    → any r xs ≡ true
first_by-any before p r xs c e h = elim (Bool-cases (any r xs)) [
  | inl there ↦ there
  | inr nowhere ↦
      ground
        (arith, first_by-all before (λ a. not (r a)) (keep p xs) (none_kept p r xs nowhere) c e)
]

-- A row that fits a search fits what the search becomes under an update.
pub any-update_where {ℓ} :
    {A : Type ℓ} (p q c : A → Bool) (f : A → A) (xs : List A)
    → ((a : A) → p a ≡ true → q (if c a then f a else a) ≡ true)
    → any p xs ≡ true
    → any q (update_where c f xs) ≡ true
any-update_where p q c f [] h e = e
any-update_where p q c f (x ∷ xs) h e = ground (arith, h x, any-update_where p q c f xs h)

-- A row that fits a search has what every row has.
pub all-any {ℓ} :
    {A : Type ℓ} (p q : A → Bool) (xs : List A)
    → all p xs ≡ true
    → any q xs ≡ true
    → any (λ a. p a && q a) xs ≡ true
all-any p q [] h e = e
all-any p q (x ∷ xs) h e = ground (arith, all-any p q xs)

pub any-map {ℓ κ} :
    {A : Type ℓ} {B : Type κ} (p : B → Bool) (f : A → B) (xs : List A)
    → any p (map f xs) ≡ any (λ a. p (f a)) xs
any-map p f [] = refl
any-map p f (x ∷ xs) = ground (arith, any-map p f xs)

-- What holds of every member holds of all.
pub all_members :
    (p : ℕ → Bool) (ns : List ℕ) → ((n : ℕ) → contains ns n ≡ true → p n ≡ true) → all p ns ≡ true
all_members p [] h = refl
all_members p (n ∷ ns) h =
    and_join (h n (rw (==_refl n) refl)) (all_members p ns (λ m e. h m (rw e (ground (arith, e)))))

pub contains-keep :
    (p : ℕ → Bool) (ns : List ℕ) (n : ℕ)
    → contains ns n ≡ true
    → p n ≡ true
    → contains (keep p ns) n ≡ true
contains-keep p [] n h e = h
contains-keep p (m ∷ ns) n h e = elim (Bool-cases (m == n)) [
  | inl same ↦ let there : p m ≡ true = rw ((==_iff m n).0 same) e in rw there (rw same refl)
  | inr other ↦ ground (arith, contains-keep p ns n, other)
]

pub all-kept {ℓ} :
    {A : Type ℓ} (p d q : A → Bool) (xs : List A)
    → ((a : A) → p a ≡ true → d a ≡ false → q a ≡ true)
    → all p xs ≡ true
    → all q (keep (λ a. not (d a)) xs) ≡ true
all-kept p d q [] h e = refl
all-kept p d q (x ∷ xs) h e = ground (arith, h x, all-kept p d q xs h)

pub all-map {ℓ} :
    {A : Type ℓ} (p q : A → Bool) (f : A → A) (xs : List A)
    → ((a : A) → p a ≡ true → q (f a) ≡ true)
    → all p xs ≡ true
    → all q (map f xs) ≡ true
all-map p q f [] h e = refl
all-map p q f (x ∷ xs) h e = ground (arith, h x, all-map p q f xs h)

-- A row that fits and is not dropped is still found.
pub any-kept {ℓ} :
    {A : Type ℓ} (p d : A → Bool) (xs : List A)
    → ((a : A) → p a ≡ true → d a ≡ false)
    → any p xs ≡ true
    → any p (keep (λ a. not (d a)) xs) ≡ true
any-kept p d [] h e = e
any-kept p d (x ∷ xs) h e = ground (arith, h x, any-kept p d xs h)

pub all_both {ℓ} :
    {A : Type ℓ} (p q : A → Bool) (xs : List A)
    → all p xs ≡ true
    → all q xs ≡ true
    → all (λ a. p a && q a) xs ≡ true
all_both p q [] h e = refl
all_both p q (x ∷ xs) h e = ground (arith, h, e, all_both p q xs)

pub find-any {ℓ} :
    {A : Type ℓ} (p q : A → Bool) (xs : List A) {a : A}
    → find p xs ≡ some a
    → q a ≡ true
    → any (λ x. p x && q x) xs ≡ true
find-any p q [] h e = cc
find-any p q (x ∷ xs) {a} h e = elim (Bool-cases (p x)) [
  | inl fits ↦
      let this : some x ≡ some a = rw fits at h in
      let same : x ≡ a = cc in rw fits (rw (ap q same) (rw e refl))
  | inr other ↦ rw other (find-any p q xs {a = a} (rw other at h) e)
]

pub find-none {ℓ} :
    {A : Type ℓ} (p : A → Bool) (xs : List A) → find p xs ≡ none → all (λ x. not (p x)) xs ≡ true
find-none p [] h = refl
find-none p (x ∷ xs) h = ground (arith, h, find-none p xs)

pub count-any {ℓ} :
    {A : Type ℓ} (p : A → Bool) (xs : List A) → (count p xs == 0) ≡ false → any p xs ≡ true
count-any p [] h = cc
count-any p (x ∷ xs) h = ground (arith, h, count-any p xs)

pub all-update_cases {ℓ} :
    {A : Type ℓ} (p p' q : A → Bool) (f : A → A) (xs : List A)
    → ((a : A) → p a ≡ true → p' (if q a then f a else a) ≡ true)
    → all p xs ≡ true
    → all p' (update_where q f xs) ≡ true
all-update_cases p p' q f [] h e = refl
all-update_cases p p' q f (x ∷ xs) h e = ground (arith, h x, all-update_cases p p' q f xs h)

-- An update that keeps what a test reads keeps the test.
pub all-update_same {ℓ} :
    {A : Type ℓ} (p q : A → Bool) (f : A → A) (xs : List A)
    → ((a : A) → p (f a) ≡ p a)
    → all p (update_where q f xs) ≡ all p xs
all-update_same p q f [] h = refl
all-update_same p q f (x ∷ xs) h = ground (arith, h x, all-update_same p q f xs h)

pub count-zero {ℓ} :
    {A : Type ℓ} (p : A → Bool) (xs : List A) → all (λ a. not (p a)) xs ≡ true → count p xs ≡ 0
count-zero p [] h = refl
count-zero p (x ∷ xs) h = ground (arith, h, count-zero p xs)

pub keep-all {ℓ} :
    {A : Type ℓ} (p q : A → Bool) (xs : List A)
    → all q (keep p xs) ≡ true
    → all (λ a. not (p a) || q a) xs ≡ true
keep-all p q [] h = refl
keep-all p q (x ∷ xs) h = ground (arith, h, keep-all p q xs)

pub all-keep_weaker {ℓ} :
    {A : Type ℓ} (p q : A → Bool) (xs : List A) → all q xs ≡ true → all q (keep p xs) ≡ true
all-keep_weaker p q [] h = refl
all-keep_weaker p q (x ∷ xs) h = ground (arith, h, all-keep_weaker p q xs)

pub count_mono {ℓ} :
    {A : Type ℓ} (p q : A → Bool) (xs : List A)
    → all (λ a. not (p a) || q a) xs ≡ true
    → count p xs ≤ count q xs
count_mono p q [] h = omega arith
count_mono p q (x ∷ xs) h = ground (arith, h, count_mono p q xs)

pub none-any {ℓ} :
    {A : Type ℓ} (p : A → Bool) (xs : List A) → any p xs ≡ false → all (λ a. not (p a)) xs ≡ true
none-any p [] h = refl
none-any p (x ∷ xs) h = ground (arith, h, none-any p xs)

pub first_by-none {ℓ} :
    {A : Type ℓ} (before : A → A → Bool) (p : A → Bool) (xs : List A)
    → first_by before xs ≡ none
    → all p xs ≡ true
first_by-none before p [] e = refl
first_by-none before p (x ∷ xs) e = cc

pub none-find {ℓ} :
    {A : Type ℓ} (p : A → Bool) (xs : List A) → all (λ x. not (p x)) xs ≡ true → find p xs ≡ none
none-find p [] h = refl
none-find p (x ∷ xs) h = ground (arith, h, none-find p xs)

pub find-last {ℓ} :
    {A : Type ℓ} (p : A → Bool) (xs : List A) (a : A)
    → find p xs ≡ none
    → p a ≡ true
    → find p (xs ++ a ∷ []) ≡ some a
find-last p [] a h e = rw e refl
find-last p (x ∷ xs) a h e = ground (arith, h, find-last p xs a)
