-- ===== src/Risk/Counts.antt =====
-- Lengths and recorded counts of a list in another order.
use fcare.Base.{
  ℕ, suc, ◌≡◌, refl, ap, ◌∙◌, List, ◌∷◌, map, Option, none, some, Permᴰ, length, Option-cases, inl,
  inr,
}
use mathlib.Core.List.Permᴰ
use fcare.Risk.{EvaluationInput, recorded_sessions}

pub length-perm_of {ℓ} : {A : Type ℓ} {xs ys : List A} → Permᴰ xs ys → length xs ≡ length ys
length-perm_of Permᴰ.nil = refl
length-perm_of (Permᴰ.cons e p) = ap suc (length-perm_of p)
length-perm_of (Permᴰ.swap e f) = refl
length-perm_of (Permᴰ.trans p q) = length-perm_of p ∙ length-perm_of q

pub map-perm {ℓ κ} :
    {A : Type ℓ} {B : Type κ} (f : A → B) {xs ys : List A}
    → Permᴰ xs ys
    → Permᴰ (map f xs) (map f ys)
map-perm f Permᴰ.nil = Permᴰ.nil
map-perm f (Permᴰ.cons e p) = Permᴰ.cons (ap f e) (map-perm f p)
map-perm f (Permᴰ.swap d e) = Permᴰ.swap (ap f d) (ap f e)
map-perm f (Permᴰ.trans p q) = Permᴰ.trans (map-perm f p) (map-perm f q)

-- A recorded count put in front, if there is one.
abbrev pub count_in : Option ℕ → List ℕ → List ℕ
count_in none l = l
count_in (some n) l = n ∷ l

pub recorded-cons :
    (item : EvaluationInput) (items : List EvaluationInput)
    → recorded_sessions (item ∷ items) ≡ count_in item.absent_sessions (recorded_sessions items)
unfolding recorded_sessions
recorded-cons item items = elim (Option-cases item.absent_sessions) [
  | inl e ↦ rw e
  | inr (n, e) ↦ rw e
]

count_in-perm :
    (o : Option ℕ) {xs ys : List ℕ} → Permᴰ xs ys → Permᴰ (count_in o xs) (count_in o ys)
count_in-perm none p = p
count_in-perm (some n) p = Permᴰ.cons refl p

count_in-swap :
    (o p : Option ℕ) (l : List ℕ) → Permᴰ (count_in o (count_in p l)) (count_in p (count_in o l))
count_in-swap none none l = Permᴰ.refl l
count_in-swap none (some n) l = Permᴰ.refl (n ∷ l)
count_in-swap (some m) none l = Permᴰ.refl (m ∷ l)
count_in-swap (some m) (some n) l = Permᴰ.swap refl refl

-- The counts of the same evaluations in another order are the same counts.
pub recorded_sessions-perm :
    {xs ys : List EvaluationInput}
    → Permᴰ xs ys
    → Permᴰ (recorded_sessions xs) (recorded_sessions ys)
recorded_sessions-perm Permᴰ.nil = unfold recorded_sessions in Permᴰ.nil
recorded_sessions-perm (Permᴰ.cons {a} {b} {l₁} {l₂} e p) =
    rw (recorded-cons a l₁, recorded-cons b l₂, e)
      (count_in-perm b.absent_sessions (recorded_sessions-perm p))
recorded_sessions-perm (Permᴰ.swap {a} {b} {a'} {b'} {l} e f) =
    rw
      (
        recorded-cons a (b ∷ l),
        recorded-cons b l,
        recorded-cons a' (b' ∷ l),
        recorded-cons b' l,
        e,
        f,
      )
      (count_in-swap b'.absent_sessions a'.absent_sessions (recorded_sessions l))
recorded_sessions-perm (Permᴰ.trans p q) =
    Permᴰ.trans (recorded_sessions-perm p) (recorded_sessions-perm q)
