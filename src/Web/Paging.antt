-- ===== src/Web/Paging.antt =====
-- The pages of a list are the list.
use fcare.Base.{
  ℕ, zero, suc, ◌+◌, ◌-◌, ◌*◌, ◌/◌, ◌≤◌, ◌<◌, ◌≡◌, ◌∙◌, refl, sym, ap, max, min, false, List, [],
  ◌∷◌, ◌++◌, ◌==◌, arith, length, take, drop, leb, Bool-cases, inl, inr,
}
use native.Mathlib.Nat.{lt-div-mul-add}
use fcare.Web.{page_count, clamp_page, page_slice}

-- The first pages, one behind the other.
abbrev pub first_pages : {A : Type 0} → List A → (limit how_many : ℕ) → List A
first_pages items limit zero = []
first_pages items limit (suc n) = first_pages items limit n ++ page_slice items (n + 1) limit

take-all : {A : Type 0} (n : ℕ) (xs : List A) → length xs ≤ n → take n xs ≡ xs
take-all zero [] h = refl
take-all zero (x ∷ xs) h = ground arith
take-all (suc n) [] h = refl
take-all (suc n) (x ∷ xs) h = ap (λ l. x ∷ l) (take-all n xs (omega arith))

take-nil : {A : Type 0} (n : ℕ) → take {A = A} n [] ≡ []
take-nil zero = refl
take-nil (suc n) = refl

take-drop : {A : Type 0} (a b : ℕ) (xs : List A) → take a xs ++ take b (drop a xs) ≡ take (a + b) xs
take-drop zero b xs = let same : 0 + b ≡ b = omega arith in rw same refl
take-drop (suc a) b [] = take-nil b ∙ sym (take-nil (suc a + b))
take-drop (suc a) b (x ∷ xs) =
    let next : suc a + b ≡ suc (a + b) = omega arith in rw next (ap (λ l. x ∷ l) (take-drop a b xs))

page_slice_lem :
    {A : Type 0} (items : List A) (limit n : ℕ)
    → n + 1 ≤ page_count (length items) limit
    → page_slice items (n + 1) limit ≡ take limit (drop (n * limit) items)
unfolding page_slice clamp_page
page_slice_lem items limit n h =
    let here : min (max 1 (n + 1)) (max 1 (page_count (length items) limit)) - 1 ≡ n =
      omega arith in
    rw here refl

first_pages-take :
    {A : Type 0} (items : List A) (limit n : ℕ)
    → n ≤ page_count (length items) limit
    → first_pages items limit n ≡ take (n * limit) items
first_pages-take items limit zero h = let nothing : 0 * limit ≡ 0 = omega arith in rw nothing refl
first_pages-take items limit (suc n) h =
    let next : suc n * limit ≡ n * limit + limit = omega arith in
    rw
      (
        first_pages-take items limit n (omega arith),
        page_slice_lem items limit n (omega arith),
        next,
      )
      (take-drop (n * limit) limit items)

-- The pages are enough for all rows.
page_count-enough : (total limit : ℕ) → 0 < limit → total ≤ page_count total limit * limit
unfolding page_count
page_count-enough total limit h =
    let q = (total + (limit - 1)) / limit in
    let enough = lt-div-mul-add {a = total + (limit - 1)} {b = limit} h in
    let some_limit : (limit == 0) ≡ false = ground arith in
    rw some_limit (elim (Bool-cases (leb 1 q)) [
      | inl pages ↦ let largest : max 1 q ≡ q = ground arith in rw largest (omega (arith, enough))
      | inr no_page ↦
          let empty : q ≡ 0 = ground arith in
          let no_row : q * limit ≡ 0 = rw empty (omega arith) in omega (arith, enough, no_row)
    ])

-- The pages of a list, of a limit that is not 0, are the list, one behind the other from the first to
-- the last.
pub first_pages-all :
    {A : Type 0} (items : List A) (limit : ℕ)
    → 0 < limit
    → first_pages items limit (page_count (length items) limit) ≡ items
first_pages-all items limit h =
    first_pages-take items limit (page_count (length items) limit) (omega arith)
    ∙ take-all (page_count (length items) limit * limit) items
        (page_count-enough (length items) limit h)
