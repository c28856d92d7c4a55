-- ===== src/Risk/Median.antt =====
-- The median of scores: it does not depend on their order, and lies between the least and the most.
use fcare.Base.{
  ℕ, zero, suc, ◌-◌, ◌*◌, ◌/◌, ◌≤◌, ◌<◌, ◌≡◌, refl, ap, ◌∙◌, List, [], ◌∷◌, Permᴰ, arith, length,
  get_or, All,
}
use fcare.Risk.{insert, sort, median2}

insert-insert : (x y : ℕ) (l : List ℕ) → insert x (insert y l) ≡ insert y (insert x l)
unfolding insert
insert-insert x y [] = ground arith
insert-insert x y (z ∷ l) = ground (arith, insert-insert x y l)

pub sort-perm : {xs ys : List ℕ} → Permᴰ xs ys → sort xs ≡ sort ys
unfolding sort
sort-perm Permᴰ.nil = refl
sort-perm (Permᴰ.cons {l₂ = l} e p) = λ i. insert (e i) (sort-perm p i)
sort-perm (Permᴰ.swap {a} {b} {a'} {b'} {l} e f) =
    insert-insert a b (sort l) ∙ (λ i. insert (f i) (insert (e i) (sort l)))
sort-perm (Permᴰ.trans p q) = sort-perm p ∙ sort-perm q

length-insert : (x : ℕ) (l : List ℕ) → length (insert x l) ≡ suc (length l)
unfolding insert
length-insert x [] = refl
length-insert x (y ∷ l) = ground (arith, length-insert x l)

pub length-sort : (xs : List ℕ) → length (sort xs) ≡ length xs
unfolding sort
length-sort [] = refl
length-sort (x ∷ xs) = length-insert x (sort xs) ∙ ap suc (length-sort xs)

pub length-perm : {xs ys : List ℕ} → Permᴰ xs ys → length xs ≡ length ys
length-perm {xs} {ys} p = omega (arith, length-sort xs, length-sort ys, ap length (sort-perm p))

-- The median of the same values in another order is the same.
pub median2-perm : {xs ys : List ℕ} → Permᴰ xs ys → median2 xs ≡ median2 ys
unfolding median2
median2-perm p = ground (arith, sort-perm p, length-perm p)

module _ (lo hi : ℕ) where
  abbrev pub Within : List ℕ → Type 0
  Within = All (λ v. (lo ≤ v) × (v ≤ hi))

  insert-Within : (x : ℕ) (l : List ℕ) → lo ≤ x → x ≤ hi → Within l → Within (insert x l)
  unfolding insert
  insert-Within x [] p q h = ((p, q), tt)
  insert-Within x (y ∷ l) p q h = ground (arith, insert-Within x l)

  sort-Within : (xs : List ℕ) → Within xs → Within (sort xs)
  unfolding sort
  sort-Within [] h = tt
  sort-Within (x ∷ xs) h = insert-Within x (sort xs) h.0.0 h.0.1 (sort-Within xs h.1)

  get_or-Within :
      (xs : List ℕ) (i : ℕ)
      → Within xs
      → i < length xs
      → (lo ≤ get_or xs i 0) × (get_or xs i 0 ≤ hi)
  get_or-Within [] i h p = elim p [ ]
  get_or-Within (x ∷ xs) zero h p = h.0
  get_or-Within (x ∷ xs) (suc i) h p = get_or-Within xs i h.1 (omega arith)

  -- If all values lie between two bounds and there is a value, so does the median.
  pub median2_bounds :
      (xs : List ℕ) → Within xs → 0 < length xs → (2 * lo ≤ median2 xs) × (median2 xs ≤ 2 * hi)
  unfolding median2
  median2_bounds xs h p =
      let w = sort-Within xs h in
      let n = length-sort xs in
      let mid = get_or-Within (sort xs) (length (sort xs) / 2) w (omega arith) in
      let low = get_or-Within (sort xs) (length (sort xs) / 2 - 1) w (omega arith) in ground arith
