-- ===== src/Web/Selecting.antt =====
-- A selection stays a set of at most the limit.
use fcare.Base.{
  ℕ, ◌+◌, ◌≤◌, Bool, not, List, [], ◌∷◌, ◌==◌, leb, arith, length, length-append, keep, Bool-cases,
  inl, inr,
}
use fcare.Web.{
  bulk_delete_max, put_id, drop_id, toggle_selected, drop_all, put_all, toggle_all_selected,
}

length-keep : (q : ℕ → Bool) (xs : List ℕ) → length (keep q xs) ≤ length xs
length-keep q [] = omega arith
length-keep q (x ∷ xs) = ground (arith, length-keep q xs)

put_id_le : (selected : List ℕ) (id : ℕ) → length (put_id selected id) ≤ length selected + 1
put_id_le selected id = ground (arith, length-append selected (id ∷ []))

drop_all_le : (selected ids : List ℕ) → length (drop_all selected ids) ≤ length selected
drop_all_le selected [] = omega arith
drop_all_le selected (id ∷ ids) =
    omega (arith, drop_all_le (drop_id selected id) ids, length-keep (λ x. not (x == id)) selected)

put_all_le :
    (selected ids : List ℕ)
    → length selected ≤ bulk_delete_max
    → length (put_all selected ids) ≤ bulk_delete_max
put_all_le selected [] h = h
put_all_le selected (id ∷ ids) h = elim (Bool-cases (leb bulk_delete_max (length selected))) [
  | inl full ↦ rw full (put_all_le selected ids h)
  | inr room ↦ rw room (put_all_le (put_id selected id) ids (ground (arith, put_id_le selected id)))
]

-- No change of a selection, one alert or a page at once, takes it beyond the limit of one deletion.
pub toggle_selected_le :
    (selected page_ids : List ℕ) (id : ℕ)
    → length selected ≤ bulk_delete_max
    → (length (toggle_selected selected id) ≤ bulk_delete_max)
      × (length (toggle_all_selected selected page_ids) ≤ bulk_delete_max)
unfolding toggle_selected toggle_all_selected
toggle_selected_le selected page_ids id h = (
  ground (arith, length-keep (λ x. not (x == id)) selected, put_id_le selected id),
  ground (arith, drop_all_le selected page_ids, put_all_le selected page_ids),
)
