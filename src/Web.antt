-- ===== src/Web.antt =====
-- Logic of the web application apart from its pages: the numbers of a paged list
-- (apps/web/src/lib/pagination.ts) and the selection of alerts (apps/web/src/lib/alert-actions.ts).
-- Pages, limits and totals are natural numbers, as the API sends them; a selection is a JavaScript
-- `Set`, a list of ids in the order of their insertion. Labels are left out.
mod Paging
mod Window
mod Selecting
mod Tests
use fcare.Base.{
  ℕ, zero, suc, ◌+◌, ◌-◌, ◌*◌, ◌/◌, max, min, Bool, true, false, not, ◌&&◌, ◌||◌, Option, none,
  some, List, [], ◌∷◌, ◌++◌, ◌==◌, ltb, leb, if◌then◌else◌, length, take, drop, all, keep, contains,
}

-- `Math.ceil(total / limit)` is rounded up by hand.
unfoldable pub page_count : (total limit : ℕ) → ℕ
page_count total limit = if limit == 0 then 1 else max 1 ((total + (limit - 1)) / limit)

unfoldable pub clamp_page : (page total_pages : ℕ) → ℕ
clamp_page page total_pages = min (max 1 page) (max 1 total_pages)

unfoldable pub page_slice : {A : Type 0} → List A → (page limit : ℕ) → List A
unfolding page_count clamp_page
page_slice items page limit =
    let safe_page = clamp_page page (page_count (length items) limit) in
    take limit (drop ((safe_page - 1) * limit) items)

pub data PaginationItem : Type 0 where
  page_item : ℕ → PaginationItem
  ellipsis : PaginationItem

-- The pages from a first one on.
abbrev pub pages_from : (first : ℕ) (how_many : ℕ) → List PaginationItem
pages_from first zero = []
pages_from first (suc n) = page_item first ∷ pages_from (first + 1) n

unfoldable pub pagination_window : (current_page total_pages : ℕ) → List PaginationItem
pagination_window current_page total_pages =
    if leb total_pages 1
    then page_item 1 ∷ []
    else if leb total_pages 7
    then pages_from 1 total_pages
    else if leb current_page 4
    then page_item 1
      ∷ page_item 2
      ∷ page_item 3
      ∷ page_item 4
      ∷ page_item 5
      ∷ ellipsis
      ∷ page_item total_pages
      ∷ []
    else if leb (total_pages - 3) current_page
    then page_item 1
      ∷ ellipsis
      ∷ page_item (total_pages - 4)
      ∷ page_item (total_pages - 3)
      ∷ page_item (total_pages - 2)
      ∷ page_item (total_pages - 1)
      ∷ page_item total_pages
      ∷ []
    else page_item 1
      ∷ ellipsis
      ∷ page_item (current_page - 1)
      ∷ page_item current_page
      ∷ page_item (current_page + 1)
      ∷ ellipsis
      ∷ page_item total_pages
      ∷ []

abbrev pub bulk_delete_max : ℕ
bulk_delete_max = 100

-- `next.add(id)` and `next.delete(id)`
abbrev pub put_id : List ℕ → ℕ → List ℕ
put_id selected id = if contains selected id then selected else selected ++ id ∷ []

abbrev pub drop_id : List ℕ → ℕ → List ℕ
drop_id selected id = keep (λ x. not (x == id)) selected

unfoldable pub toggle_selected : List ℕ → ℕ → List ℕ
toggle_selected selected id =
    if contains selected id
    then drop_id selected id
    else if ltb (length selected) bulk_delete_max
    then put_id selected id
    else selected

abbrev pub drop_all : List ℕ → List ℕ → List ℕ
drop_all selected [] = selected
drop_all selected (id ∷ ids) = drop_all (drop_id selected id) ids

-- Ids are added until the page is through or the limit is reached.
abbrev pub put_all : List ℕ → List ℕ → List ℕ
put_all selected [] = selected
put_all selected (id ∷ ids) =
    put_all (if leb bulk_delete_max (length selected) then selected else put_id selected id) ids

abbrev pub is_some_page : List ℕ → Bool
is_some_page [] = false
is_some_page (id ∷ ids) = true

unfoldable pub toggle_all_selected : List ℕ → (page_ids : List ℕ) → List ℕ
toggle_all_selected selected page_ids =
    if is_some_page page_ids && all (contains selected) page_ids
    then drop_all selected page_ids
    else put_all selected page_ids
