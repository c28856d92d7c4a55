-- ===== src/Web/Tests.antt =====
-- A list of five rows in pages of two.
use fcare.Base.{ℕ, ◌≤◌, ◌≡◌, refl, List, [], ◌∷◌, arith, length}
use fcare.Web.{page_count, page_slice, pagination_window}
use fcare.Web.Paging.{first_pages, first_pages-all}
use fcare.Web.Window.{pagination_window_lem}

abbrev rows : List ℕ
rows = 11 ∷ 12 ∷ 13 ∷ 14 ∷ 15 ∷ []

test_page_slice : page_slice rows 9 2 ≡ 15 ∷ []
unfolding page_slice
test_page_slice = refl

first_pages-all_example : first_pages rows 2 (page_count 5 2) ≡ rows
first_pages-all_example = first_pages-all rows 2 (omega arith)

pagination_window_lem_example : length (pagination_window 12 25) ≤ 7
pagination_window_lem_example = (pagination_window_lem 12 25 (omega arith) (omega arith)).0
