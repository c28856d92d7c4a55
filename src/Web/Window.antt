-- ===== src/Web/Window.antt =====
-- The buttons of a paged list.
use fcare.Base.{
  ℕ, zero, suc, ◌+◌, ◌≤◌, ◌<◌, ◌≡◌, refl, Bool, true, false, ◌==◌, leb, arith, length, any,
  Bool-cases, inl, inr,
}
use fcare.Web.{PaginationItem, page_item, ellipsis, pages_from, pagination_window}

abbrev pub is_page : ℕ → PaginationItem → Bool
is_page n (page_item m) = m == n
is_page n ellipsis = false

any-pages_from :
    (p first n : ℕ) → first ≤ p → p < first + n → any (is_page p) (pages_from first n) ≡ true
any-pages_from p first zero h k = ground arith
any-pages_from p first (suc n) h k = elim (Bool-cases (first == p)) [
  | inl same ↦ rw same refl
  | inr later ↦ rw later (any-pages_from p (first + 1) n (ground arith) (ground arith))
]

length-pages_from : (first n : ℕ) → length (pages_from first n) ≡ n
length-pages_from first zero = refl
length-pages_from first (suc n) = omega (arith, length-pages_from (first + 1) n)

-- For a page from the first to the last there are at most seven buttons and dots, and among them the
-- page's own, the first and the last page.
pub pagination_window_lem :
    (current total : ℕ)
    → 1 ≤ current
    → current ≤ total
    → (length (pagination_window current total) ≤ 7)
      × (any (is_page current) (pagination_window current total) ≡ true)
      × (any (is_page 1) (pagination_window current total) ≡ true)
      × (any (is_page total) (pagination_window current total) ≡ true)
unfolding pagination_window
pagination_window_lem current total h k = elim (Bool-cases (leb total 7)) [
  | inl few ↦
      let shown = λ (p : ℕ). any-pages_from p 1 total in
      (
        ground (arith, length-pages_from 1 total),
        ground (arith, any-pages_from current 1 total),
        ground (arith, any-pages_from 1 1 total),
        ground (arith, any-pages_from total 1 total),
      )
  | inr many ↦ (ground arith, ground arith, ground arith, ground arith)
]
