-- ===== src/Common/Pages.antt =====
-- The pages that the list endpoints answer (common/pagination.py).
use chamneul.Base.{ℕ, suc, ◌*◌, ◌≤◌, ◌≡◌, refl, List, length, arith}
use chamneul.Base.Slices.{take, drop, length-take_le}
use chamneul.Common.Exec.{Result, ok, err}
use chamneul.Common.Requests.{Reply}
use chamneul.Common.Pagination.{
  Paging, Page, page_of, Paginator, Listing, max_page_size, page_size, get_paginated_response,
  answered, paginated,
}

-- A page of the rows: what the answer says of its place and its size is what its items are.
abbrev pub IsListing : {A B : Type 0} → (List A → List B) → List A → Reply (Listing B) → Type 0
IsListing serializer queryset r =
    (k : ℕ) × (r.status ≡ 200)
    × (r.body.page_info.page ≡ suc k)
    × (suc k ≤ r.body.page_info.total_pages)
    × (r.body.page_info.size ≤ 100)
    × (length r.body.items ≤ r.body.page_info.size)
    × (r.body.page_info.total ≡ length queryset)
    × (r.body.items
        ≡ serializer (take r.body.page_info.size (drop (k * r.body.page_info.size) queryset)))

module _ {A B : Type 0} (g : Paginator) (q : Paging) (serializer : List A → List B)
    (rows : (xs : List A) → length (serializer xs) ≡ length xs) (queryset : List A) where
  page_size_lem : (1 ≤ page_size g q) × (page_size g q ≤ max_page_size)
  page_size_lem = g.size_in_range max_page_size 20 q.size (omega arith) (omega arith)

  length-page_le :
      (size k : ℕ) (n : ℕ) → length (serializer (page_of n size queryset k).rows) ≤ size
  length-page_le size k n =
      rw (rows (take size (drop (k * size) queryset)))
        (length-take_le size (drop (k * size) queryset))

  bounded :
      (res : Result (Page A)) (r : Reply (Listing B))
      → g.paginate_queryset queryset (page_size g q) q.page ≡ res
      → answered g q serializer res ≡ ok r
      → IsListing serializer queryset r
  unfolding get_paginated_response
  bounded (err e) r h a = absurd (ground arith)
  bounded (ok p) r h a =
      let (k, below, shape) = g.on_answer queryset (page_size g q) q.page p page_size_lem.0 h in
      (
        k,
        ground arith,
        ground arith,
        ground arith,
        ground (arith, page_size_lem),
        ground (arith, length-page_le (page_size g q) k p.num_pages),
        ground arith,
        ground arith,
      )

  -- What a list endpoint answers is 200 with a page whose stated number and size are those of its
  -- items: page k + 1 of size at most 100 has, through the serializer, the rows from k times the
  -- size on, as many as the size or what is left; it has no more items than the size, the stated
  -- total is the number of all rows, and the number is at most the number of pages; where the
  -- serializer makes one item of each row.
  pub paginated_bounds :
      (r : Reply (Listing B))
      → paginated g q serializer queryset ≡ ok r
      → IsListing serializer queryset r
  unfolding paginated
  paginated_bounds r h = bounded (g.paginate_queryset queryset (page_size g q) q.page) r refl h
