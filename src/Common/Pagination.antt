-- ===== src/Common/Pagination.antt =====
-- common/pagination.py, and how a list endpoint uses it: `paginate_queryset`, the serializer of the
-- page, `get_paginated_response`. The paginator of the framework is a parameter.
use chamneul.Base.{ℕ, suc, ◌*◌, ◌≤◌, ◌<◌, String, ◌≡◌, Option, some, List, length}
use chamneul.Base.Slices.{take, drop}
use chamneul.Models.{Db}
use chamneul.Common.Exec.{Exec, Result, ok, err}
use chamneul.Common.Requests.{Reply, replies}

-- A page of the framework: its number, its rows, and what its paginator counted.
pub record Page (A : Type 0) : Type 0 where
  pub number : ℕ
  pub rows : List A
  pub count : ℕ
  pub num_pages : ℕ

-- `?page=` and `?size=` as they are sent.
pub record Paging : Type 0 where
  pub page : Option String
  pub size : Option String

-- Page `suc k` of a list, by its size and the number of its pages.
abbrev pub page_of : {A : Type 0} → ℕ → ℕ → List A → ℕ → Page A
page_of pages size xs k = record {
  number = suc k;
  rows = take size (drop (k * size) xs);
  count = length xs;
  num_pages = pages;
}

-- `PageNumberPagination`. `get_page_size` reads the size under a cap and a default; `num_pages` is
-- the quotient, rounded up, and at least 1; a page is a slice of the rows; what names no page is
-- refused. `decimal` writes the number of a page.
pub record Paginator : Type 1 where
  pub get_page_size : ℕ → ℕ → Option String → ℕ
  pub num_pages : ℕ → ℕ → ℕ
  pub paginate_queryset : {A : Type 0} → List A → ℕ → Option String → Result (Page A)
  pub decimal : ℕ → String
  pub size_in_range :
      (cap default : ℕ) (q : Option String)
      → 1 ≤ default
      → default ≤ cap
      → (1 ≤ get_page_size cap default q) × (get_page_size cap default q ≤ cap)
  pub pages_enough : (n size : ℕ) → 1 ≤ size → n ≤ num_pages n size * size
  pub on_number :
      {A : Type 0} (xs : List A) (size k : ℕ)
      → 1 ≤ size
      → k < num_pages (length xs) size
      → paginate_queryset xs size (some (decimal (suc k)))
        ≡ ok (page_of (num_pages (length xs) size) size xs k)
  pub on_answer :
      {A : Type 0} (xs : List A) (size : ℕ) (q : Option String) (p : Page A)
      → 1 ≤ size
      → paginate_queryset xs size q ≡ ok p
      → (k : ℕ) × (k < num_pages (length xs) size)
        × (p ≡ page_of (num_pages (length xs) size) size xs k)

-- `max_page_size`, and `PAGE_SIZE` of the settings.
abbrev pub max_page_size : ℕ
max_page_size = 100

abbrev pub default_page_size : ℕ
default_page_size = 20

pub record PageInfo : Type 0 where
  pub page : ℕ
  pub size : ℕ
  pub total : ℕ
  pub total_pages : ℕ

pub record Listing (B : Type 0) : Type 0 where
  pub items : List B
  pub page_info : PageInfo

abbrev pub page_size : Paginator → Paging → ℕ
page_size g q = g.get_page_size max_page_size default_page_size q.size

unfoldable pub get_paginated_response :
    {A B : Type 0} → Paginator → Paging → Page A → List B → Reply (Listing B)
get_paginated_response g q p items = replies 200 (record {
  items = items;
  page_info = record {
    page = p.number;
    size = page_size g q;
    total = p.count;
    total_pages = p.num_pages;
  };
})

abbrev pub answered :
    {A B : Type 0}
    → Paginator
    → Paging
    → (List A → List B)
    → Result (Page A)
    → Result (Reply (Listing B))
answered g q serializer (err e) = err e
answered g q serializer (ok p) = ok (get_paginated_response g q p (serializer p.rows))

-- The end of every list handler: the page that is asked for, its rows through the serializer.
unfoldable pub paginated :
    {A B : Type 0} → Paginator → Paging → (List A → List B) → List A → Result (Reply (Listing B))
paginated g q serializer queryset =
    answered g q serializer (g.paginate_queryset queryset (page_size g q) q.page)

-- A list handler over a queryset of the database, which the serializer may read too.
abbrev pub list_view :
    {A B : Type 0}
    → Paginator
    → Paging
    → (Db → List A → List B)
    → (Db → List A)
    → Exec (Reply (Listing B))
list_view g q serializer queryset db = (paginated g q (serializer db) (queryset db), db)
