-- ===== src/Pagination.antt =====
-- internal/web/pagination.go: pages of a list, and the links between them. The values of a query
-- are a map from names to lists of texts; a link is the path and the values that its query encodes
-- (`Encode` sorts them by name, and the reader of the next request decodes them again). Page
-- numbers and totals are not negative; an offset and a count of pages are the bit patterns of their
-- ints.
pub mod Rows
pub mod Window
pub mod Links
pub mod Requests
pub mod Queries
mod Examples
use didstorageapp.Prelude.{
  ℕ, zero, suc, ◌+◌, ◌-◌, ◌*◌, ◌/◌, ◌%◌, ◌^◌, Bool, true, false, ◌&&◌, ◌||◌, not, Option, none,
  some, List, [], ◌∷◌, ◌++◌, any, find, keep, get_elem?, ◌==◌, leb, ltb, if◌then◌else◌,
}
use didstorageapp.Prelude.Text.{Bytes, codes, same, is_empty}
use didstorageapp.Prelude.Int.{ℤ, pos, negsuc}
use didstorageapp.Strconv.{atoi, format_int64, is_negative}
use didstorageapp.Snapshots.{find_key, put}

-- url.Values
abbrev pub Values : Type 0
Values = List (Bytes × List Bytes)

abbrev pub name_of : Bytes × List Bytes → Bytes
name_of v = v.0

abbrev pub first_value : Option (Bytes × List Bytes) → Bytes
first_value none = []
first_value (some (name, [])) = []
first_value (some (name, x ∷ xs)) = x

-- `q.Get(name)`
abbrev pub value : Bytes → Values → Bytes
value name q = first_value (find_key name_of name q)

-- `v.Set(name, x)`
abbrev pub assign : Bytes → Bytes → Values → Values
assign name x v = put name_of (name, x ∷ []) v

pub record Pagination : Type 0 where
  pub page : ℕ
  pub per_page : ℕ
  pub total : ℕ
  pub sort : Bytes
  pub dir : Bytes
  pub q : Bytes
  pub base_url : Bytes
  pub preserved : Values

-- `a / b` for an int and a positive divisor, rounded towards 0.
abbrev pub div_int64 : ℕ → ℕ → ℕ
div_int64 a b = if is_negative a then (2 ^ 64 - (2 ^ 64 - a) / b) % 2 ^ 64 else a / b

-- Pages, as the bit pattern of its int.
unfoldable pub page_count : Pagination → ℕ
page_count p =
    if p.per_page == 0
    then 1
    else let n = div_int64 ((p.total + p.per_page - 1) % 2 ^ 64) p.per_page in
      if n == 0 then 1 else n

unfoldable pub offset : Pagination → ℕ
offset p = ((p.page - 1) * p.per_page) % 2 ^ 64

abbrev pub limit : Pagination → ℕ
limit p = p.per_page

-- An entry of the page window.
pub data Mark : Type 0 where
  gap : Mark
  page : ℕ → Mark

-- `k` page numbers from `n` on, before the others.
unfoldable pub page_run : ℕ → ℕ → List Mark → List Mark
page_run n zero behind = behind
page_run n (suc k) behind = page n ∷ page_run (n + 1) k behind

abbrev pub gap_if : Bool → List Mark → List Mark
gap_if true behind = gap ∷ behind
gap_if false behind = behind

abbrev pub run_start : ℕ → ℕ
run_start cur = if ltb (cur - 2) 2 then 2 else cur - 2

-- `cur + 2`, at most `total - 1`. The sum wraps around to a negative int for the two largest pages:
-- 0 stands for that, since both are below every start.
abbrev pub run_end : ℕ → ℕ → ℕ
run_end cur total =
    if leb (2 ^ 63) (cur + 2) then 0 else if ltb (total - 1) (cur + 2) then total - 1 else cur + 2

-- A negative count of pages, which `make` refuses with a panic, has no entries here.
unfoldable pub page_window : Pagination → List Mark
page_window p =
    let total = page_count p in
    let start = run_start p.page in
    let end = run_end p.page total in
    if is_negative total
    then []
    else if leb total 9
    then page_run 1 total []
    else page 1
      ∷ gap_if (ltb 2 start)
          (page_run start (end + 1 - start) (gap_if (ltb end (total - 1)) (page total ∷ [])))

abbrev pub has_values : Bytes × List Bytes → Bool
has_values (name, []) = false
has_values (name, x ∷ xs) = true

-- The copy that starts a link: `Add` of every value, so a name without values is left out.
abbrev pub copied : Values → Values
copied v = keep has_values v

-- The parameters that every link has.
abbrev pub paged : ℕ → Pagination → Values
paged n p =
    assign (codes "per_page") (format_int64 p.per_page)
      (assign (codes "page") (format_int64 n) (copied p.preserved))

abbrev pub assign_filled : Bytes → Bytes → Values → Values
assign_filled name x v = if is_empty x then v else assign name x v

unfoldable pub page_url : ℕ → Pagination → Bytes × Values
page_url n p = (
  p.base_url,
  assign_filled (codes "q") p.q
      (assign_filled (codes "dir") p.dir (assign_filled (codes "sort") p.sort (paged n p))),
)

abbrev pub link_dir : Bytes → Pagination → Bytes
link_dir col p = if same p.sort col && same p.dir (codes "asc") then codes "desc" else codes "asc"

unfoldable pub sort_link : Bytes → Pagination → Bytes × Values
sort_link col p = (
  p.base_url,
  assign_filled (codes "q") p.q
      (assign (codes "dir") (link_dir col p) (assign (codes "sort") col (paged 1 p))),
)

abbrev pub sort_arrow : Bytes → Pagination → Bytes
sort_arrow col p = if same p.sort col then p.dir else []

abbrev pub is_page_name : Bytes → Bool
is_page_name k =
    same k (codes "page")
    || same k (codes "per_page")
    || same k (codes "sort")
    || same k (codes "dir")
    || same k (codes "q")

abbrev pub page_in : Bytes → ℤ → ℕ
page_in [] n = 1
page_in (c ∷ s) (pos zero) = 1
page_in (c ∷ s) (pos (suc n)) = suc n
page_in (c ∷ s) (negsuc n) = 1

abbrev pub per_page_in : Bytes → ℤ → ℕ
per_page_in [] n = 25
per_page_in (c ∷ s) (pos n) = if leb 10 n && leb n 1000 then n else 25
per_page_in (c ∷ s) (negsuc n) = 25

-- The sort column, when it is one of those that are allowed.
abbrev pub sort_in : List (Bytes × Bytes) → Bytes → Bytes → Bytes
sort_in allowed default_sort v =
    if not (is_empty v) && any (λ (a : Bytes × Bytes). same a.0 v) allowed then v else default_sort

abbrev pub dir_in : Bytes → Bytes
dir_in v = if same v (codes "asc") || same v (codes "desc") then v else codes "desc"

unfoldable pub read_pagination : List (Bytes × Bytes) → Bytes → Bytes → Values → Pagination
read_pagination allowed default_sort base_url q = record {
  page = page_in (value (codes "page") q) (atoi (value (codes "page") q));
  per_page = per_page_in (value (codes "per_page") q) (atoi (value (codes "per_page") q));
  total = 0;
  sort = sort_in allowed default_sort (value (codes "sort") q);
  dir = dir_in (value (codes "dir") q);
  q = value (codes "q") q;
  base_url = base_url;
  preserved = keep (λ v. not (is_page_name v.0)) q;
}

abbrev pub expression : Option (Bytes × Bytes) → Option (Bytes × Bytes) → Bytes
expression (some a) other = a.1
expression none (some a) = a.1
expression none none = []

-- `i` is the entry with which the iteration of the map happens to start.
abbrev pub order_by_clause : ℕ → List (Bytes × Bytes) → Pagination → Bytes
order_by_clause i allowed p =
    codes " ORDER BY "
    ++ expression (find (λ (a : Bytes × Bytes). same a.0 p.sort) allowed) (get_elem? allowed i)
    ++ codes (if same p.dir (codes "asc") then " ASC" else " DESC")
