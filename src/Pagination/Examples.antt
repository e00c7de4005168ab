-- ===== src/Pagination/Examples.antt =====
-- Pages of a small list, and requests for them.
use didstorageapp.Prelude.{◌+◌, ◌/◌, ◌≤◌, ◌≡◌, true, List, [], ◌∷◌, any, ◌==◌, refl, arith}
use didstorageapp.Prelude.Text.{Bytes, codes}
use didstorageapp.Strconv.{atoi, unsigned_from, is_negative}
use didstorageapp.Pagination.{
  Values, Pagination, page_count, offset, gap, page, page_run, page_window, page_url,
  read_pagination,
}
use didstorageapp.Pagination.Rows.{at, on_page, on_page-at}
use didstorageapp.Pagination.Window.{Leads, marks, page_window_lem}
use didstorageapp.Pagination.Requests.{read_pagination-page_url}
use didstorageapp.Pagination.Queries.{offset-read_pagination}

abbrev columns : List (Bytes × Bytes)
columns = (codes "id", codes "r.id") ∷ (codes "name", codes "r.name") ∷ []

abbrev query : Values
query =
    (codes "page", codes "6" ∷ [])
    ∷ (codes "status", codes "active" ∷ [])
    ∷ (codes "per_page", codes "10" ∷ [])
    ∷ []

abbrev sixth : Pagination
sixth = record {
  page = 6;
  per_page = 10;
  total = 195;
  sort = codes "id";
  dir = codes "asc";
  q = [];
  base_url = codes "/resellers";
  preserved = [];
}

twenty_pages : page_count sixth ≡ 20
unfolding page_count
twenty_pages = refl

window_of_sixth :
    page_window sixth
    ≡ page 1 ∷ gap ∷ page 4 ∷ page 5 ∷ page 6 ∷ page 7 ∷ page 8 ∷ gap ∷ page 20 ∷ []
unfolding page_window page_count page_run
window_of_sixth = refl

reads_page : (read_pagination columns (codes "id") (codes "/resellers") query).page ≡ 6
unfolding read_pagination atoi unsigned_from
reads_page = refl

on_page-at_example :
    (on_page (at 6 sixth) 57 ≡ (6 == 57 / 10 + 1)) × (57 / 10 + 1 ≤ page_count sixth)
unfolding page_count
on_page-at_example =
    on_page-at sixth 6 57 (omega arith) (omega arith) (omega arith) (omega arith) (omega arith)

page_window_lem_example :
    Leads 0 (page_window sixth) (page_count sixth) × (any (marks 6) (page_window sixth) ≡ true)
unfolding page_count
page_window_lem_example = page_window_lem sixth (omega arith) (omega arith) (omega arith)

read_pagination-page_url_example :
    read_pagination columns
      (codes "id")
      (codes "/resellers")
      (page_url 7 (read_pagination columns (codes "id") (codes "/resellers") query)).1
    ≡ record (read_pagination columns (codes "id") (codes "/resellers") query) { page = 7 }
read_pagination-page_url_example =
    read_pagination-page_url columns (codes "id") (codes "/resellers") query 7
      (refl, (refl, (refl, tt))) (omega arith) (omega arith)

abbrev far : Values
far = (codes "page", codes "99999999999999999999" ∷ []) ∷ (codes "per_page", codes "50" ∷ []) ∷ []

offset-read_pagination_example :
    is_negative (offset (read_pagination columns (codes "id") (codes "/resellers") far)) ≡ true
unfolding atoi unsigned_from read_pagination
offset-read_pagination_example =
    offset-read_pagination columns (codes "id") (codes "/resellers") far refl refl
