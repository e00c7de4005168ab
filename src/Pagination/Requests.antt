-- ===== src/Pagination/Requests.antt =====
-- What the requests after a link read, and the offset of the largest page.
use didstorageapp.Prelude.{
  ℕ, ◌^◌, ◌≤◌, ◌<◌, ◌≡◌, true, false, ◌&&◌, ◌||◌, not, List, any, All, refl, arith, Bool-cases, inl,
  inr, ap, ◌∙◌,
}
use didstorageapp.Prelude.Text.{Bytes, codes, same, is_empty}
use didstorageapp.Strconv.{atoi, format_int64, is_empty-digits_of}
use didstorageapp.Pagination.{
  Values, value, assign, assign_filled, Pagination, copied, has_values, paged, page_url, sort_link,
  link_dir, sort_in, dir_in, read_pagination,
}
use didstorageapp.Pagination.Links.{
  others, link, read-link, others_twice, value-others, copied_all, format_small, per_page_bounds,
}

assign_filled_lem :
    (name x : Bytes) (v : Values) → is_empty x ≡ false → assign name x v ≡ assign_filled name x v
assign_filled_lem name x v h = rw h refl

format_filled : (n : ℕ) → n < 2 ^ 63 → is_empty (format_int64 n) ≡ false
format_filled n h = ap is_empty (format_small n h) ∙ is_empty-digits_of 19 n

paged-link :
    (n : ℕ) (p : Pagination)
    → n < 2 ^ 63
    → p.per_page < 2 ^ 63
    → paged n p
      ≡ assign_filled
          (codes "per_page")
          (format_int64 p.per_page)
          (assign_filled (codes "page") (format_int64 n) (copied p.preserved))
paged-link n p h k =
    assign_filled_lem (codes "per_page") (format_int64 p.per_page) _ (format_filled p.per_page k)
    ∙ ap (assign_filled (codes "per_page") (format_int64 p.per_page))
        (assign_filled_lem (codes "page") (format_int64 n) (copied p.preserved) (format_filled n h))

sort_in_twice :
    (allowed : List (Bytes × Bytes)) (d v : Bytes)
    → sort_in allowed d (sort_in allowed d v) ≡ sort_in allowed d v
sort_in_twice allowed d v =
    elim (Bool-cases (not (is_empty v) && any (λ (a : Bytes × Bytes). same a.0 v) allowed)) [
      | inl e ↦ rw (e, e) refl
      | inr e ↦
          rw e
            (elim (Bool-cases
              (not (is_empty d) && any (λ (a : Bytes × Bytes). same a.0 d) allowed)) [
                | inl e' ↦ rw e' refl
                | inr e' ↦ rw e' refl
              ])
    ]

dir_in_twice : (v : Bytes) → dir_in (dir_in v) ≡ dir_in v
dir_in_twice v = elim (Bool-cases (same v (codes "asc") || same v (codes "desc"))) [
  | inl e ↦ rw (e, e) refl
  | inr e ↦ rw e refl
]

-- The parameters of a link on a request, read.
read-paged :
    (allowed : List (Bytes × Bytes)) (default_sort base_url : Bytes) (q : Values) (n : ℕ)
    (s d t : Bytes)
    → All (λ (e : Bytes × List Bytes). has_values e ≡ true) q
    → 1 ≤ n
    → n < 2 ^ 63
    → read_pagination allowed default_sort base_url (
        assign_filled (codes "q") t (
          assign_filled (codes "dir") d (
            assign_filled
              (codes "sort")
              s
              (paged n (read_pagination allowed default_sort base_url q)))))
      ≡ record (read_pagination allowed default_sort base_url q) {
        page = n;
        sort = sort_in allowed default_sort s;
        dir = dir_in d;
        q = t;
      }
unfolding read_pagination
read-paged allowed default_sort base_url q n s d t valued first small =
    let p = read_pagination allowed default_sort base_url q in
    let k = p.per_page in
    let sized = per_page_bounds (value (codes "per_page") q) (atoi (value (codes "per_page") q)) in
    let plain = copied_all q valued in
    ap
      (λ w. read_pagination allowed default_sort base_url (
        assign_filled (codes "q") t
          (assign_filled (codes "dir") d (assign_filled (codes "sort") s w))))
      (paged-link n p small (ground (arith, sized)))
    ∙ ap
        (λ v.
          read_pagination allowed default_sort base_url
            (link (format_int64 n) (format_int64 k) s d t v))
        plain
    ∙ read-link allowed default_sort base_url n k s d t (others q) (λ name h. value-others name q h)
        (others_twice q) first small sized

-- The link to a page, followed, gives the request of the same list at that page: with the page
-- size, the sort column, the direction, the search text and every other parameter of the request
-- that the link stands on. Every name in that request has a value, and the page is between 1 and
-- 2^63 - 1.
pub read_pagination-page_url :
    (allowed : List (Bytes × Bytes)) (default_sort base_url : Bytes) (q : Values) (n : ℕ)
    → All (λ (e : Bytes × List Bytes). has_values e ≡ true) q
    → 1 ≤ n
    → n < 2 ^ 63
    → read_pagination allowed default_sort base_url
        (page_url n (read_pagination allowed default_sort base_url q)).1
      ≡ record (read_pagination allowed default_sort base_url q) { page = n }
unfolding read_pagination page_url
read_pagination-page_url allowed default_sort base_url q n valued first small =
    let p = read_pagination allowed default_sort base_url q in
    read-paged allowed default_sort base_url q n p.sort p.dir p.q valued first small
    ∙ rw
        (
          sort_in_twice allowed default_sort (value (codes "sort") q),
          dir_in_twice (value (codes "dir") q),
        )
        refl

link_dir_filled :
    (col : Bytes) (p : Pagination)
    → (is_empty (link_dir col p) ≡ false) × (dir_in (link_dir col p) ≡ link_dir col p)
link_dir_filled col p = elim (Bool-cases (same p.sort col && same p.dir (codes "asc"))) [
  | inl e ↦ rw e (refl, refl)
  | inr e ↦ rw e (refl, refl)
]

-- The sort link of a column that is allowed, followed, gives the first page of the same list by
-- that column: descending when the list was by that column and ascending, ascending otherwise.
-- Every name in the request that the link stands on has a value.
pub read_pagination-sort_link :
    (allowed : List (Bytes × Bytes)) (default_sort base_url : Bytes) (q : Values) (col : Bytes)
    → All (λ (e : Bytes × List Bytes). has_values e ≡ true) q
    → (not (is_empty col) && any (λ (a : Bytes × Bytes). same a.0 col) allowed) ≡ true
    → read_pagination allowed default_sort base_url
        (sort_link col (read_pagination allowed default_sort base_url q)).1
      ≡ record (read_pagination allowed default_sort base_url q) {
        page = 1;
        sort = col;
        dir = link_dir col (read_pagination allowed default_sort base_url q);
      }
unfolding read_pagination sort_link
read_pagination-sort_link allowed default_sort base_url q col valued known =
    let p = read_pagination allowed default_sort base_url q in
    let filled : is_empty col ≡ false = ground (arith, known) in
    let (dir_filled, dir_read) = link_dir_filled col p in
    ap (λ w. read_pagination allowed default_sort base_url (assign_filled (codes "q") p.q w))
      (assign_filled_lem (codes "dir") (link_dir col p) _ dir_filled
        ∙ ap (assign_filled (codes "dir") (link_dir col p))
            (assign_filled_lem (codes "sort") col (paged 1 p) filled))
    ∙ read-paged allowed default_sort base_url q 1 col (link_dir col p) p.q valued (omega arith)
        (omega arith)
    ∙ rw (known, dir_read) refl
