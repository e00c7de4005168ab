-- ===== src/Pagination/Queries.antt =====
-- What a page asks of the database: the offset, and the order.
use didstorageapp.Prelude.{
  ℕ, zero, suc, ◌+◌, ◌-◌, ◌*◌, ◌/◌, ◌%◌, ◌^◌, ◌≤◌, ◌<◌, ◌≡◌, Bool, true, ◌&&◌, some, List, [], ◌∷◌,
  ◌++◌, any, find, length, get_elem?, leb, if◌then◌else◌, refl, arith, Bool-cases, Option-cases,
  inl, inr,
}
use didstorageapp.Prelude.Text.{Bytes, codes, same, same_refl}
use didstorageapp.Prelude.Int.{pos}
use didstorageapp.Strconv.{atoi, is_negative}
use didstorageapp.Pagination.{Values, value, offset, page_in, read_pagination, order_by_clause}
use didstorageapp.Pagination.Links.{per_page_bounds}

largest_page : (v : Bytes) → atoi v ≡ pos (2 ^ 63 - 1) → page_in v (pos (2 ^ 63 - 1)) ≡ 2 ^ 63 - 1
unfolding atoi
largest_page [] h = absurd (cc)
largest_page (c ∷ v) h = refl

offset_wraps :
    (k : ℕ)
    → (leb 10 k && leb k 1000) ≡ true
    → k % 2 ≡ 0
    → is_negative (((2 ^ 63 - 1 - 1) * k) % 2 ^ 64) ≡ true
offset_wraps k sized even =
    let half : k ≡ 2 * (k / 2) = omega (arith, even) in
    let small : (10 ≤ k) × (k ≤ 1000) = ground (arith, sized) in
    let wrapped : ((2 ^ 63 - 1 - 1) * k) % 2 ^ 64 + 2 * k ≡ 2 ^ 64 =
      omega (arith, half, small.0, small.1) in
    ground (arith, wrapped, small.0, small.1)

-- A page parameter that reads as the largest int, as every larger number does, gives a negative
-- offset when the page size is even.
pub offset-read_pagination :
    (allowed : List (Bytes × Bytes)) (default_sort base_url : Bytes) (q : Values)
    → atoi (value (codes "page") q) ≡ pos (2 ^ 63 - 1)
    → (read_pagination allowed default_sort base_url q).per_page % 2 ≡ 0
    → is_negative (offset (read_pagination allowed default_sort base_url q)) ≡ true
unfolding read_pagination offset
offset-read_pagination allowed default_sort base_url q h even =
    let page_lem = largest_page (value (codes "page") q) h in
    let sized = per_page_bounds (value (codes "per_page") q) (atoi (value (codes "per_page") q)) in
    rw (h, page_lem) (offset_wraps _ sized even)

any_found :
    (p : Bytes × Bytes → Bool) (xs : List (Bytes × Bytes)) (a : Bytes × Bytes)
    → find p xs ≡ some a
    → any (λ (x : Bytes × Bytes). same x.1 a.1) xs ≡ true
any_found p [] a h = absurd (cc)
any_found p (x ∷ xs) a h = elim (Bool-cases (p x)) [
  | inl e ↦ let hit : x ≡ a = cc (rw e at h) in rw (hit, same_refl a.1) refl
  | inr e ↦ ground (arith, any_found p xs a (rw e at h))
]

any_at :
    (xs : List (Bytes × Bytes)) (i : ℕ)
    → i < length xs
    → (a : Bytes × Bytes) × (get_elem? xs i ≡ some a)
      × (any (λ (x : Bytes × Bytes). same x.1 a.1) xs ≡ true)
any_at [] i h = absurd (omega (arith, h))
any_at (x ∷ xs) zero h = (x, refl, rw (same_refl x.1) refl)
any_at (x ∷ xs) (suc i) h =
    let (a, found, there) = any_at xs i (omega (arith, h)) in (a, found, ground (arith, there))

-- Whatever the request asks for, and whichever column the iteration of the map starts with, the
-- order is by one of the expressions that the handler allows, ascending or descending. The handler
-- allows one column at least.
pub order_by_clause-read_pagination :
    (i : ℕ) (allowed : List (Bytes × Bytes)) (default_sort base_url : Bytes) (q : Values)
    → i < length allowed
    → (e : Bytes) × (any (λ (a : Bytes × Bytes). same a.1 e) allowed ≡ true)
      × (order_by_clause i allowed (read_pagination allowed default_sort base_url q)
          ≡ codes " ORDER BY "
            ++ e
            ++ codes (
                if same (read_pagination allowed default_sort base_url q).dir (codes "asc")
                then " ASC"
                else " DESC"))
order_by_clause-read_pagination i allowed default_sort base_url q h =
    let p = read_pagination allowed default_sort base_url q in
    elim (Option-cases (find (λ (a : Bytes × Bytes). same a.0 p.sort) allowed)) [
      | inr (a, found) ↦
          (a.1, any_found (λ (x : Bytes × Bytes). same x.0 p.sort) allowed a found, rw found refl)
      | inl missing ↦
          let (a, found, there) = any_at allowed i h in (a.1, there, rw (missing, found) refl)
    ]
