-- ===== src/Pagination/Rows.antt =====
-- Every row of a list is on exactly one page.
use native.Mathlib.Nat.{div-add-mod', mod-lt, mul-le-mul_right}
use didstorageapp.Prelude.{
  ℕ, ◌+◌, ◌-◌, ◌*◌, ◌/◌, ◌%◌, ◌^◌, ◌≤◌, ◌<◌, ◌≡◌, Bool, false, ◌&&◌, ◌==◌, leb, ltb, arith,
  Bool-cases, inl, inr, ◌∙◌, ==_iff,
}
use didstorageapp.Strconv.{is_negative}
use didstorageapp.Pagination.{Pagination, page_count, offset, limit}

-- The same list at another page.
abbrev pub at : ℕ → Pagination → Pagination
at n p = record p { page = n }

-- The row `i`, counted from 0, is between the offset and the limit.
abbrev pub on_page : Pagination → ℕ → Bool
on_page p i = leb (offset p) i && ltb i (offset p + limit p)

covers : (t k : ℕ) → 0 < k → (t ≤ (t + k - 1) / k * k) × ((t + k - 1) / k * k < t + k)
covers t k pos = omega (arith, div-add-mod' (t + k - 1) k, mod-lt (t + k - 1) pos)

-- One factor less is one multiple less.
step_below : (a b k : ℕ) → a < b → a * k + k ≤ b * k
step_below a b k h = omega (arith, mul-le-mul_right {m = a + 1} {n = b} k (omega (arith, h)))

pages_covers :
    (p : Pagination)
    → 0 < p.per_page
    → p.total + p.per_page ≤ 2 ^ 63
    → (p.total ≤ page_count p * p.per_page)
      × (1 ≤ page_count p)
      × ((page_count p - 1) * p.per_page ≤ p.total)
unfolding page_count
pages_covers p h fits =
    let n = (p.total + p.per_page - 1) / p.per_page in
    let (enough, few) = covers p.total p.per_page h in
    let filled : (p.per_page == 0) ≡ false = ground (arith, h) in
    let whole : (p.total + p.per_page - 1) % 2 ^ 64 ≡ p.total + p.per_page - 1 =
      omega (arith, fits) in
    let plus : is_negative (p.total + p.per_page - 1) ≡ false = ground (arith, fits, h) in
    rw (filled, whole, plus)
      (elim (Bool-cases (n == 0)) [
        | inl e ↦
            let zero_pages : n ≡ 0 = (==_iff n 0).0 e in
            rw e (omega (arith, (rw zero_pages at enough)), omega arith, omega arith)
        | inr e ↦
            let some_pages : 1 ≤ n = ground (arith, e) in
            rw e (
              enough,
              some_pages,
              omega (arith, few, step_below (n - 1) n p.per_page (omega (arith, some_pages))),
            )
      ])

-- The quotient is the only page before which `i` rows or fewer stand.
quotient_page : (a i k : ℕ) → 0 < k → (leb (a * k) i && ltb i (a * k + k)) ≡ (a == i / k)
quotient_page a i k h = elim (Bool-cases (a == i / k)) [
  | inl e ↦
      let eq : a ≡ i / k = (==_iff a (i / k)).0 e in
      rw eq (ground (arith, div-add-mod' i k, mod-lt i h))
  | inr e ↦ elim (Bool-cases (ltb a (i / k))) [
    | inl l ↦ ground (arith, e, step_below a (i / k) k (ground (arith, l)), div-add-mod' i k)
    | inr l ↦ ground (
      arith,
      e,
      step_below (i / k) a k (ground (arith, l, e, ==_iff a (i / k))),
      div-add-mod' i k,
      mod-lt i h,
    )
  ]
]

offset-at :
    (p : Pagination) (m : ℕ)
    → 0 < p.per_page
    → p.total + p.per_page ≤ 2 ^ 63
    → 1 ≤ m
    → m ≤ page_count p
    → offset (at m p) ≡ (m - 1) * p.per_page
unfolding offset
offset-at p m h small first last =
    let (_, _, few) = pages_covers p h small in
    let below : (m - 1) * p.per_page ≤ (page_count p - 1) * p.per_page =
      mul-le-mul_right p.per_page (omega (arith, first, last)) in
    omega (arith, below, few, small)

-- Every row of a list, counted from 0, is on exactly one of its pages: on page i / per_page + 1,
-- which is one of them. The page size is positive, and the number of rows and the page size
-- together are at most 2^63: beyond that the sum of Pages wraps around.
pub on_page-at :
    (p : Pagination) (m i : ℕ)
    → 0 < p.per_page
    → p.total + p.per_page ≤ 2 ^ 63
    → i < p.total
    → 1 ≤ m
    → m ≤ page_count p
    → (on_page (at m p) i ≡ (m == i / p.per_page + 1)) × (i / p.per_page + 1 ≤ page_count p)
on_page-at p m i h small row first last =
    let (enough, _, _) = pages_covers p h small in
    let test : (m - 1 == i / p.per_page) ≡ (m == i / p.per_page + 1) = ground (arith, first) in
    (
      rw (offset-at p m h small first last) (quotient_page (m - 1) i p.per_page h ∙ test),
      elim (Bool-cases (ltb (i / p.per_page) (page_count p))) [
        | inl e ↦ ground (arith, e)
        | inr e ↦
            let over : page_count p * p.per_page ≤ i / p.per_page * p.per_page =
              mul-le-mul_right p.per_page (ground (arith, e)) in
            absurd (omega (arith, over, enough, row, div-add-mod' i p.per_page))
      ],
    )
