-- ===== src/Pagination/Window.antt =====
-- The page window leads from the first page to the last.
use didstorageapp.Prelude.{
  ℕ, zero, suc, ◌+◌, ◌-◌, ◌^◌, ◌≤◌, ◌<◌, ◌≡◌, Bool, true, false, List, [], ◌∷◌, any, ◌==◌, leb, ltb,
  refl, arith, Bool-cases, inl, inr, ◌∙◌, subst,
}
use didstorageapp.Strconv.{is_negative}
use didstorageapp.Pagination.{
  Pagination, page_count, Mark, gap, page, page_run, gap_if, run_start, run_end, page_window,
}

-- From the page `a` the marks lead up to `last`: to the next page, or over a gap to a page behind
-- it.
pub Leads : ℕ → List Mark → ℕ → Type 0
Leads a [] last = a ≡ last
Leads a (page b ∷ ms) last = (b ≡ a + 1) × Leads b ms last
Leads a (gap ∷ page b ∷ ms) last = (a + 1 < b) × Leads b ms last
Leads a (gap ∷ _) last = true ≡ false

abbrev pub marks : ℕ → Mark → Bool
marks n gap = false
marks n (page m) = m == n

page_run-Leads :
    (a k last : ℕ) (behind : List Mark)
    → Leads (a + k) behind last
    → Leads a (page_run (a + 1) k behind) last
unfolding Leads page_run
page_run-Leads a zero last behind h =
    let sum : a + 0 ≡ a = omega arith in subst (λ x. Leads x behind last) sum h
page_run-Leads a (suc k) last behind h = (
  refl,
  page_run-Leads (a + 1) k last behind
      (let sum : a + suc k ≡ a + 1 + k = omega arith in subst (λ x. Leads x behind last) sum h),
)

-- The last page follows the run, over a gap if pages are left out.
tail-Leads :
    (end total : ℕ) → end < total → Leads end (gap_if (ltb end (total - 1)) (page total ∷ [])) total
unfolding Leads
tail-Leads end total h = elim (Bool-cases (ltb end (total - 1))) [
  | inl e ↦ rw e (ground (arith, e), refl)
  | inr e ↦ rw e (ground (arith, e, h), refl)
]

-- From the first page to a run that starts behind it.
head-Leads :
    (start k total : ℕ) (behind : List Mark)
    → 2 ≤ start
    → Leads (start + k) behind total
    → Leads 1 (gap_if (ltb 2 start) (page_run start (suc k) behind)) total
unfolding Leads page_run
head-Leads start k total behind h rest = elim (Bool-cases (ltb 2 start)) [
  | inl e ↦ rw e (ground (arith, e), page_run-Leads start k total behind rest)
  | inr e ↦ rw e (ground (arith, e, h), page_run-Leads start k total behind rest)
]

-- The run has at least one page, between the second and the last but one.
run_bounds :
    (cur total : ℕ)
    → 1 ≤ cur
    → cur ≤ total
    → 9 < total
    → total + 2 < 2 ^ 63
    → (2 ≤ run_start cur) × (run_start cur ≤ run_end cur total) × (run_end cur total < total)
run_bounds cur total first last many small = ground (arith, first, last, many, small)

is_count : (p : Pagination) → page_count p + 2 < 2 ^ 63 → is_negative (page_count p) ≡ false
is_count p small = ground (arith, small)

page_window-Leads :
    (p : Pagination)
    → 1 ≤ p.page
    → p.page ≤ page_count p
    → page_count p + 2 < 2 ^ 63
    → Leads 0 (page_window p) (page_count p)
unfolding Leads page_window
page_window-Leads p first last small = elim (Bool-cases (leb (page_count p) 9)) [
  | inl e ↦
      rw (is_count p small, e) (page_run-Leads 0 (page_count p) (page_count p) [] (omega arith))
  | inr e ↦
      let (two, ordered, inside) =
        run_bounds p.page (page_count p) first last (ground (arith, e)) small in
      let start = run_start p.page in
      let end = run_end p.page (page_count p) in
      let size : end + 1 - start ≡ suc (end - start) = omega (arith, ordered) in
      let ends : end ≡ start + (end - start) = omega (arith, ordered) in
      rw (is_count p small, e, size)
        (
          refl,
          head-Leads start (end - start) (page_count p) _ two (
              subst
                (λ x.
                  Leads x (gap_if (ltb end (page_count p - 1)) (page (page_count p) ∷ []))
                    (page_count p))
                ends (tail-Leads end (page_count p) inside)),
        )
]

any-page_run :
    (c n k : ℕ) (behind : List Mark)
    → (n ≤ c)
    → c < n + k
    → any (marks c) (page_run n k behind) ≡ true
unfolding page_run
any-page_run c n zero behind low high = absurd (omega (arith, low, high))
any-page_run c n (suc k) behind low high = elim (Bool-cases (n == c)) [
  | inl e ↦ rw e refl
  | inr e ↦ rw e (any-page_run c (n + 1) k behind (ground (arith, e, low)) (omega (arith, high)))
]

any-page_run_behind :
    (c n k : ℕ) (behind : List Mark)
    → any (marks c) behind ≡ true
    → any (marks c) (page_run n k behind) ≡ true
unfolding page_run
any-page_run_behind c n zero behind h = h
any-page_run_behind c n (suc k) behind h = ground (arith, any-page_run_behind c (n + 1) k behind h)

any-gap_if :
    (c : ℕ) (b : Bool) (behind : List Mark) → any (marks c) (gap_if b behind) ≡ any (marks c) behind
any-gap_if c true behind = refl
any-gap_if c false behind = refl

inner_end :
    (cur total : ℕ)
    → cur ≤ total
    → total + 2 < 2 ^ 63
    → (total == cur) ≡ false
    → cur ≤ run_end cur total
inner_end cur total last small inner = ground (arith, last, small, inner)

any-page_window :
    (p : Pagination)
    → 1 ≤ p.page
    → p.page ≤ page_count p
    → page_count p + 2 < 2 ^ 63
    → any (marks p.page) (page_window p) ≡ true
unfolding page_window
any-page_window p first last small = elim (Bool-cases (leb (page_count p) 9)) [
  | inl e ↦
      rw (is_count p small, e) (any-page_run p.page 1 (page_count p) [] first (omega (arith, last)))
  | inr e ↦
      let (two, ordered, inside) =
        run_bounds p.page (page_count p) first last (ground (arith, e)) small in
      let start = run_start p.page in
      let end = run_end p.page (page_count p) in
      let behind = gap_if (ltb end (page_count p - 1)) (page (page_count p) ∷ []) in
      let run = page_run start (end + 1 - start) behind in
      let skip = any-gap_if p.page (ltb 2 start) run in
      rw (is_count p small, e)
        (elim (Bool-cases (1 == p.page)) [
          | inl one ↦ rw one refl
          | inr more ↦ rw more (
              skip ∙ elim (Bool-cases (page_count p == p.page)) [
                | inl is_last ↦ any-page_run_behind p.page start (end + 1 - start) behind (
                    any-gap_if p.page (ltb end (page_count p - 1)) (page (page_count p) ∷ [])
                    ∙ rw is_last refl)
                | inr is_inner ↦
                    any-page_run p.page start (end + 1 - start) behind (ground (arith, first, more))
                      (let reach : p.page ≤ end =
                          inner_end p.page (page_count p) last small is_inner in
                        omega (arith, ordered, reach))
              ])
        ])
]

-- The page window of a page of a list leads from page 1 to the last page: each page number is
-- followed by the next one, or by a gap and a page behind at least one page that is left out. The
-- current page is among them. The list has fewer than 2^63 - 2 pages.
pub page_window_lem :
    (p : Pagination)
    → 1 ≤ p.page
    → p.page ≤ page_count p
    → page_count p + 2 < 2 ^ 63
    → Leads 0 (page_window p) (page_count p) × (any (marks p.page) (page_window p) ≡ true)
page_window_lem p first last small =
    (page_window-Leads p first last small, any-page_window p first last small)
