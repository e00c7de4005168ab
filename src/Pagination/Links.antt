-- ===== src/Pagination/Links.antt =====
-- The links of a page, read by the handler of the next request.
use didstorageapp.Prelude.{
  ℕ, zero, suc, ◌^◌, ◌≤◌, ◌<◌, ◌≡◌, true, false, ◌&&◌, not, List, [], ◌∷◌, keep, All, leb,
  if◌then◌else◌, refl, arith, Bool-cases, inl, inr, ap, ◌∙◌, sym, subst,
}
use didstorageapp.Prelude.Text.{Bytes, codes, same, same→eq, same_refl, is_empty}
use didstorageapp.Prelude.Int.{ℤ, pos, negsuc}
use didstorageapp.Strconv.{
  atoi, format_int64, digits_of, is_negative, atoi-digits_of, is_empty-digits_of,
}
use didstorageapp.Snapshots.{merge}
use didstorageapp.Snapshots.Keyed.{find_key-put}
use didstorageapp.Pagination.{
  Values, name_of, first_value, value, assign, assign_filled, copied, has_values, is_page_name,
  page_in, per_page_in, sort_in, dir_in, read_pagination,
}

value-assign :
    (k name x : Bytes) (v : Values)
    → value k (assign name x v) ≡ (if same name k then x else value k v)
value-assign k name x v =
    ap first_value (find_key-put name_of (name, x ∷ []) v k)
    ∙ (elim (Bool-cases (same name k)) [ inl e ↦ rw e refl | inr e ↦ rw e refl ])

value-other :
    (k name x : Bytes) (v : Values)
    → same name k ≡ false
    → value k (assign_filled name x v) ≡ value k v
value-other k name [] v h = refl
value-other k name (c ∷ x) v h = value-assign k name (c ∷ x) v ∙ rw h refl

value-filled :
    (name x : Bytes) (v : Values) → value name v ≡ [] → value name (assign_filled name x v) ≡ x
value-filled name [] v h = h
value-filled name (c ∷ x) v h = value-assign name name (c ∷ x) v ∙ rw (same_refl name) refl

-- The parameters that a link keeps.
abbrev pub others : Values → Values
others v = keep (λ e. not (is_page_name e.0)) v

others-assign :
    (name x : Bytes) (v : Values) → is_page_name name ≡ true → others (assign name x v) ≡ others v
unfolding merge
others-assign name x [] h = rw h refl
others-assign name x (e ∷ v) h = elim (Bool-cases (same e.0 name)) [
  | inl hit ↦
      let dropped : is_page_name e.0 ≡ true =
        subst (λ n. is_page_name n ≡ true) (sym (same→eq e.0 name hit)) h in
      rw (hit, h, dropped) refl
  | inr miss ↦ rw (miss, others-assign name x v h) refl
]

others-filled :
    (name x : Bytes) (v : Values)
    → is_page_name name ≡ true
    → others (assign_filled name x v) ≡ others v
others-filled name [] v h = refl
others-filled name (c ∷ x) v h = others-assign name (c ∷ x) v h

pub others_twice : (v : Values) → others (others v) ≡ others v
others_twice [] = refl
others_twice (e ∷ v) = elim (Bool-cases (is_page_name e.0)) [
  | inl h ↦ rw h (others_twice v)
  | inr h ↦ rw (h, h) (ap (λ w. e ∷ w) (others_twice v))
]

pub value-others : (k : Bytes) (v : Values) → is_page_name k ≡ true → value k (others v) ≡ []
value-others k [] h = refl
value-others k (e ∷ v) h = elim (Bool-cases (is_page_name e.0)) [
  | inl p ↦ rw p (value-others k v h)
  | inr p ↦ elim (Bool-cases (same e.0 k)) [
    | inl hit ↦ absurd (cc (subst (λ n. is_page_name n ≡ false) (same→eq e.0 k hit) p, h))
    | inr miss ↦ rw (p, miss) (value-others k v h)
  ]
]

pub copied_all :
    (v : Values)
    → All (λ (e : Bytes × List Bytes). has_values e ≡ true) v
    → copied (others v) ≡ others v
copied_all [] h = refl
copied_all (e ∷ v) h = elim (Bool-cases (is_page_name e.0)) [
  | inl p ↦ rw p (copied_all v h.1)
  | inr p ↦ rw (p, h.0) (ap (λ w. e ∷ w) (copied_all v h.1))
]

-- The values of a link: page, size, sort column, direction and search text, after the others.
abbrev pub link : Bytes → Bytes → Bytes → Bytes → Bytes → Values → Values
link n k s d q v = assign_filled (codes "q") q (
    assign_filled (codes "dir") d (
      assign_filled (codes "sort") s
        (assign_filled (codes "per_page") k (assign_filled (codes "page") n v))))

abbrev pub IsFree : Values → Type 0
IsFree v = (k : Bytes) → is_page_name k ≡ true → value k v ≡ []

others-link : (n k s d q : Bytes) (v : Values) → others (link n k s d q v) ≡ others v
others-link n k s d q v =
    others-filled (codes "q") q _ refl
    ∙ others-filled (codes "dir") d _ refl
    ∙ others-filled (codes "sort") s _ refl
    ∙ others-filled (codes "per_page") k _ refl
    ∙ others-filled (codes "page") n v refl

value-link :
    (n k s d q : Bytes) (v : Values)
    → IsFree v
    → (value (codes "page") (link n k s d q v) ≡ n)
      × (value (codes "per_page") (link n k s d q v) ≡ k)
      × (value (codes "sort") (link n k s d q v) ≡ s)
      × (value (codes "dir") (link n k s d q v) ≡ d)
      × (value (codes "q") (link n k s d q v) ≡ q)
value-link n k s d q v free =
    let v1 = assign_filled (codes "page") n v in
    let v2 = assign_filled (codes "per_page") k v1 in
    let v3 = assign_filled (codes "sort") s v2 in
    let v4 = assign_filled (codes "dir") d v3 in
    let skip_page = λ (name : Bytes) (h : same (codes "page") name ≡ false).
      value-other name (codes "page") n v h in
    let skip_size = λ (name : Bytes) (h : same (codes "per_page") name ≡ false).
      value-other name (codes "per_page") k v1 h in
    let skip_sort = λ (name : Bytes) (h : same (codes "sort") name ≡ false).
      value-other name (codes "sort") s v2 h in
    let skip_dir = λ (name : Bytes) (h : same (codes "dir") name ≡ false).
      value-other name (codes "dir") d v3 h in
    let skip_q =
      λ (name : Bytes) (h : same (codes "q") name ≡ false). value-other name (codes "q") q v4 h in
    (
      skip_q _ refl
          ∙ skip_dir _ refl
          ∙ skip_sort _ refl
          ∙ skip_size _ refl
          ∙ value-filled (codes "page") n v (free _ refl),
      skip_q _ refl
          ∙ skip_dir _ refl
          ∙ skip_sort _ refl
          ∙ value-filled (codes "per_page") k v1 (skip_page _ refl ∙ free _ refl),
      skip_q _ refl
          ∙ skip_dir _ refl
          ∙ value-filled (codes "sort") s v2 (skip_size _ refl ∙ skip_page _ refl ∙ free _ refl),
      skip_q _ refl
          ∙ value-filled (codes "dir") d v3
              (skip_sort _ refl ∙ skip_size _ refl ∙ skip_page _ refl ∙ free _ refl),
      value-filled (codes "q") q v4
          (skip_dir _ refl ∙ skip_sort _ refl ∙ skip_size _ refl ∙ skip_page _ refl ∙ free _ refl),
    )

page_in_filled : (s : Bytes) (n : ℕ) → is_empty s ≡ false → 1 ≤ n → page_in s (pos n) ≡ n
page_in_filled [] n filled h = absurd (cc)
page_in_filled (c ∷ s) zero filled h = absurd (omega (arith, h))
page_in_filled (c ∷ s) (suc n) filled h = refl

per_page_in_filled :
    (s : Bytes) (n : ℕ)
    → is_empty s ≡ false
    → (leb 10 n && leb n 1000) ≡ true
    → per_page_in s (pos n) ≡ n
per_page_in_filled [] n filled h = absurd (cc)
per_page_in_filled (c ∷ s) n filled h = rw h refl

-- Every page has 10 to 1000 rows.
pub per_page_bounds :
    (s : Bytes) (n : ℤ) → (leb 10 (per_page_in s n) && leb (per_page_in s n) 1000) ≡ true
per_page_bounds [] n = refl
per_page_bounds (c ∷ s) (pos n) = elim (Bool-cases (leb 10 n && leb n 1000)) [
  | inl e ↦ rw (e, e) refl
  | inr e ↦ rw e refl
]
per_page_bounds (c ∷ s) (negsuc n) = refl

pub format_small : (n : ℕ) → n < 2 ^ 63 → format_int64 n ≡ digits_of 20 n []
format_small n h = let plus : is_negative n ≡ false = ground (arith, h) in rw plus refl

pub read-link :
    (allowed : List (Bytes × Bytes)) (default_sort base_url : Bytes) (n k : ℕ) (s d q : Bytes)
    (v : Values)
    → IsFree v
    → others v ≡ v
    → 1 ≤ n
    → n < 2 ^ 63
    → (leb 10 k && leb k 1000) ≡ true
    → read_pagination allowed default_sort base_url (link (format_int64 n) (format_int64 k) s d q v)
      ≡ record {
        page = n;
        per_page = k;
        total = 0;
        sort = sort_in allowed default_sort s;
        dir = dir_in d;
        q = q;
        base_url = base_url;
        preserved = v;
      }
unfolding read_pagination
read-link allowed default_sort base_url n k s d q v free kept first small sized =
    let (page_lem, size_lem, sort_lem, dir_lem, q_lem) =
      value-link (format_int64 n) (format_int64 k) s d q v free in
    let k_small : k < 2 ^ 63 = ground (arith, sized) in
    let n_read : page_in (format_int64 n) (atoi (format_int64 n)) ≡ n =
      rw (format_small n small, atoi-digits_of n small)
        (page_in_filled (digits_of 20 n []) n (is_empty-digits_of 19 n) first) in
    let k_read : per_page_in (format_int64 k) (atoi (format_int64 k)) ≡ k =
      rw (format_small k k_small, atoi-digits_of k k_small)
        (per_page_in_filled (digits_of 20 k []) k (is_empty-digits_of 19 k) sized) in
    rw
      (
        page_lem,
        size_lem,
        sort_lem,
        dir_lem,
        q_lem,
        n_read,
        k_read,
        others-link (format_int64 n) (format_int64 k) s d q v,
        kept,
      )
      refl
