-- ===== src/Snapshots/Settings/Order.antt =====
-- The lists of settings are in order, and complete.
use didstorageapp.Prelude.{
  ℕ, suc, ◌≡◌, Bool, true, false, ◌&&◌, List, [], ◌∷◌, keep, All, All-weaken, if◌then◌else◌, refl,
  arith, Bool-cases, inl, inr, ◌∙◌, sym, subst,
}
use didstorageapp.Prelude.Text.{Bytes, same, same→eq, same_comm}
use didstorageapp.Snapshots.{ltb_text}
use didstorageapp.Snapshots.Settings.{
  Setting, Settings, insert_by, sort_by, by_group, by_key, all_settings, by_category,
}

ltb_text_trans :
    (s t u : Bytes) → ltb_text t s ≡ false → ltb_text u t ≡ false → ltb_text u s ≡ false
ltb_text_trans [] t [] h k = refl
ltb_text_trans [] [] (c ∷ u) h k = refl
ltb_text_trans [] (d ∷ t) (c ∷ u) h k = refl
ltb_text_trans (b ∷ s) [] u h k = absurd (cc)
ltb_text_trans (b ∷ s) (d ∷ t) [] h k = absurd (cc)
ltb_text_trans (b ∷ s) (d ∷ t) (c ∷ u) h k = ground (arith, h, k, ltb_text_trans s t u)

ltb_text_asym : (s t : Bytes) → ltb_text s t ≡ true → ltb_text t s ≡ false
ltb_text_asym [] [] h = refl
ltb_text_asym [] (d ∷ t) h = refl
ltb_text_asym (c ∷ s) [] h = absurd (cc)
ltb_text_asym (c ∷ s) (d ∷ t) h = ground (arith, h, ltb_text_asym s t)

ltb_text_refl : (s : Bytes) → ltb_text s s ≡ false
ltb_text_refl [] = refl
ltb_text_refl (c ∷ s) = ground (arith, ltb_text_refl s)

ltb_text-same : (s t : Bytes) → ltb_text s t ≡ false → ltb_text t s ≡ false → same s t ≡ true
ltb_text-same [] [] h k = refl
ltb_text-same [] (d ∷ t) h k = absurd (cc)
ltb_text-same (c ∷ s) [] h k = absurd (cc)
ltb_text-same (c ∷ s) (d ∷ t) h k = ground (arith, h, k, ltb_text-same s t)

by_group_asym : (s t : Setting) → by_group s t ≡ true → by_group t s ≡ false
by_group_asym s t h = elim (Bool-cases (same s.category t.category)) [
  | inl e ↦
      let back : same t.category s.category ≡ true = same_comm t.category s.category ∙ e in
      rw back (ltb_text_asym s.key t.key (rw e at h))
  | inr e ↦
      let back : same t.category s.category ≡ false = same_comm t.category s.category ∙ e in
      rw back (ltb_text_asym s.category t.category (rw e at h))
]

by_group_trans :
    (s t u : Setting) → by_group t s ≡ false → by_group u t ≡ false → by_group u s ≡ false
by_group_trans s t u h k = elim (Bool-cases (same t.category s.category)) [
  | inl e ↦
      let eq : t.category ≡ s.category = same→eq t.category s.category e in
      elim (Bool-cases (same u.category t.category)) [
        | inl e' ↦
            let us : same u.category s.category ≡ true =
              subst (λ c. same u.category c ≡ true) eq e' in
            rw us (ltb_text_trans s.key t.key u.key (rw e at h) (rw e' at k))
        | inr e' ↦
            let us : same u.category s.category ≡ false =
              subst (λ c. same u.category c ≡ false) eq e' in
            rw us (subst (λ c. ltb_text u.category c ≡ false) eq (rw e' at k))
      ]
  | inr e ↦
      let below : ltb_text t.category s.category ≡ false = rw e at h in
      elim (Bool-cases (same u.category t.category)) [
        | inl e' ↦
            let eq : t.category ≡ u.category = sym (same→eq u.category t.category e') in
            let us : same u.category s.category ≡ false =
              subst (λ c. same c s.category ≡ false) eq e in
            rw us (subst (λ c. ltb_text c s.category ≡ false) eq below)
        | inr e' ↦
            let over : ltb_text u.category t.category ≡ false = rw e' at k in
            elim (Bool-cases (same u.category s.category)) [
              | inr us ↦ rw us (ltb_text_trans s.category t.category u.category below over)
              | inl us ↦
                  let back : ltb_text s.category t.category ≡ false =
                    subst (λ c. ltb_text c t.category ≡ false) (same→eq u.category s.category us)
                      over in
                  absurd (cc (ltb_text-same t.category s.category below back, e))
            ]
      ]
]

-- Before an element stands none that it goes before.
pub IsOrdered : (Setting → Setting → Bool) → List Setting → Type 0
IsOrdered before [] = Unit
IsOrdered before (s ∷ ts) = All (λ (t : Setting). before t s ≡ false) ts × IsOrdered before ts

-- How many pass a test.
abbrev pub count : (Setting → Bool) → List Setting → ℕ
count p [] = 0
count p (s ∷ ts) = if p s then suc (count p ts) else count p ts

module _ (before : Setting → Setting → Bool)
    (asym : (s t : Setting) → before s t ≡ true → before t s ≡ false)
    (trans : (s t u : Setting) → before t s ≡ false → before u t ≡ false → before u s ≡ false) where
  All-insert_by :
      (P : Setting → Type 0) (s : Setting) (ts : List Setting)
      → P s
      → All P ts
      → All P (insert_by before s ts)
  All-insert_by P s [] h hs = (h, tt)
  All-insert_by P s (t ∷ ts) h hs = elim (Bool-cases (before s t)) [
    | inl e ↦ rw e (h, hs)
    | inr e ↦ rw e (hs.0, All-insert_by P s ts h hs.1)
  ]

  insert_by-IsOrdered :
      (s : Setting) (ts : List Setting)
      → IsOrdered before ts
      → IsOrdered before (insert_by before s ts)
  unfolding IsOrdered
  insert_by-IsOrdered s [] h = (tt, tt)
  insert_by-IsOrdered s (t ∷ ts) h = elim (Bool-cases (before s t)) [
    | inl e ↦
        let later : before t s ≡ false = asym s t e in
        rw e ((later, All-weaken _ _ (λ u hu. trans s t u later hu) ts h.0), h)
    | inr e ↦ rw e (All-insert_by _ s ts e h.0, insert_by-IsOrdered s ts h.1)
  ]

  pub sort_by-IsOrdered : (ts : List Setting) → IsOrdered before (sort_by before ts)
  unfolding IsOrdered
  sort_by-IsOrdered [] = tt
  sort_by-IsOrdered (s ∷ ts) = insert_by-IsOrdered s (sort_by before ts) (sort_by-IsOrdered ts)

count-insert_by :
    (before : Setting → Setting → Bool) (p : Setting → Bool) (s : Setting) (ts : List Setting)
    → count p (insert_by before s ts) ≡ count p (s ∷ ts)
count-insert_by before p s [] = refl
count-insert_by before p s (t ∷ ts) = ground (arith, count-insert_by before p s ts)

count-sort_by :
    (before : Setting → Setting → Bool) (p : Setting → Bool) (ts : List Setting)
    → count p (sort_by before ts) ≡ count p ts
count-sort_by before p [] = refl
count-sort_by before p (s ∷ ts) =
    count-insert_by before p s (sort_by before ts) ∙ ground (arith, count-sort_by before p ts)

count-keep :
    (p q : Setting → Bool) (ts : List Setting) → count p (keep q ts) ≡ count (λ s. q s && p s) ts
count-keep p q [] = refl
count-keep p q (s ∷ ts) = ground (arith, count-keep p q ts)

-- The page of all settings has each setting of the cache as often as the cache has it, in the order
-- of the categories and then of the keys; the page of one category has those of that category, in
-- the order of their keys.
pub all_settings-IsOrdered :
    (st : Settings) (category : Bytes)
    → IsOrdered by_group (all_settings st)
      × ((p : Setting → Bool) → count p (all_settings st) ≡ count p st.cache)
      × IsOrdered by_key (by_category category st)
      × ((p : Setting → Bool)
          → count p (by_category category st)
            ≡ count (λ s. same s.category category && p s) st.cache)
all_settings-IsOrdered st category =
    let mine = keep (λ (s : Setting). same s.category category) st.cache in
    (
      sort_by-IsOrdered by_group by_group_asym by_group_trans st.cache,
      λ p. count-sort_by by_group p st.cache,
      sort_by-IsOrdered by_key (λ s t. ltb_text_asym s.key t.key)
          (λ s t u. ltb_text_trans s.key t.key u.key) mine,
      λ p.
          count-sort_by by_key p mine
          ∙ count-keep p (λ (s : Setting). same s.category category) st.cache,
    )
