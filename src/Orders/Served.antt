-- ===== src/Orders/Served.antt =====
-- An order that the reseller API accepts is the one that internal/sipctl finds for its number.
use didstorageapp.Prelude.{
  ℕ, ◌≡◌, Bool, true, false, ◌||◌, not, Option, none, some, List, [], ◌∷◌, find, map, ◌==◌, ==_refl,
  refl, arith, Bool-cases, Option-cases, inl, inr, ◌∙◌, sym, subst, All, suc,
}
use didstorageapp.Prelude.Text.{Bytes, codes}
use didstorageapp.Prelude.Int.{ℤ, pos, ◌-ℤ◌}
use didstorageapp.Domain.Time.{Time}
use didstorageapp.Livecalls.{RouteKind}
use didstorageapp.Billing.{OrderStatus}
use didstorageapp.Sipctl.Records.{Order, User, RateCard, Env}
use didstorageapp.Sipctl.Decide.{
  order_for, joined, or_else, is_active_order, is_quarantined, is_kyc_pending,
}
use didstorageapp.Orders.Tables.{
  Rental, Customer, Shop, Terms, Reply, ok, is_live, is_open, has_user_id, update_row, with_balance,
  set_did_status, clashes,
}
use didstorageapp.Orders.Create.{
  OrderForm, new_rental, charge_nrc, place, balance_of, is_customer, terms_for,
}
use didstorageapp.Orders.Api.{create_order}
use didstorageapp.Orders.Placed.{holders, IsPlaced}
use didstorageapp.Orders.Placed.Opening.{charge_nrc_frame, available-room}
use didstorageapp.Orders.Outcomes.Creating.{create_order_outcome}
use didstorageapp.Orders.Blocking.{reading}

find-All_none :
    {A : Type 0} (p : A → Bool) (xs : List A) → All (λ x. p x ≡ false) xs → find p xs ≡ none
find-All_none p [] h = refl
find-All_none p (x ∷ xs) (hx, h) = rw hx (find-All_none p xs h)

found_user :
    (uid : ℕ) (cs : List Customer)
    → is_customer uid cs ≡ true
    → (u : User) × (find (λ (v : User). v.id == uid) (map (λ (c : Customer). c.user) cs) ≡ some u)
found_user uid [] h = absurd (cc)
found_user uid (c ∷ cs) h = elim (Bool-cases (has_user_id uid c)) [
  | inl e ↦ (c.user, rw e refl)
  | inr e ↦ let (u, found) = found_user uid cs (rw e at h) in (u, rw e found)
]

is_customer-update_row :
    (uid v : ℕ) (b : ℤ) (cs : List Customer)
    → is_customer uid (update_row (has_user_id v) (with_balance b) cs) ≡ is_customer uid cs
unfolding update_row
is_customer-update_row uid v b [] = refl
is_customer-update_row uid v b (c ∷ cs) = ground (arith, is_customer-update_row uid v b cs)

is_customer-charge_nrc :
    (uid oid : ℕ) (t : Terms) (b : ℤ) (shop : Shop)
    → is_customer uid (charge_nrc uid oid t b shop).customers ≡ is_customer uid shop.customers
is_customer-charge_nrc uid oid t b shop =
    ground (arith, is_customer-update_row uid uid (b -ℤ pos t.nrc_cents) shop.customers)

module _ {F : Type 0} where
  abbrev IsOver : Order × User × F → Type 0
  IsOver row = is_live row.0.status ≡ false

  -- The orders of a number that none holds are over.
  joined-IsOver :
      (env : Env F) (d : ℕ) (rs : List Rental)
      → holders d rs ≡ 0
      → All IsOver (joined env d (map (λ (r : Rental). r.order) rs))
  unfolding joined holders
  joined-IsOver env d [] h = tt
  joined-IsOver env d (r ∷ rs) h =
      let rest = joined-IsOver env d rs (omega (arith, h)) in
      elim (Bool-cases (r.order.did_id == d)) [
        | inr e ↦ rw e rest
        | inl e ↦
            let over : is_live r.order.status ≡ false = ground (arith, e, h) in
            rw e (elim (Option-cases (find (λ (u : User). u.id == r.order.user_id) env.users)) [
              | inl n ↦ rw n rest
              | inr (u, n) ↦
                  rw n
                    (elim (Option-cases
                      (find (λ (c : RateCard F). c.id == r.order.rate_card_id) env.rate_cards)) [
                        | inl k ↦ rw k rest
                        | inr (c, k) ↦ rw k (over, rest)
                      ])
            ])
      ]

  -- What order_for picks of the joined rows.
  abbrev pick : List (Order × User × F) → Option (Order × User × F)
  pick rows = or_else (find (λ (r : Order × User × F). is_active_order r.0.status) rows) (
      or_else (find (λ (r : Order × User × F). is_quarantined r.0.status) rows)
        (find (λ (r : Order × User × F). is_kyc_pending r.0.status) rows))

  none_over :
      (p : OrderStatus → Bool) (rows : List (Order × User × F))
      → ((s : OrderStatus) → is_live s ≡ false → p s ≡ false)
      → All IsOver rows
      → find (λ (r : Order × User × F). p r.0.status) rows ≡ none
  none_over p [] h over = refl
  none_over p (r ∷ rows) h (first, over) = rw (h r.0.status first) (none_over p rows h over)

  -- An open order before orders that are over is picked.
  pick_first :
      (row : Order × User × F) (rows : List (Order × User × F))
      → is_open row.0.status ≡ true
      → All IsOver rows
      → pick (row ∷ rows) ≡ some row
  pick_first (o, u, rate) rows live over = ground (
    arith,
    live,
    none_over is_active_order rows (λ s h. ground (arith, h)) over,
    none_over is_quarantined rows (λ s h. ground (arith, h)) over,
    none_over is_kyc_pending rows (λ s h. ground (arith, h)) over,
  )

  -- An answer that the order is placed comes with a book in which the call finds that order.
  abbrev IsServed : Env F → ℕ → ℕ → ℕ → F → Reply × Shop → Type 0
  IsServed env d oid uid rate (ok, shop) =
      (u : User) × (o : Order) × (order_for (reading shop env) d ≡ some (o, u, rate))
      × (o.id ≡ oid)
      × (o.user_id ≡ uid)
  IsServed env d oid uid rate (_, shop) = Unit

  place-IsServed :
      (env : Env F) (rc : RateCard F) (broken : Bool) (now : Time) (form : OrderForm)
      (kind : RouteKind) (target : Bytes) (t : Terms) (s : OrderStatus) (shop : Shop)
      → holders form.did_id shop.rentals ≡ 0
      → is_open s ≡ true
      → find (λ (c : RateCard F). c.id == t.id) env.rate_cards ≡ some rc
      → IsServed env form.did_id shop.next_order_id form.user_id rc.per_minute_cents
          (place broken now form kind target t s shop)
  unfolding place joined
  place-IsServed env rc broken now form kind target t s shop none_holds live card =
      let oid = shop.next_order_id in
      let new = new_rental now oid form kind target t s in
      let rentals = new ∷ shop.rentals in
      elim (Bool-cases
        (broken || not (is_customer form.user_id shop.customers) || clashes rentals)) [
          | inl e ↦ rw e tt
          | inr e ↦
              let shop' =
                set_did_status form.did_id (codes "assigned")
                  (record shop { rentals = rentals; next_order_id = suc oid }) in
              let b = balance_of form.user_id shop.customers in
              let (same_rentals, _) = charge_nrc_frame form.user_id oid t b shop' in
              let known : is_customer form.user_id shop.customers ≡ true = ground (arith, e) in
              let (u, found) =
                found_user form.user_id (charge_nrc form.user_id oid t b shop').customers
                  (is_customer-charge_nrc form.user_id oid t b shop' ∙ known) in
              let env' = reading (charge_nrc form.user_id oid t b shop') env in
              rw e (
                u,
                new.order,
                rw (same_rentals, ==_refl form.did_id, found, card)
                    (pick_first (new.order, u, rc.per_minute_cents)
                      (joined env' form.did_id (map (λ (r : Rental). r.order) shop.rentals)) live
                      (joined-IsOver env' form.did_id shop.rentals none_holds)),
                refl,
                refl,
              )
        ]

  -- An order that create_order places (its answer is ok) in a shop where each number is held at
  -- most once is the order that order_for of the call control then reads for the number, with the
  -- reseller's customer as its user and the rate of the number's rate card, when the call control
  -- has that rate card.
  pub create_order-order_for :
      (env : Env F) (t : Terms) (rc : RateCard F) (broken : Bool) (now : Time) (rid : ℕ)
      (form : OrderForm) (shop shop' : Shop)
      → IsPlaced shop
      → terms_for form.did_id shop ≡ some t
      → find (λ (c : RateCard F). c.id == t.id) env.rate_cards ≡ some rc
      → create_order broken now rid form shop ≡ (ok, shop')
      → (u : User) × (o : Order) × (order_for (reading shop' env) form.did_id
          ≡ some (o, u, rc.per_minute_cents))
        × (o.id ≡ shop.next_order_id)
        × (o.user_id ≡ form.user_id)
  create_order-order_for env t rc broken now rid form shop shop' placed priced card accepted =
      let P = IsServed env form.did_id shop.next_order_id form.user_id rc.per_minute_cents in
      subst P accepted (
        create_order_outcome P broken now form shop tt rid (λ kind target t0 s free priced0 live.
          let (empty, _) = available-room form.did_id shop.dids free in
          let none_holds : holders form.did_id shop.rentals ≡ 0 =
            omega (arith, empty, placed form.did_id) in
          let same_terms : t ≡ t0 = cc (priced, priced0) in
          place-IsServed env rc broken now form kind target t0 s shop none_holds live
            (rw (sym same_terms) card)))
