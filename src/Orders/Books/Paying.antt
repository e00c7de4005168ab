-- ===== src/Orders/Books/Paying.antt =====
-- The handlers that move money write the ledger with the balance.
use didstorageapp.Prelude.{
  ℕ, ◌≡◌, Bool, true, false, ◌||◌, not, List, ◌∷◌, find, ◌==◌, ==_iff, refl, arith, Bool-cases, inl,
  inr, ◌∙◌, sym, subst, suc, ltb,
}
use didstorageapp.Prelude.Text.{Bytes, codes}
use didstorageapp.Prelude.Int.{ℤ, pos, neg, ◌+ℤ◌, ◌-ℤ◌, int_laws, leb_ℤ, neg_parts}
use didstorageapp.Domain.Time.{Time}
use didstorageapp.Livecalls.{RouteKind}
use didstorageapp.Billing.{OrderStatus}
use didstorageapp.Orders.Tables.{
  Shop, Terms, clashes, set_did_status, Customer, LedgerEntry, has_user_id, update_row,
  with_balance,
}
use didstorageapp.Orders.Books.{
  booked, IsBooked, balance_of_lem, balance_in-with_balance, zero_plus,
}
use didstorageapp.Orders.Create.{
  OrderForm, new_rental, charge_nrc, place, order_create, balance_of, is_customer, is_resellers,
}
use didstorageapp.Orders.Api.{create_order}
use didstorageapp.Orders.Copies.{resellers-customer}
use didstorageapp.Orders.Accounts.{user_topup, topup_user, is_zero}
use didstorageapp.Orders.Outcomes.Creating.{order_create_outcome, create_order_outcome}

shift : (b d s : ℤ) → b ≡ s → b +ℤ d ≡ d +ℤ s
shift b d s h = rw h (omega int_laws)

minus_neg : (b : ℤ) (n : ℕ) → b -ℤ pos n ≡ b +ℤ neg n
minus_neg b n = omega (int_laws, neg_parts n)

-- A new balance and a ledger entry of the difference.
entered :
    (b : ℤ) (e : LedgerEntry) (cs : List Customer) (es : List LedgerEntry)
    → is_customer e.user_id cs ≡ true
    → b ≡ balance_of e.user_id cs +ℤ e.delta_cents
    → ((v : ℕ) → balance_of v cs ≡ booked v es)
    → (v : ℕ)
    → balance_of v (update_row (has_user_id e.user_id) (with_balance b) cs) ≡ booked v (e ∷ es)
unfolding booked
entered b e cs es known moved h v =
    balance_of_lem v (update_row (has_user_id e.user_id) (with_balance b) cs)
    ∙ balance_in-with_balance v e.user_id b cs
    ∙ elim (Bool-cases (v == e.user_id)) [
      | inl w ↦
          let same_id = (==_iff v e.user_id).0 w in
          rw (w, known, (==_iff e.user_id v).1 (sym same_id), moved)
            (shift (balance_of e.user_id cs) e.delta_cents (booked v es)
              (subst (λ x. balance_of e.user_id cs ≡ booked x es) (sym same_id) (h e.user_id)))
      | inr w ↦
          let other : (e.user_id == v) ≡ false = ground (arith, w) in
          rw (w, other) (sym (balance_of_lem v cs) ∙ h v ∙ sym (zero_plus (booked v es)))
    ]

pub user_topup-IsBooked :
    (broken : Bool) (uid : ℕ) (cents : ℤ) (shop : Shop)
    → IsBooked shop
    → IsBooked (user_topup broken uid cents shop).1
unfolding user_topup
user_topup-IsBooked broken uid cents shop h = elim (Bool-cases (is_zero cents)) [
  | inl z ↦ rw z h
  | inr z ↦ rw z (elim (Bool-cases (broken || not (is_customer uid shop.customers))) [
    | inl e ↦ rw e h
    | inr e ↦ rw e (
        entered (balance_of uid shop.customers +ℤ cents) _ shop.customers shop.ledger
          (ground (arith, e)) refl h)
  ])
]

pub topup_user-IsBooked :
    (broken : Bool) (rid uid : ℕ) (cents : ℤ) (shop : Shop)
    → IsBooked shop
    → IsBooked (topup_user broken rid uid cents shop).1
unfolding topup_user
topup_user-IsBooked broken rid uid cents shop h =
    elim (Bool-cases
      (leb_ℤ cents (pos 0) || not (is_resellers rid (find (has_user_id uid) shop.customers)))) [
        | inl z ↦ rw z h
        | inr z ↦ rw z (elim (Bool-cases broken) [
          | inl e ↦ rw e h
          | inr e ↦ rw e (
              entered (balance_of uid shop.customers +ℤ cents) _ shop.customers shop.ledger
                (resellers-customer rid uid shop.customers (ground (arith, z))) refl h)
        ])
      ]

charge_nrc-IsBooked :
    (uid oid : ℕ) (t : Terms) (shop : Shop)
    → is_customer uid shop.customers ≡ true
    → IsBooked shop
    → IsBooked (charge_nrc uid oid t (balance_of uid shop.customers) shop)
charge_nrc-IsBooked uid oid t shop known h = elim (Bool-cases (ltb 0 t.nrc_cents)) [
  | inr e ↦ rw e h
  | inl e ↦ rw e (
      entered (balance_of uid shop.customers -ℤ pos t.nrc_cents) _ shop.customers shop.ledger known
        (minus_neg (balance_of uid shop.customers) t.nrc_cents) h)
]

place-IsBooked :
    (broken : Bool) (now : Time) (form : OrderForm) (kind : RouteKind) (target : Bytes) (t : Terms)
    (s : OrderStatus) (shop : Shop)
    → IsBooked shop
    → IsBooked (place broken now form kind target t s shop).1
unfolding place
place-IsBooked broken now form kind target t s shop h =
    let rentals = new_rental now shop.next_order_id form kind target t s ∷ shop.rentals in
    elim (Bool-cases (broken || not (is_customer form.user_id shop.customers) || clashes rentals)) [
      | inl e ↦ rw e h
      | inr e ↦
          let shop' =
            set_did_status form.did_id (codes "assigned")
              (record shop { rentals = rentals; next_order_id = suc shop.next_order_id }) in
          rw e (charge_nrc-IsBooked form.user_id shop.next_order_id t shop' (ground (arith, e)) h)
    ]

pub order_create-IsBooked :
    (broken : Bool) (now : Time) (form : OrderForm) (shop : Shop)
    → IsBooked shop
    → IsBooked (order_create broken now form shop).1
order_create-IsBooked broken now form shop h =
    order_create_outcome (λ p. IsBooked p.1) broken now form shop h
      (λ kind target t s card live. place-IsBooked broken now form kind target t s shop h)

pub create_order-IsBooked :
    (broken : Bool) (now : Time) (rid : ℕ) (form : OrderForm) (shop : Shop)
    → IsBooked shop
    → IsBooked (create_order broken now rid form shop).1
create_order-IsBooked broken now rid form shop h =
    create_order_outcome (λ p. IsBooked p.1) broken now form shop h rid
      (λ kind target t s a card live. place-IsBooked broken now form kind target t s shop h)
