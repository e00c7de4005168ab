-- ===== src/Orders/Blocking.antt =====
-- After a block, internal/sipctl lets no call through by an order of the user.
use didstorageapp.Prelude.{
  ℕ, ◌≡◌, true, false, ◌||◌, not, some, List, [], ◌∷◌, any, find, map, ◌==◌, refl, Bool-cases,
  Option-cases, inl, inr, ◌∙◌, sym, ap, subst, find-All, All,
}
use didstorageapp.Prelude.Text.{Bytes, codes, same, same→eq, is_empty}
use didstorageapp.Domain.Charge.{Float}
use didstorageapp.Sipctl.Records.{Did, Order, User, RateCard, Env, Request, World, Grant, allow}
use didstorageapp.Sipctl.Channels.{SetStore}
use didstorageapp.Sipctl.Number.{parse_e164}
use didstorageapp.Sipctl.Decide.{decide, order_for, joined, is_active_order, is_quarantined}
use didstorageapp.Sipctl.Decide.Allowed.{decide-Allowed, by_order, by_reservation}
use didstorageapp.Orders.Tables.{Rental, DidRow, Customer, Shop, Reply, ok, update_row}
use didstorageapp.Orders.Block.{is_user_in, with_user_status, user_block}

module _ {F : Type 0} where
  -- A decision reads the tables that the handlers write.
  abbrev pub reading : Shop → Env F → Env F
  reading shop env = record env {
    dids = map (λ (d : DidRow). d.did) shop.dids;
    orders = map (λ (r : Rental). r.order) shop.rentals;
    users = map (λ (c : Customer). c.user) shop.customers;
  }

-- The first row of the user is no longer active.
blocked_row :
    (uid : ℕ) (cs : List Customer) (u : User)
    → find
        (λ (v : User). v.id == uid)
        (map
          (λ (c : Customer). c.user)
          (update_row (is_user_in uid (codes "active")) (with_user_status (codes "inactive")) cs))
      ≡ some u
    → same u.status (codes "active") ≡ false
unfolding update_row
blocked_row uid [] u h = absurd (cc)
blocked_row uid (c ∷ cs) u h = elim (Bool-cases (c.user.id == uid)) [
  | inr e ↦ blocked_row uid cs u (rw (e, e) at h)
  | inl e ↦ elim (Bool-cases (same c.user.status (codes "active"))) [
    | inl a ↦
        let row : (with_user_status (codes "inactive") c).user ≡ u = cc (rw (e, a) at h) in
        rw (sym row) refl
    | inr a ↦ let row : c.user ≡ u = cc (rw (e, a) at h) in rw (sym row) a
  ]
]

user_block-customers :
    (uid : ℕ) (reason : Bytes) (shop shop' : Shop)
    → user_block false uid reason shop ≡ (ok, shop')
    → update_row
        (is_user_in uid (codes "active"))
        (with_user_status (codes "inactive"))
        shop.customers
      ≡ shop'.customers
unfolding user_block
user_block-customers uid reason shop shop' h =
    elim (Bool-cases
      (is_empty reason || not (any (is_user_in uid (codes "active")) shop.customers))) [
        | inl e ↦ absurd (cc (rw e at h))
        | inr e ↦ ap (λ (p : Reply × Shop). p.1.customers) (rw e at h)
      ]

module _ {F : Type 0} where
  abbrev IsJoined : Env F → Order × User × F → Type 0
  IsJoined env row = find (λ (u : User). u.id == row.0.user_id) env.users ≡ some row.1

  -- A row of the join has the order's user.
  joined-IsJoined :
      (env : Env F) (did_id : ℕ) (os : List Order) → All (IsJoined env) (joined env did_id os)
  unfolding joined
  joined-IsJoined env did_id [] = tt
  joined-IsJoined env did_id (o ∷ os) = elim (Bool-cases (o.did_id == did_id)) [
    | inr e ↦ rw e (joined-IsJoined env did_id os)
    | inl e ↦ rw e (elim (Option-cases (find (λ (u : User). u.id == o.user_id) env.users)) [
      | inl n ↦ rw n (joined-IsJoined env did_id os)
      | inr (u, n) ↦
          rw n
            (elim (Option-cases
              (find (λ (r : RateCard F). r.id == o.rate_card_id) env.rate_cards)) [
                | inl k ↦ rw k (joined-IsJoined env did_id os)
                | inr (r, k) ↦ rw k (n, joined-IsJoined env did_id os)
              ])
    ])
  ]

  order_for-IsJoined :
      (env : Env F) (did_id : ℕ) (row : Order × User × F)
      → order_for env did_id ≡ some row
      → IsJoined env row
  order_for-IsJoined env did_id row h =
      let rows = joined env did_id env.orders in
      let all = joined-IsJoined env did_id env.orders in
      elim (Option-cases (find (λ (r : Order × User × F). is_active_order r.0.status) rows)) [
        | inr (x, e) ↦ find-All (IsJoined env) _ rows row all (e ∙ (rw e at h))
        | inl e ↦
            elim (Option-cases (find (λ (r : Order × User × F). is_quarantined r.0.status) rows)) [
              | inr (x, e') ↦ find-All (IsJoined env) _ rows row all (e' ∙ (rw (e, e') at h))
              | inl e' ↦ find-All (IsJoined env) _ rows row all (rw (e, e') at h)
            ]
      ]

reserved_not_assigned :
    (s : Bytes) → same s (codes "assigned") ≡ true → ¬ (same s (codes "reserved") ≡ true)
reserved_not_assigned s a r = absurd (cc (rw (same→eq s (codes "assigned") a) at r))

not_active :
    (uid : ℕ) (shop shop' : Shop) (reason : Bytes) (o : Order) (u : User)
    → user_block false uid reason shop ≡ (ok, shop')
    → find (λ (v : User). v.id == o.user_id) (map (λ (c : Customer). c.user) shop'.customers)
      ≡ some u
    → o.user_id ≡ uid
    → ¬ (same u.status (codes "active") ≡ true)
not_active uid shop shop' reason o u blocked joins mine act =
    let customers_lem = user_block-customers uid reason shop shop' blocked in
    let found : find (λ (v : User). v.id == uid) (map (λ (c : Customer). c.user) shop'.customers)
        ≡ some u =
      subst
        (λ i.
          find (λ (v : User). v.id == i) (map (λ (c : Customer). c.user) shop'.customers) ≡ some u)
        mine joins in
    let off = blocked_row uid shop.customers u (
      subst (λ cs. find (λ (v : User). v.id == uid) (map (λ (c : Customer). c.user) cs) ≡ some u)
        (sym customers_lem) found) in
    absurd (cc (off, act))

module _ (fl : Float) (st : SetStore) where
  open fl use {F}
  open st use {Store}

  -- After a block no call is let through by an order of the blocked user, whatever statements of
  -- the decision fail.
  pub user_block-decide :
      (env : Env F) (uid : ℕ) (reason : Bytes) (shop shop' : Shop) (req : Request) (d : Did)
      (o : Order) (u : User) (rate : F) (w w' : World F Store) (g : Grant F)
      → user_block false uid reason shop ≡ (ok, shop')
      → find (λ (x : Did). same x.e164 (parse_e164 req.to_uri)) (reading shop' env).dids ≡ some d
      → same d.status (codes "assigned") ≡ true
      → order_for (reading shop' env) d.id ≡ some (o, u, rate)
      → o.user_id ≡ uid
      → ¬ (decide fl st (reading shop' env) req w ≡ (allow g, w'))
  user_block-decide env uid reason shop shop' req d o u rate w w' g blocked number assigned order
        mine h =
      elim (decide-Allowed fl st (reading shop' env) req w w' g h) [
        | by_reservation d' n v i s m t ↦
            let same_did : d ≡ d' = cc (number, n) in
            absurd (reserved_not_assigned d.status assigned (rw same_did s))
        | by_order d' o' u' rate' n v i s f a act m k t ↦
            let same_did : d ≡ d' = cc (number, n) in
            let same_row : Path (Order × User × F) (o, u, rate) (o', u', rate') = cc (
              order,
              subst (λ x. order_for (reading shop' env) x.id ≡ some (o', u', rate')) (sym same_did)
                  f,
            ) in
            absurd (
              not_active uid shop shop' reason o u blocked
                (order_for-IsJoined (reading shop' env) d.id (o, u, rate) order) mine
                (subst (λ (r : Order × User × F). same r.1.status (codes "active") ≡ true)
                  (sym same_row) act))
      ]
