-- ===== src/Sipctl/Decide/Allowed.antt =====
-- What a call that is let through has passed.
use didstorageapp.Prelude.{
  ℕ, find_passes, ◌≡◌, ◌≤◌, true, false, ◌||◌, Option, none, some, find, refl, sym, arith, subst,
  Bool-cases, inl, inr, ltb, ◌*◌,
}
use didstorageapp.Prelude.Text.{codes, same, is_empty}
use didstorageapp.Domain.Charge.{Float, max_seconds_for_balance}
use didstorageapp.Sipctl.Channels.{SetStore, Reservation, reserved, user_full, did_full, reserve}
use didstorageapp.Sipctl.Channels.Laws.{reserve-Attempted, Attempted}
use didstorageapp.Sipctl.Number.{parse_e164}
use didstorageapp.Sipctl.Records.{
  Request, Did, Order, User, World, Env, Response, deny_with, allow, Grant, did_lookup,
  order_lookup, reserve_script,
}
use didstorageapp.Sipctl.Rows.{resolve_target, supplier_ip_allowed}
use didstorageapp.Sipctl.Decide.{
  decide, serve_did, serve_assigned, serve_order, reserved_channel, order_for, joined,
  is_active_order, is_kyc_pending, is_quarantined, set_sets,
}
use didstorageapp.Sipctl.Decide.Holds.{
  Holds, connect-Holds, resolve_target-Target, serve_reserved-Holds,
}

module _ (fl : Float) (st : SetStore) where
  open fl use {F}
  open st use {Store}

  -- Why a request was let through, and what it holds then.
  pub data Allowed (env : Env F) (req : Request) (w : World F Store) (g : Grant F)
      (w' : World F Store) : Type 0 where
    by_reservation :
        (d : Did)
        → find (λ (x : Did). same x.e164 (parse_e164 req.to_uri)) env.dids ≡ some d
        → env.valid_ip req.src_ip ≡ true
        → supplier_ip_allowed env d.supplier_id req.src_ip ≡ true
        → same d.status (codes "reserved") ≡ true
        → g.max_seconds ≡ 4 * 60 * 60
        → w'.sets ≡ w.sets
        → Allowed env req w g w'
    by_order :
        (d : Did) (o : Order) (u : User) (rate : F)
        → find (λ (x : Did). same x.e164 (parse_e164 req.to_uri)) env.dids ≡ some d
        → env.valid_ip req.src_ip ≡ true
        → supplier_ip_allowed env d.supplier_id req.src_ip ≡ true
        → same d.status (codes "assigned") ≡ true
        → order_for env d.id ≡ some (o, u, rate)
        → is_active_order o.status ≡ true
        → same u.status (codes "active") ≡ true
        → g.max_seconds ≡ max_seconds_for_balance fl u.balance_cents rate
        → env.min_seconds ≤ g.max_seconds
        → Attempted st o.user_id d.id req.call_id u.global_channel_cap o.channel_count w.sets
            reserved w'.sets
        → Allowed env req w g w'

  abbrev Opened :
      Env F → Request → Did → Order → User → F → World F Store → Response F × World F Store → Type 0
  Opened env req d o u rate w (deny_with r cause, w') = Unit
  Opened env req d o u rate w (allow g, w') =
      (is_kyc_pending o.status ≡ false)
      × (is_quarantined o.status ≡ false)
      × (same u.status (codes "active") ≡ true)
      × (g.max_seconds ≡ max_seconds_for_balance fl u.balance_cents rate)
      × (env.min_seconds ≤ max_seconds_for_balance fl u.balance_cents rate)
      × Attempted st o.user_id d.id req.call_id u.global_channel_cap o.channel_count w.sets reserved
          w'.sets

  abbrev Granted :
      Request → Did → Order → User → ℕ → World F Store → Response F × World F Store → Type 0
  Granted req d o u seconds w (deny_with r cause, w') = Unit
  Granted req d o u seconds w (allow g, w') =
      (g.max_seconds ≡ seconds)
      × Attempted st o.user_id d.id req.call_id u.global_channel_cap o.channel_count w.sets reserved
          w'.sets

  Holds-Granted :
      (req : Request) (d : Did) (o : Order) (u : User) (seconds : ℕ) (w : World F Store) (s : Store)
      (r : Response F × World F Store)
      → Attempted st o.user_id d.id req.call_id u.global_channel_cap o.channel_count w.sets reserved
          s
      → Holds seconds s r
      → Granted req d o u seconds w r
  Holds-Granted req d o u seconds w s (deny_with r cause, w') a h = tt
  Holds-Granted req d o u seconds w s (allow g, w') a h = (
    h.0,
    subst
        (Attempted st o.user_id d.id req.call_id u.global_channel_cap o.channel_count w.sets
          reserved)
        (sym h.1) a,
  )

  reserved_channel-Granted :
      (env : Env F) (req : Request) (d : Did) (o : Order) (u : User) (rate : F) (seconds : ℕ)
      (a : Reservation) (s : Store) (w : World F Store)
      → Attempted st o.user_id d.id req.call_id u.global_channel_cap o.channel_count w.sets a s
      → Granted req d o u seconds w (reserved_channel fl st env req d o rate seconds (a, s) w)
  unfolding reserved_channel
  reserved_channel-Granted env req d o u rate seconds reserved s w h =
      let w' = set_sets fl st s w in
      Holds-Granted req d o u seconds w s _ h (
        connect-Holds env req d o rate seconds
          (resolve_target env o.route_kind o.audio_group_id o.route_target w') w'
          (resolve_target-Target env o.route_kind o.audio_group_id o.route_target w'))
  reserved_channel-Granted env req d o u rate seconds user_full s w h = tt
  reserved_channel-Granted env req d o u rate seconds did_full s w h = tt

  Granted-Opened :
      (env : Env F) (req : Request) (d : Did) (o : Order) (u : User) (rate : F) (w : World F Store)
      (r : Response F × World F Store)
      → is_kyc_pending o.status ≡ false
      → is_quarantined o.status ≡ false
      → same u.status (codes "active") ≡ true
      → env.min_seconds ≤ max_seconds_for_balance fl u.balance_cents rate
      → Granted req d o u (max_seconds_for_balance fl u.balance_cents rate) w r
      → Opened env req d o u rate w r
  Granted-Opened env req d o u rate w (deny_with r cause, w') k q a m h = tt
  Granted-Opened env req d o u rate w (allow g, w') k q a m h = (k, q, a, h.0, m, h.1)

  serve_order-Opened :
      (env : Env F) (req : Request) (d : Did) (o : Order) (u : User) (rate : F) (w : World F Store)
      → Opened env req d o u rate w (serve_order fl st env req d (o, u, rate) w)
  unfolding serve_order
  serve_order-Opened env req d o u rate w =
      let seconds = max_seconds_for_balance fl u.balance_cents rate in
      let a = reserve st o.user_id d.id req.call_id u.global_channel_cap o.channel_count w.sets in
      elim (Bool-cases (is_kyc_pending o.status)) [
        | inl e ↦ rw e tt
        | inr k ↦ rw k (elim (Bool-cases (is_quarantined o.status)) [
          | inl e ↦ rw e tt
          | inr q ↦ rw q (elim (Bool-cases (same u.status (codes "active"))) [
            | inr e ↦ rw e tt
            | inl act ↦ rw act (elim (Bool-cases (ltb seconds env.min_seconds)) [
              | inl e ↦ rw e tt
              | inr m ↦ rw m (elim (Bool-cases (env.fails reserve_script)) [
                | inl e ↦ rw e tt
                | inr e ↦ rw e (
                    Granted-Opened env req d o u rate w _ k q act (ground arith) (
                      reserved_channel-Granted env req d o u rate seconds a.0 a.1 w (
                        reserve-Attempted st o.user_id d.id req.call_id u.global_channel_cap
                          o.channel_count w.sets)))
              ])
            ])
          ])
        ])
      ]

  order_for_status :
      (env : Env F) (did_id : ℕ) (r : Order × User × F)
      → order_for env did_id ≡ some r
      → (is_active_order r.0.status || is_quarantined r.0.status || is_kyc_pending r.0.status)
        ≡ true
  order_for_status env did_id r h =
      let rows = joined env did_id env.orders in
      ground (
        arith,
        find_passes (λ (x : Order × User × F). is_active_order x.0.status) rows r,
        find_passes (λ (x : Order × User × F). is_quarantined x.0.status) rows r,
        find_passes (λ (x : Order × User × F). is_kyc_pending x.0.status) rows r,
      )

  -- The guards that every allowed request has passed before its route is looked at.
  abbrev Known : Env F → Request → Did → Type 0
  Known env req d =
      (find (λ (x : Did). same x.e164 (parse_e164 req.to_uri)) env.dids ≡ some d)
      × (env.valid_ip req.src_ip ≡ true)
      × (supplier_ip_allowed env d.supplier_id req.src_ip ≡ true)

  abbrev Justified : Env F → Request → World F Store → Response F × World F Store → Type 0
  Justified env req w (deny_with r cause, w') = Unit
  Justified env req w (allow g, w') = Allowed env req w g w'

  Holds-Justified :
      (env : Env F) (req : Request) (d : Did) (w : World F Store) (r : Response F × World F Store)
      → Known env req d
      → same d.status (codes "reserved") ≡ true
      → Holds 14400 w.sets r
      → Justified env req w r
  Holds-Justified env req d w (deny_with r cause, w') k s h = tt
  Holds-Justified env req d w (allow g, w') k s h = by_reservation d k.0 k.1 k.2 s h.0 h.1

  Opened-Justified :
      (env : Env F) (req : Request) (d : Did) (o : Order) (u : User) (rate : F) (w : World F Store)
      (r : Response F × World F Store)
      → Known env req d
      → same d.status (codes "assigned") ≡ true
      → order_for env d.id ≡ some (o, u, rate)
      → Opened env req d o u rate w r
      → Justified env req w r
  Opened-Justified env req d o u rate w (deny_with r cause, w') k s f h = tt
  Opened-Justified env req d o u rate w (allow g, w') k s f (kyc, q, act, secs, enough, got) =
      by_order d o u rate k.0 k.1 k.2 s f (ground (arith, order_for_status env d.id (o, u, rate) f))
        act secs (ground arith) got

  serve_assigned-Justified :
      (env : Env F) (req : Request) (d : Did) (o : Option (Order × User × F)) (w : World F Store)
      → Known env req d
      → same d.status (codes "assigned") ≡ true
      → order_for env d.id ≡ o
      → Justified env req w (serve_assigned fl st env req d o w)
  unfolding serve_assigned
  serve_assigned-Justified env req d none w k s f = tt
  serve_assigned-Justified env req d (some (o, u, rate)) w k s f =
      Opened-Justified env req d o u rate w _ k s f (serve_order-Opened env req d o u rate w)

  serve_did-Justified :
      (env : Env F) (req : Request) (d : Option Did) (w : World F Store)
      → find (λ (x : Did). same x.e164 (parse_e164 req.to_uri)) env.dids ≡ d
      → env.valid_ip req.src_ip ≡ true
      → Justified env req w (serve_did fl st env req d w)
  unfolding serve_did
  serve_did-Justified env req none w f v = tt
  serve_did-Justified env req (some d) w f v =
      elim (Bool-cases (supplier_ip_allowed env d.supplier_id req.src_ip)) [
        | inr e ↦ rw e tt
        | inl ok ↦ rw ok (elim (Bool-cases (same d.status (codes "reserved"))) [
          | inl s ↦
              rw s (Holds-Justified env req d w _ (f, v, ok) s (serve_reserved-Holds env req d w))
          | inr e ↦ rw e (elim (Bool-cases (same d.status (codes "assigned"))) [
            | inr e ↦ rw e tt
            | inl s ↦ rw s (elim (Bool-cases (env.fails order_lookup)) [
              | inl e ↦ rw e tt
              | inr e ↦
                  rw e (serve_assigned-Justified env req d (order_for env d.id) w (f, v, ok) s refl)
            ])
          ])
        ])
      ]

  decide-Justified :
      (env : Env F) (req : Request) (w : World F Store)
      → Justified env req w (decide fl st env req w)
  unfolding decide
  decide-Justified env req w = elim (Bool-cases (is_empty (parse_e164 req.to_uri))) [
    | inl e ↦ rw e tt
    | inr e ↦ rw e (elim (Bool-cases (env.valid_ip req.src_ip)) [
      | inr e ↦ rw e tt
      | inl v ↦ rw v (elim (Bool-cases (env.fails did_lookup)) [
        | inl e ↦ rw e tt
        | inr e ↦ rw e (
            serve_did-Justified env req
              (find (λ (x : Did). same x.e164 (parse_e164 req.to_uri)) env.dids) w refl v)
      ])
    ])
  ]

  -- Whatever statements fail, a call is let through only as one of two kinds, from an address of
  -- the number's supplier. To a reserved number, for four hours, with the channel sets as they
  -- were. Or to an assigned number whose order and user are active, for the time that the balance
  -- pays, which is at least the configured minimum, and with a channel granted below both caps,
  -- whereby no other call enters or leaves a channel set.
  pub decide-Allowed :
      (env : Env F) (req : Request) (w w' : World F Store) (g : Grant F)
      → decide fl st env req w ≡ (allow g, w')
      → Allowed env req w g w'
  decide-Allowed env req w w' g h = subst (Justified env req w) h (decide-Justified env req w)
