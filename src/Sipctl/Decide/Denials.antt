-- ===== src/Sipctl/Decide/Denials.antt =====
-- What a denial leaves behind.
use didstorageapp.Prelude.{
  ℕ, ◌≡◌, ◌≤◌, subst, ◌⊎◌, Bool, true, false, Option, none, some, find, refl, arith, Bool-cases,
  Option-cases, inl, inr, ltb,
}
use didstorageapp.Prelude.Text.{Bytes, codes, same, is_empty}
use didstorageapp.Domain.Charge.{Float, max_seconds_for_balance}
use didstorageapp.Livecalls.{RouteKind, audio_group}
use didstorageapp.Billing.{OrderStatus}
use didstorageapp.Sipctl.Channels.Laws.{reserve_has}
use didstorageapp.Sipctl.Channels.{
  user, did, SetStore, Reservation, reserved, user_full, did_full, reserve,
}
use didstorageapp.Sipctl.Number.{parse_e164}
use didstorageapp.Sipctl.Records.{
  Request, Reason, Did, Order, User, World, Env, Response, deny_with, allow,
  reservation_misconfigured, bad_to_uri, unauthorized_ip, kyc_pending, quarantined, user_blocked,
  insufficient_balance, Shell, did_lookup, order_lookup, reserve_script,
}
use didstorageapp.Sipctl.Rows.{
  deny, denied_call, insert_cdr, denial_cdr, resolve_target, supplier_ip_allowed,
}
use didstorageapp.Sipctl.Decide.{
  decide, serve_did, serve_assigned, serve_order, serve_reserved, reserved_channel, connect,
  reserved_route, order_for, unassigned, is_kyc_pending, is_quarantined, set_sets,
}

-- The reason of a request that found its route half configured.
abbrev pub is_misconfigured : Reason → Bool
is_misconfigured reservation_misconfigured = true
is_misconfigured _ = false

module _ {F S : Type 0} where
  -- A denial with the busy cause that leaves the channel sets and the calls on show alone.
  abbrev pub Leaves : World F S → Response F × World F S → Type 0
  Leaves w (allow g, w') = Unit
  Leaves w (deny_with r cause, w') =
      (cause ≡ 17) × ((is_misconfigured r ≡ true) ⊎ ((w'.sets ≡ w.sets) × (w'.live ≡ w.live)))

  denied_call_frame :
      (env : Env F) (req : Request) (r : Reason) (w : World F S)
      → ((denied_call env req r w).sets ≡ w.sets) × ((denied_call env req r w).live ≡ w.live)
  denied_call_frame env req r w = ground arith

  insert_cdr_frame :
      (env : Env F) (row : Shell F) (w : World F S)
      → ((insert_cdr env row w).sets ≡ w.sets) × ((insert_cdr env row w).live ≡ w.live)
  insert_cdr_frame env row w = ground arith

  denial_cdr_frame :
      (env : Env F) (req : Request) (d : Did) (o : Order) (rate : F) (r : Reason) (w : World F S)
      → ((denial_cdr env req d o rate r w).sets ≡ w.sets)
        × ((denial_cdr env req d o rate r w).live ≡ w.live)
  denial_cdr_frame env req d o rate r w = ground arith

  connect-Leaves :
      (env : Env F) (req : Request) (d : Did) (o : Order) (rate : F) (seconds : ℕ)
      (t : Option (Bytes × World F S)) (w w' : World F S)
      → Leaves w (connect env req d o rate seconds t w')
  unfolding connect
  connect-Leaves env req d o rate seconds none w w' = (refl, inl refl)
  connect-Leaves env req d o rate seconds (some p) w w' = tt

  reserved_route-Leaves :
      (env : Env F) (req : Request) (d : Did) (k : RouteKind) (t : Option (Bytes × World F S))
      (w : World F S)
      → Leaves w (reserved_route env req d k t w)
  unfolding reserved_route
  reserved_route-Leaves env req d k none w = (refl, inl refl)
  reserved_route-Leaves env req d k (some (target, w')) w = elim (Bool-cases (is_empty target)) [
    | inl e ↦ rw e (refl, inl refl)
    | inr e ↦ rw e tt
  ]

  serve_reserved-Leaves :
      (env : Env F) (req : Request) (d : Did) (w : World F S)
      → Leaves w (serve_reserved env req d w)
  unfolding serve_reserved
  serve_reserved-Leaves env req d w = elim (Option-cases d.reserved_route_kind) [
    | inl e ↦ rw e (refl, inl refl)
    | inr (k, e) ↦ rw e (reserved_route-Leaves env req d k _ w)
  ]

module _ (fl : Float) (st : SetStore) where
  open fl use {F}
  open st use {Store, has}

  reserved_channel-Leaves :
      (env : Env F) (req : Request) (d : Did) (o : Order) (rate : F) (seconds : ℕ)
      (a : Reservation × Store) (w : World F Store)
      → Leaves w (reserved_channel fl st env req d o rate seconds a w)
  unfolding reserved_channel connect
  reserved_channel-Leaves env req d o rate seconds (reserved, s) w =
      connect-Leaves env req d o rate seconds _ w (set_sets fl st s w)
  reserved_channel-Leaves env req d o rate seconds (user_full, s) w =
      (refl, inr (denial_cdr_frame env req d o rate _ w))
  reserved_channel-Leaves env req d o rate seconds (did_full, s) w =
      (refl, inr (denial_cdr_frame env req d o rate _ w))

  serve_order-Leaves :
      (env : Env F) (req : Request) (d : Did) (o : Order) (u : User) (rate : F) (w : World F Store)
      → Leaves w (serve_order fl st env req d (o, u, rate) w)
  unfolding serve_order
  serve_order-Leaves env req d o u rate w =
      let refused = λ (r : Reason). denial_cdr_frame env req d o rate r w in
      elim (Bool-cases (is_kyc_pending o.status)) [
        | inl e ↦ rw e ((refl, inr (refused kyc_pending)))
        | inr e ↦ rw e (elim (Bool-cases (is_quarantined o.status)) [
          | inl e ↦ rw e ((refl, inr (refused quarantined)))
          | inr e ↦ rw e (elim (Bool-cases (same u.status (codes "active"))) [
            | inr e ↦ rw e ((refl, inr (refused user_blocked)))
            | inl e ↦
                rw e
                  (elim (Bool-cases
                    (ltb (max_seconds_for_balance fl u.balance_cents rate) env.min_seconds)) [
                      | inl e ↦ rw e ((refl, inr (refused insufficient_balance)))
                      | inr e ↦ rw e (elim (Bool-cases (env.fails reserve_script)) [
                        | inl e ↦ rw e ((refl, inr (refl, refl)))
                        | inr e ↦ rw e (reserved_channel-Leaves env req d o rate _ _ w)
                      ])
                    ])
          ])
        ])
      ]

  unassigned-Leaves :
      (env : Env F) (req : Request) (d : Did) (w : World F Store)
      → Leaves w (unassigned fl st env req d w)
  unassigned-Leaves env req d w = (refl, inr (ground arith))

  serve_assigned-Leaves :
      (env : Env F) (req : Request) (d : Did) (o : Option (Order × User × F)) (w : World F Store)
      → Leaves w (serve_assigned fl st env req d o w)
  unfolding serve_assigned
  serve_assigned-Leaves env req d none w = unassigned-Leaves env req d w
  serve_assigned-Leaves env req d (some (o, u, rate)) w = serve_order-Leaves env req d o u rate w

  serve_did-Leaves :
      (env : Env F) (req : Request) (d : Option Did) (w : World F Store)
      → Leaves w (serve_did fl st env req d w)
  unfolding serve_did
  serve_did-Leaves env req none w = (refl, inr (denied_call_frame env req _ w))
  serve_did-Leaves env req (some d) w =
      elim (Bool-cases (supplier_ip_allowed env d.supplier_id req.src_ip)) [
        | inr e ↦ rw e ((refl, inr (denied_call_frame env req unauthorized_ip w)))
        | inl e ↦ rw e (elim (Bool-cases (same d.status (codes "reserved"))) [
          | inl e ↦ rw e (serve_reserved-Leaves env req d w)
          | inr e ↦ rw e (elim (Bool-cases (same d.status (codes "assigned"))) [
            | inr e ↦ rw e (unassigned-Leaves env req d w)
            | inl e ↦ rw e (elim (Bool-cases (env.fails order_lookup)) [
              | inl e ↦ rw e ((refl, inr (refl, refl)))
              | inr e ↦ rw e (serve_assigned-Leaves env req d (order_for env d.id) w)
            ])
          ])
        ])
      ]

  decide-Leaves :
      (env : Env F) (req : Request) (w : World F Store) → Leaves w (decide fl st env req w)
  unfolding decide
  decide-Leaves env req w = elim (Bool-cases (is_empty (parse_e164 req.to_uri))) [
    | inl e ↦ rw e ((refl, inr (denied_call_frame env req bad_to_uri w)))
    | inr e ↦ rw e (elim (Bool-cases (env.valid_ip req.src_ip)) [
      | inr e ↦ rw e ((refl, inr (ground arith)))
      | inl e ↦ rw e (elim (Bool-cases (env.fails did_lookup)) [
        | inl e ↦ rw e ((refl, inr (refl, refl)))
        | inr e ↦ rw e (
            serve_did-Leaves env req
              (find (λ (d : Did). same d.e164 (parse_e164 req.to_uri)) env.dids) w)
      ])
    ])
  ]

  -- Whatever statements fail, every denial hangs up with the busy cause 17, whatever its reason; and
  -- either its reason is a misconfigured route, or it leaves the channel sets and the index of live
  -- calls as they were.
  pub decide-deny :
      (env : Env F) (req : Request) (w w' : World F Store) (r : Reason) (cause : ℕ)
      → decide fl st env req w ≡ (deny_with r cause, w')
      → (cause ≡ 17) × ((is_misconfigured r ≡ true) ⊎ ((w'.sets ≡ w.sets) × (w'.live ≡ w.live)))
  decide-deny env req w w' r cause h = subst (Leaves w) h (decide-Leaves env req w)

  -- An active order with an audio route but no audio group that passes every gate and gets a
  -- channel is denied, and its channel stays reserved: the call is in both sets afterwards,
  -- although it was refused.
  pub serve_order-leak :
      (env : Env F) (req : Request) (d : Did) (o : Order) (u : User) (rate : F) (w : World F Store)
      (s : Store)
      → o.status ≡ OrderStatus.active
      → same u.status (codes "active") ≡ true
      → env.min_seconds ≤ max_seconds_for_balance fl u.balance_cents rate
      → env.fails reserve_script ≡ false
      → reserve st o.user_id d.id req.call_id u.global_channel_cap o.channel_count w.sets
        ≡ (reserved, s)
      → o.route_kind ≡ audio_group
      → o.audio_group_id ≡ none
      → let r = serve_order fl st env req d (o, u, rate) w in
        (r.0 ≡ deny reservation_misconfigured)
        × (has r.1.sets (user o.user_id) req.call_id ≡ true)
        × (has r.1.sets (did d.id) req.call_id ≡ true)
  unfolding serve_order reserved_channel resolve_target connect
  serve_order-leak env req d o u rate w s ha hu hm hf hr hk hg =
      let enough : ltb (max_seconds_for_balance fl u.balance_cents rate) env.min_seconds ≡ false =
        ground arith in
      let (in_user, in_did) =
        reserve_has st o.user_id d.id req.call_id u.global_channel_cap o.channel_count w.sets s
          hr in
      let denied : serve_order fl st env req d (o, u, rate) w
          ≡ (deny reservation_misconfigured, set_sets fl st s w) =
        rw (ha, hu, enough, hf, hr, hk, hg) refl in
      rw (denied) (refl, in_user, in_did)
