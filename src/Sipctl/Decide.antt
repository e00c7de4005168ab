-- ===== src/Sipctl/Decide.antt =====
-- decide of internal/sipctl/sipctl.go, from the request to the response, in the order of the
-- source. Every step returns the response and the world after it. A statement that fails writes
-- nothing.
pub mod Denials
pub mod Holds
pub mod Allowed
use didstorageapp.Prelude.{
  ℕ, ◌*◌, Bool, true, false, ◌||◌, not, Option, none, some, List, [], ◌∷◌, ◌++◌, any, find, ltb,
  ◌==◌, keep, if◌then◌else◌,
}
use didstorageapp.Prelude.Text.{Bytes, codes, same, is_empty}
use didstorageapp.Prelude.Int.{ℤ}
use didstorageapp.Billing.{OrderStatus}
use didstorageapp.Domain.Uri.{sanitize_call_id}
use didstorageapp.Domain.Charge.{Float, max_seconds_for_balance}
use didstorageapp.Livecalls.{RouteKind, audio, audio_group, ActiveCall, register}
use didstorageapp.Audiogroup.{Member, pick_member}
use didstorageapp.Sipctl.Number.{parse_e164}
use didstorageapp.Sipctl.Channels.{SetStore, Reservation, reserved, user_full, did_full, reserve}
use didstorageapp.Sipctl.Records.{
  Request, Reason, bad_to_uri, bad_src_ip, unknown_did, lookup_error, unauthorized_ip,
  src_ip_not_authorized, reservation_misconfigured, reserved_did, did_not_assigned, kyc_pending,
  quarantined, user_blocked, insufficient_balance, insufficient_channels, reservation_error,
  user_channel_cap_hit, did_channel_cap_hit, Did, Order, User, RateCard, Shell, Denied, World,
  did_lookup, cidr_query, hostname_query, order_lookup, reserve_script, audio_query, register_call,
  cdr_insert, denied_insert, Env, Grant, Response, deny_with, allow,
}
use didstorageapp.Sipctl.Rows.{
  cause_for_reason, deny, last_of, dial_kind, shell, supplier_ip_allowed, active_call, denied_call,
  insert_cdr, denial_cdr, unbilled_cdr, play, resolve_target, try_register,
}

module _ {F S : Type 0} where
  -- The reserved number: no user, no order, no charge.
  unfoldable pub reserved_route :
      Env F
      → Request
      → Did
      → RouteKind
      → Option (Bytes × World F S)
      → World F S
      → Response F × World F S
  reserved_route env req d kind none w = (deny reservation_misconfigured, w)
  reserved_route env req d kind (some (target, w')) w =
      if is_empty target then (deny reservation_misconfigured, w') else (
        allow (record {
          reservation_id = req.call_id;
          max_seconds = 4 * 60 * 60;
          route_kind = dial_kind kind;
          route_target = target;
          pop_id = 0;
          rate_cents_per_min = none;
        }),
        try_register env (active_call req d none none kind target true)
            (unbilled_cdr env req d reserved_did (some kind) target w'),
      )

  unfoldable pub serve_reserved : Env F → Request → Did → World F S → Response F × World F S
  unfolding reserved_route resolve_target
  serve_reserved env req d w = elim d.reserved_route_kind [
    | none ↦ (deny reservation_misconfigured, w)
    | some kind ↦
        reserved_route env req d kind
          (resolve_target env kind d.reserved_audio_group_id d.reserved_route_target w) w
  ]

  -- After the channel is reserved.
  unfoldable pub connect :
      Env F
      → Request
      → Did
      → Order
      → F
      → ℕ
      → Option (Bytes × World F S)
      → World F S
      → Response F × World F S
  connect env req d o rate seconds none w = (deny reservation_misconfigured, w)
  connect env req d o rate seconds (some (target, w')) w = (
    allow (record {
      reservation_id = req.call_id;
      max_seconds = seconds;
      route_kind = dial_kind o.route_kind;
      route_target = target;
      pop_id = elim o.pop_id [ none ↦ 0 | some p ↦ p ];
      rate_cents_per_min = some rate;
    }),
    try_register env (active_call req d (some o) (some rate) o.route_kind target false) w',
  )

abbrev pub is_active_order : OrderStatus → Bool
is_active_order OrderStatus.active = true
is_active_order _ = false

abbrev pub is_quarantined : OrderStatus → Bool
is_quarantined OrderStatus.quarantined = true
is_quarantined _ = false

abbrev pub is_kyc_pending : OrderStatus → Bool
is_kyc_pending OrderStatus.kyc_pending = true
is_kyc_pending _ = false

module _ {F : Type 0} where
  -- The orders of a number, joined with their users and rate cards.
  abbrev pub join_one :
      Order → Option User → Option (RateCard F) → List (Order × User × F) → List (Order × User × F)
  join_one o (some u) (some r) rows = (o, u, r.per_minute_cents) ∷ rows
  join_one o _ _ rows = rows

  unfoldable pub joined : Env F → ℕ → List Order → List (Order × User × F)
  joined env did_id [] = []
  joined env did_id (o ∷ orders) =
      let rows = joined env did_id orders in
      if o.did_id == did_id
      then join_one o (find (λ (u : User). u.id == o.user_id) env.users)
          (find (λ (r : RateCard F). r.id == o.rate_card_id) env.rate_cards) rows
      else rows

  -- ORDER BY the status, LIMIT 1: active before quarantined before kyc_pending.
  abbrev pub or_else :
      Option (Order × User × F) → Option (Order × User × F) → Option (Order × User × F)
  or_else none later = later
  or_else (some row) later = some row

  abbrev pub order_for : Env F → ℕ → Option (Order × User × F)
  order_for env did_id =
      let rows = joined env did_id env.orders in
      or_else (find (λ (r : Order × User × F). is_active_order r.0.status) rows) (
        or_else (find (λ (r : Order × User × F). is_quarantined r.0.status) rows)
          (find (λ (r : Order × User × F). is_kyc_pending r.0.status) rows))

module _ (fl : Float) (st : SetStore) where
  open fl use {F}
  open st use {Store}

  abbrev pub set_sets : Store → World F Store → World F Store
  set_sets s w = record w { sets = s }

  unfoldable pub reserved_channel :
      Env F
      → Request
      → Did
      → Order
      → F
      → ℕ
      → Reservation × Store
      → World F Store
      → Response F × World F Store
  unfolding connect resolve_target
  reserved_channel env req d o rate seconds (reserved, s) w =
      let w' = set_sets s w in
      connect env req d o rate seconds
        (resolve_target env o.route_kind o.audio_group_id o.route_target w') w'
  reserved_channel env req d o rate seconds (user_full, s) w =
      (deny user_channel_cap_hit, denial_cdr env req d o rate insufficient_channels w)
  reserved_channel env req d o rate seconds (did_full, s) w =
      (deny did_channel_cap_hit, denial_cdr env req d o rate insufficient_channels w)

  -- The gates of an order, in their order.
  unfoldable pub serve_order :
      Env F → Request → Did → Order × User × F → World F Store → Response F × World F Store
  unfolding reserved_channel
  serve_order env req d (o, u, rate) w =
      let seconds = max_seconds_for_balance fl u.balance_cents rate in
      let refuse : Reason → Response F × World F Store =
        λ reason. (deny reason, denial_cdr env req d o rate reason w) in
      if is_kyc_pending o.status
      then refuse kyc_pending
      else if is_quarantined o.status
      then refuse quarantined
      else if not (same u.status (codes "active"))
      then refuse user_blocked
      else if ltb seconds env.min_seconds
      then refuse insufficient_balance
      else if env.fails reserve_script
      then (deny reservation_error, w)
      else reserved_channel env req d o rate seconds
          (reserve st o.user_id d.id req.call_id u.global_channel_cap o.channel_count w.sets) w

  abbrev pub unassigned : Env F → Request → Did → World F Store → Response F × World F Store
  unassigned env req d w = (
    deny did_not_assigned,
    denied_call env req did_not_assigned (unbilled_cdr env req d did_not_assigned none [] w),
  )

  unfoldable pub serve_assigned :
      Env F → Request → Did → Option (Order × User × F) → World F Store → Response F × World F Store
  unfolding serve_order
  serve_assigned env req d none w = unassigned env req d w
  serve_assigned env req d (some row) w = serve_order env req d row w

  unfoldable pub serve_did :
      Env F → Request → Option Did → World F Store → Response F × World F Store
  unfolding serve_reserved serve_assigned
  serve_did env req none w = (deny unknown_did, denied_call env req unknown_did w)
  serve_did env req (some d) w =
      if not (supplier_ip_allowed env d.supplier_id req.src_ip)
      then (deny src_ip_not_authorized, denied_call env req unauthorized_ip w)
      else if same d.status (codes "reserved")
      then serve_reserved env req d w
      else if not (same d.status (codes "assigned"))
      then unassigned env req d w
      else if env.fails order_lookup
      then (deny lookup_error, w)
      else serve_assigned env req d (order_for env d.id) w

  unfoldable pub decide : Env F → Request → World F Store → Response F × World F Store
  unfolding serve_did
  decide env req w =
      let e164 = parse_e164 req.to_uri in
      if is_empty e164
      then (deny bad_to_uri, denied_call env req bad_to_uri w)
      else if not (env.valid_ip req.src_ip)
      then (deny bad_src_ip, denied_call env req bad_src_ip w)
      else if env.fails did_lookup
      then (deny lookup_error, w)
      else serve_did env req (find (λ (d : Did). same d.e164 e164) env.dids) w
