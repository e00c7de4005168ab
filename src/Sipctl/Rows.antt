-- ===== src/Sipctl/Rows.antt =====
-- What decide of internal/sipctl/sipctl.go writes and looks up on its way: deniedCall, denialCDR,
-- unbilledCDR, supplierIPAllowed, pickAudioGroupMember and the registration of the live call.
use didstorageapp.Prelude.{
  ℕ, Bool, true, false, ◌||◌, not, Option, none, some, List, [], ◌∷◌, ◌++◌, any, find, ◌==◌, keep,
  if◌then◌else◌,
}
use didstorageapp.Prelude.Text.{Bytes, codes, same}
use didstorageapp.Domain.Uri.{sanitize_call_id}
use didstorageapp.Livecalls.{RouteKind, audio, audio_group, ActiveCall, register}
use didstorageapp.Audiogroup.{Member, pick_member}
use didstorageapp.Sipctl.Records.{
  Request, Reason, Did, Order, Shell, World, cidr_query, hostname_query, audio_query, register_call,
  cdr_insert, denied_insert, Env, Response, deny_with,
}

abbrev pub cause_for_reason : Reason → ℕ
cause_for_reason reason = 17

abbrev pub deny : {F : Type 0} → Reason → Response F
deny reason = deny_with reason (cause_for_reason reason)

abbrev pub last_of : ℕ → List (ℕ × ℕ) → ℕ
last_of group l = elim (find (λ (e : ℕ × ℕ). e.0 == group) l) [ none ↦ 0 | some e ↦ e.1 ]

abbrev pub dial_kind : RouteKind → RouteKind
dial_kind audio_group = audio
dial_kind kind = kind

module _ {F : Type 0} where
  abbrev pub shell :
      Env F → Request → Did → Option Order → Option F → Reason → Option RouteKind → Bytes → Shell F
  shell env req d o rate cause kind target = record {
    call_id = sanitize_call_id req.call_id;
    order_id = elim o [ none ↦ none | some r ↦ some r.id ];
    user_id = elim o [ none ↦ none | some r ↦ some r.user_id ];
    supplier_id = d.supplier_id;
    did_id = d.id;
    routed_kind = kind;
    routed_target = target;
    started_at = env.now;
    rate_cents_per_min = rate;
    hangup_cause = cause;
    src_uri = req.from_uri;
    dst_uri = req.to_uri;
  }

  abbrev pub supplier_ip_allowed : Env F → ℕ → Bytes → Bool
  supplier_ip_allowed env supplier ip =
      if env.fails cidr_query
      then false
      else if env.in_cidr supplier ip
      then true
      else if env.fails hostname_query
      then false
      else any (λ host. env.resolves host ip) (env.hostnames supplier)

  abbrev pub active_call :
      Request → Did → Option Order → Option F → RouteKind → Bytes → Bool → ActiveCall F
  active_call req d o rate kind target is_reserved = record {
    call_id = sanitize_call_id req.call_id;
    call_id_full = req.call_id;
    started_at = 0;
    user_id = elim o [ none ↦ 0 | some r ↦ r.user_id ];
    order_id = elim o [ none ↦ 0 | some r ↦ r.id ];
    did_id = d.id;
    supplier_id = d.supplier_id;
    e164 = d.e164;
    src_ip = req.src_ip;
    src_uri = req.from_uri;
    route_kind = kind;
    route_target = target;
    reserved = is_reserved;
    rate_per_min = rate;
    asterisk_channel = req.asterisk_channel;
    last_admin_action = [];
  }

module _ {F S : Type 0} where
  abbrev pub denied_call : Env F → Request → Reason → World F S → World F S
  denied_call env req reason w = if env.fails denied_insert then w else record w {
    denied_calls =
        record {
          call_id = req.call_id;
          src_ip = if env.valid_ip req.src_ip then req.src_ip else codes "0.0.0.0";
          to_uri = req.to_uri;
          from_uri = req.from_uri;
          reason = reason;
        }
        ∷ w.denied_calls;
  }

  -- INSERT .. ON CONFLICT (call_id) DO NOTHING
  abbrev pub insert_cdr : Env F → Shell F → World F S → World F S
  insert_cdr env row w =
      if env.fails cdr_insert || any (λ (c : Shell F). same c.call_id row.call_id) w.cdrs
      then w
      else record w { cdrs = row ∷ w.cdrs }

  abbrev pub denial_cdr : Env F → Request → Did → Order → F → Reason → World F S → World F S
  denial_cdr env req d o rate cause w = denied_call env req cause (
      insert_cdr env (shell env req d (some o) (some rate) cause (some o.route_kind) o.route_target)
        w)

  abbrev pub unbilled_cdr :
      Env F → Request → Did → Reason → Option RouteKind → Bytes → World F S → World F S
  unbilled_cdr env req d cause kind target =
      insert_cdr env (shell env req d none none cause kind target)

  -- The clip of an audio group replaces the target, and is noted as the last one played.
  abbrev pub play : ℕ → Option (Member × ℕ) → World F S → Option (Bytes × World F S)
  play group none w = none
  play group (some (m, played)) w = some (
    codes "didstorage/" ++ m.filename,
    record w { last = (group, played) ∷ keep (λ (e : ℕ × ℕ). not (e.0 == group)) w.last },
  )

  unfoldable pub resolve_target :
      Env F → RouteKind → Option ℕ → Bytes → World F S → Option (Bytes × World F S)
  resolve_target env audio_group none target w = none
  resolve_target env audio_group (some group) target w =
      if env.fails audio_query
      then none
      else play group (pick_member env.ticks (last_of group w.last) (env.members group)) w
  resolve_target env kind group target w = some (target, w)

  -- A failed registration is only logged.
  abbrev pub try_register : Env F → ActiveCall F → World F S → World F S
  try_register env c w =
      if env.fails register_call
      then w
      else elim (register env.now c w.live) [ none ↦ w | some l ↦ record w { live = l } ]
