-- ===== src/Sipctl/Decide/Holds.antt =====
-- The channel sets after the parts of decide that follow a reservation.
use didstorageapp.Prelude.{
  ℕ, ◌≡◌, Option, none, some, refl, arith, Bool-cases, Option-cases, inl, inr, ◌∙◌,
}
use didstorageapp.Prelude.Text.{Bytes, is_empty}
use didstorageapp.Livecalls.{
  RouteKind, audio_group, audio, ip, sip_uri, sip_account, ActiveCall, register,
}
use didstorageapp.Audiogroup.{Member}
use didstorageapp.Sipctl.Records.{
  Request, Did, Order, World, Env, Response, deny_with, allow, audio_query,
}
use didstorageapp.Sipctl.Rows.{resolve_target, try_register, play}
use didstorageapp.Sipctl.Decide.{serve_reserved, connect, reserved_route}

module _ {F S : Type 0} where
  -- A call that is let through holds the sets `s`, and may last `seconds`.
  abbrev pub Holds : ℕ → S → Response F × World F S → Type 0
  Holds seconds s (deny_with r cause, w') = Unit
  Holds seconds s (allow g, w') = (g.max_seconds ≡ seconds) × (w'.sets ≡ s)

  abbrev Target : S → Option (Bytes × World F S) → Type 0
  Target s none = Unit
  Target s (some (target, w')) = w'.sets ≡ s

  try_register_sets :
      (env : Env F) (c : ActiveCall F) (w : World F S) → (try_register env c w).sets ≡ w.sets
  try_register_sets env c w = elim (Option-cases (register env.now c w.live)) [
    | inl e ↦ rw e (ground arith)
    | inr (l, e) ↦ rw e (ground arith)
  ]

  play-Target :
      (group : ℕ) (m : Option (Member × ℕ)) (w : World F S) → Target w.sets (play group m w)
  play-Target group none w = tt
  play-Target group (some (m, n)) w = refl

  pub resolve_target-Target :
      (env : Env F) (k : RouteKind) (g : Option ℕ) (t : Bytes) (w : World F S)
      → Target w.sets (resolve_target env k g t w)
  unfolding resolve_target
  resolve_target-Target env audio_group none t w = tt
  resolve_target-Target env audio_group (some g) t w = elim (Bool-cases (env.fails audio_query)) [
    | inl e ↦ rw e tt
    | inr e ↦ rw e (play-Target g _ w)
  ]
  resolve_target-Target env audio g t w = refl
  resolve_target-Target env ip g t w = refl
  resolve_target-Target env sip_uri g t w = refl
  resolve_target-Target env sip_account g t w = refl

  pub connect-Holds :
      (env : Env F) (req : Request) (d : Did) (o : Order) (rate : F) (seconds : ℕ)
      (t : Option (Bytes × World F S)) (w : World F S)
      → Target w.sets t
      → Holds seconds w.sets (connect env req d o rate seconds t w)
  unfolding connect
  connect-Holds env req d o rate seconds none w h = tt
  connect-Holds env req d o rate seconds (some (target, w')) w h =
      (refl, try_register_sets env _ w' ∙ h)

  reserved_route-Holds :
      (env : Env F) (req : Request) (d : Did) (k : RouteKind) (t : Option (Bytes × World F S))
      (w : World F S)
      → Target w.sets t
      → Holds 14400 w.sets (reserved_route env req d k t w)
  unfolding reserved_route
  reserved_route-Holds env req d k none w h = tt
  reserved_route-Holds env req d k (some (target, w')) w h = elim (Bool-cases (is_empty target)) [
    | inl e ↦ rw e tt
    | inr e ↦ rw e (refl, try_register_sets env _ _ ∙ (ground (arith, h)))
  ]

  pub serve_reserved-Holds :
      (env : Env F) (req : Request) (d : Did) (w : World F S)
      → Holds 14400 w.sets (serve_reserved env req d w)
  unfolding serve_reserved
  serve_reserved-Holds env req d w = elim (Option-cases d.reserved_route_kind) [
    | inl e ↦ rw e tt
    | inr (k, e) ↦ rw e (
        reserved_route-Holds env req d k _ w
          (resolve_target-Target env k d.reserved_audio_group_id d.reserved_route_target w))
  ]
