-- ===== src/Livecalls.antt =====
-- internal/livecalls: the Redis index of calls in flight (livecalls.go), the pending admin actions
-- (pending.go) and the reconciler that sweeps dead calls (reconciler.go). `live:active` is a list
-- of members with scores, a string key a list of values with the second at which they expire. Times
-- are Unix seconds. `range` stands for ZREVRANGE 0 500, the members that Redis hands out, newest
-- first.
pub mod Pending
pub mod Sweep
pub mod Examples
use didstorageapp.Prelude.{
  ℕ, ◌+◌, ◌*◌, Bool, true, false, ◌&&◌, ◌||◌, not, Option, none, some, List, [], ◌∷◌, any, ltb, leb,
  ◌==◌, keep, find, map, if◌then◌else◌,
}
use didstorageapp.Prelude.Text.{Bytes, codes, same, is_empty}

pub data RouteKind : Type 0 where
  sip_account sip_uri ip audio audio_group : RouteKind

-- `R` is the type of rates.
pub record ActiveCall (R : Type 0) : Type 0 where
  pub call_id : Bytes
  pub call_id_full : Bytes
  pub started_at : ℕ
  pub user_id : ℕ
  pub order_id : ℕ
  pub did_id : ℕ
  pub supplier_id : ℕ
  pub e164 : Bytes
  pub src_ip : Bytes
  pub src_uri : Bytes
  pub route_kind : RouteKind
  pub route_target : Bytes
  pub reserved : Bool
  pub rate_per_min : Option R
  pub asterisk_channel : Bytes
  pub last_admin_action : Bytes

-- SET with a lifetime, DEL and GET on string keys.
module _ {V : Type 0} where
  abbrev pub delete : Bytes → List (Bytes × V × ℕ) → List (Bytes × V × ℕ)
  delete k = keep (λ (e : Bytes × V × ℕ). not (same k e.0))

  abbrev pub store : Bytes → V → ℕ → List (Bytes × V × ℕ) → List (Bytes × V × ℕ)
  store k v expiry m = (k, v, expiry) ∷ delete k m

  unfoldable pub fetch : ℕ → Bytes → List (Bytes × V × ℕ) → Option V
  fetch now k [] = none
  fetch now k ((j, v, expiry) ∷ m) =
      if same k j then (if ltb now expiry then some v else none) else fetch now k m

pub record Live (R : Type 0) : Type 0 where
  pub index : List (Bytes × ℕ)
  pub meta : List (Bytes × ActiveCall R × ℕ)

abbrev pub default_ttl : ℕ
default_ttl = 2 * 60 * 60

abbrev pub sweep_window : ℕ
sweep_window = 2 * 60 * 60

-- ZREM of one member; ZADD moves a member to its new score.
abbrev pub unindex : Bytes → List (Bytes × ℕ) → List (Bytes × ℕ)
unindex c = keep (λ (e : Bytes × ℕ). not (same c e.0))

abbrev pub in_index : Bytes → List (Bytes × ℕ) → Bool
in_index c = any (λ (e : Bytes × ℕ). same c e.0)

unfoldable pub unindex_all : List Bytes → List (Bytes × ℕ) → List (Bytes × ℕ)
unindex_all [] ix = ix
unindex_all (id ∷ ids) ix = unindex_all ids (unindex id ix)

module _ {R : Type 0} where
  abbrev pub started : ℕ → ActiveCall R → ActiveCall R
  started now c = if c.started_at == 0 then record c { started_at = now } else c

  -- An empty call id is refused; the new state is `none` on an error.
  unfoldable pub register : ℕ → ActiveCall R → Live R → Option (Live R)
  register now c live =
      let c' = started now c in
      if is_empty c.call_id
      then none
      else some (record {
        index = (c'.call_id, c'.started_at) ∷ unindex c'.call_id live.index;
        meta = store c'.call_id c' (now + default_ttl) live.meta;
      })

  unfoldable pub deregister : Bytes → Live R → Live R
  deregister id live =
      if is_empty id
      then live
      else record { index = unindex id live.index; meta = delete id live.meta }

  abbrev pub get : ℕ → Bytes → Live R → Option (ActiveCall R)
  get now id live = fetch now id live.meta

  -- One member of List: a call that is kept, or a stale member.
  abbrev pub current : ℕ → Live R → Bytes → Option (ActiveCall R)
  current now live id = elim (get now id live) [
    | none ↦ none
    | some c ↦ if ltb (c.started_at + sweep_window) now then none else some c
  ]

  abbrev pub collect_one :
      Bytes
      → Option (ActiveCall R)
      → List (ActiveCall R) × List Bytes
      → List (ActiveCall R) × List Bytes
  collect_one id none (calls, stale) = (calls, id ∷ stale)
  collect_one id (some c) (calls, stale) = (c ∷ calls, stale)

  unfoldable pub collect : ℕ → Live R → List Bytes → List (ActiveCall R) × List Bytes
  collect now live [] = ([], [])
  collect now live (id ∷ ids) = collect_one id (current now live id) (collect now live ids)

  unfoldable pub list : (List (Bytes × ℕ) → List Bytes) → ℕ → Live R → List (ActiveCall R) × Live R
  unfolding collect unindex_all
  list range now live =
      let (calls, stale) = collect now live (range live.index) in
      (calls, record live { index = unindex_all stale live.index })

  -- The route on show and the admin action of a tracked call; its lifetime starts anew.
  unfoldable pub update_route : ℕ → Bytes → RouteKind → Bytes → Bytes → Live R → Live R
  update_route now id kind target action live =
      if is_empty id then live else elim (get now id live) [
        | none ↦ live
        | some c ↦ record live {
          meta =
              store id
                (record c { route_kind = kind; route_target = target; last_admin_action = action })
                (now + default_ttl) live.meta;
        }
      ]
