-- ===== src/Livecalls/Examples.antt =====
-- Concrete runs of the index of live calls and of its sweep.
use didstorageapp.Prelude.{ℕ, ◌≡◌, false, none, some, List, [], ◌∷◌, refl, map}
use didstorageapp.Prelude.Text.{Bytes, codes}
use didstorageapp.Livecalls.{ActiveCall, Live, sip_uri, register, list, fetch}
use didstorageapp.Livecalls.Pending.{PendingAction}
use didstorageapp.Livecalls.Sweep.{reconcile_once}

abbrev hangup : PendingAction
hangup = record { action = codes "live_hangup"; admin_id = 7; reason = [] }

abbrev waiting : List (Bytes × PendingAction × ℕ)
waiting = (codes "a", hangup, 21700) ∷ []

-- Two calls that ring since second 100, the second with a channel.
abbrev ringing : Bytes → Bytes → ActiveCall ℕ
ringing id channel = record {
  call_id = id;
  call_id_full = id;
  started_at = 100;
  user_id = 1;
  order_id = 1;
  did_id = 1;
  supplier_id = 1;
  e164 = codes "1";
  src_ip = [];
  src_uri = [];
  route_kind = sip_uri;
  route_target = [];
  reserved = false;
  rate_per_min = none;
  asterisk_channel = channel;
  last_admin_action = [];
}

abbrev two_live : Live ℕ
two_live = record {
  index = (codes "a", 100) ∷ (codes "b", 100) ∷ [];
  meta =
      (codes "a", ringing (codes "a") [], 9000)
      ∷ (codes "b", ringing (codes "b") (codes "P"), 9000)
      ∷ [];
}

abbrev members : List (Bytes × ℕ) → List Bytes
members ix = map (λ (e : Bytes × ℕ). e.0) ix

-- At second 200 only the call without a channel is swept.
swept :
    (reconcile_once members 200 20 (some (codes "P" ∷ [])) two_live []).1.index
    ≡ (codes "b", 100) ∷ []
unfolding reconcile_once list fetch didstorageapp.Livecalls.deregister
swept = refl
