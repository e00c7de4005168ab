-- ===== src/Orders/Examples.antt =====
-- A shop with one number and one customer, and the theorems at it.
use didstorageapp.Prelude.{
  ℕ, ◌≡◌, ◌≤◌, true, false, none, some, List, [], ◌∷◌, refl, arith, suc, any,
}
use didstorageapp.Prelude.Text.{
  Bytes, codes, trim_prefix, before, cut, trim_suffix_byte, trim_space, to_lower,
}
use didstorageapp.Prelude.Int.{pos}
use didstorageapp.Domain.Time.{Time}
use didstorageapp.Domain.Uri.{normalize_route_target}
use didstorageapp.Domain.Charge.SixPlaces.{six_places}
use didstorageapp.Livecalls.{sip_uri, audio_group}
use didstorageapp.Billing.{OrderStatus, active, suspended, kyc_pending, quarantined}
use didstorageapp.Sipctl.Records.{Order, User, Env, Request, World, allow, Grant}
use didstorageapp.Sipctl.Channels.{Key}
use didstorageapp.Sipctl.Channels.Listed.{listed}
use didstorageapp.Sipctl.Decide.{decide, order_for, joined}
use didstorageapp.Sipctl.Number.{parse_e164}
use didstorageapp.Orders.Tables.{
  Rental, DidRow, Customer, pending, topup, Shop, ok, update_row, clashes, block, unblock,
}
use didstorageapp.Orders.Create.{OrderForm, order_create}
use didstorageapp.Orders.Api.{create_order}
use didstorageapp.Orders.Release.{order_cancel, did_retire, is_available_row}
use didstorageapp.Orders.Block.{user_block, user_unblock}
use didstorageapp.Orders.Blocking.{reading, user_block-decide}
use didstorageapp.Orders.Unblocking.{user_unblock-user_block}
use didstorageapp.Orders.Update.{EditForm, Clip, Group, blank}
use didstorageapp.Orders.Resellers.{create_order-order_create}
use didstorageapp.Orders.Served.{create_order-order_for}
use didstorageapp.Orders.Doubles.{order_create-holders, order_cancel-did_retire}
use didstorageapp.Orders.Placed.{holders, capacity, IsPlaced}
use didstorageapp.Orders.Placed.Steps.{
  Reach, here, next, placed_by_reseller, cancels, Reach-IsPlaced,
}

abbrev today : Time
today = record { year = 2026; month = 3; day = 14; nanos = 0 }

-- A number in the given status.
abbrev london_row : Bytes → DidRow
london_row s = record {
  did = record {
    id = 3;
    e164 = codes "442";
    supplier_id = 5;
    status = s;
    reserved_route_kind = none;
    reserved_route_target = [];
    reserved_audio_group_id = none;
  };
  country_iso = codes "GB";
  did_type = codes "local";
}

abbrev ann : Customer
ann = record {
  user = record {
    id = 7;
    status = codes "active";
    balance_cents = pos 500;
    global_channel_cap = pos 4;
  };
  reseller_id = some 4;
}

-- An order of the number, in the given status.
abbrev rental : OrderStatus → Rental
rental s = record {
  order = record {
    id = 11;
    did_id = 3;
    user_id = 7;
    rate_card_id = 2;
    channel_count = 2;
    route_kind = sip_uri;
    route_target = codes "a@b";
    audio_group_id = none;
    pop_id = none;
    status = s;
  };
  pre_quarantine_route_kind = none;
  pre_quarantine_route_target = none;
  kyc_bundle_id = some 8;
  anniversary_day = 14;
  next_billing_at = today;
  ended_at = none;
}

abbrev shop_with : List Rental → Bytes → Shop
shop_with rentals s = record {
  rentals = rentals;
  dids = london_row s ∷ [];
  customers = ann ∷ [];
  bundles = record { id = 8; user_id = 7; status = pending } ∷ [];
  terms =
      record {
        id = 2;
        supplier_id = 5;
        country_iso = codes "GB";
        did_type = codes "local";
        nrc_cents = 200;
      }
      ∷ [];
  sip_accounts = [];
  ledger =
      record {
        user_id = 7;
        delta_cents = pos 500;
        kind = topup;
        ref_id = none;
        balance_after = pos 500;
      }
      ∷ [];
  block_log = [];
  next_order_id = 12;
}

abbrev form : OrderForm
form = record {
  user_id = 7;
  did_id = 3;
  channel_count = pos 2;
  route_kind = some sip_uri;
  route_target = codes "a@b";
  anniversary_day = pos 0;
  kyc_bundle_id = some 8;
}

abbrev open_shop : Shop
open_shop = shop_with [] (codes "available")

abbrev rented_out : Shop
rented_out = shop_with (rental active ∷ []) (codes "assigned")

ordered_and_cancelled :
    Reach open_shop (order_cancel false today 12 (create_order false today 4 form open_shop).1).1
ordered_and_cancelled =
    next (next here (placed_by_reseller false today 4 form)) (cancels false today 12)

open_shop-IsPlaced : IsPlaced open_shop
unfolding holders
open_shop-IsPlaced d = omega arith

Reach-IsPlaced_example :
    IsPlaced (order_cancel false today 12 (create_order false today 4 form open_shop).1).1
Reach-IsPlaced_example = Reach-IsPlaced open_shop-IsPlaced ordered_and_cancelled

create_order-order_create_example :
    create_order false today 4 form open_shop ≡ order_create false today form open_shop
unfolding normalize_route_target trim_space to_lower
create_order-order_create_example =
    create_order-order_create false today 4 form sip_uri open_shop refl refl refl refl refl refl
      refl refl

user_unblock-user_block_example :
    user_unblock false 7 [] (user_block false 7 (codes "fraud") rented_out).1 ≡ (
      ok,
      record rented_out {
        block_log =
            record { user_id = 7; action = unblock; reason = codes "unblocked" }
            ∷ record { user_id = 7; action = block; reason = codes "fraud" }
            ∷ [];
      },
    )
unfolding clashes
user_unblock-user_block_example =
    user_unblock-user_block 7 (codes "fraud") [] rented_out refl refl refl ((refl, refl, refl), tt)
      refl

abbrev to_group : EditForm
to_group = record {
  route_kind = some audio_group;
  route_target = [];
  clip = Clip.not_picked;
  group = Group.picked 6 2;
  channel_count = blank;
  anniversary_day = blank;
  kyc_bundle_id = blank;
  kyc_bundle_clear = false;
}

-- The bundle is pending, so the second order of the number is not active.
order_create-holders_example :
    ((order_create false today form rented_out).0 ≡ ok)
    × (suc (capacity 3 (order_create false today form rented_out).1.dids)
        ≤ holders 3 (order_create false today form rented_out).1.rentals)
unfolding holders normalize_route_target clashes trim_space to_lower
order_create-holders_example =
    order_create-holders today form sip_uri
      (record {
        id = 2;
        supplier_id = 5;
        country_iso = codes "GB";
        did_type = codes "local";
        nrc_cents = 200;
      })
      rented_out refl refl refl refl refl refl refl refl (omega arith)

abbrev unpaid : Shop
unpaid = shop_with (rental suspended ∷ []) (codes "assigned")

order_cancel-did_retire_example :
    ((did_retire false false 3 unpaid).0 ≡ ok)
    × ((order_cancel false today 11 (did_retire false false 3 unpaid).1).0 ≡ ok)
    × (any
          (is_available_row 3)
          (order_cancel false today 11 (did_retire false false 3 unpaid).1).1.dids
        ≡ true)
order_cancel-did_retire_example =
    order_cancel-did_retire today 3 11 (rental suspended) unpaid refl refl refl refl refl

abbrev waiting : Shop
waiting = shop_with (rental kyc_pending ∷ []) (codes "assigned")

abbrev invite : Request
invite = record {
  call_id = codes "y@h";
  src_ip = codes "9.9.9.9";
  to_uri = codes "sip:+442@h";
  from_uri = [];
  asterisk_channel = codes "P";
}

abbrev desk : Env ℕ
desk = record {
  now = 100;
  ticks = 1;
  min_seconds = 60;
  fails = λ s. false;
  valid_ip = λ ip. true;
  in_cidr = λ s ip. true;
  hostnames = λ s. [];
  resolves = λ h ip. false;
  dids = [];
  orders = [];
  users = [];
  rate_cards = record { id = 2; per_minute_cents = 1500000 } ∷ [];
  members = λ g. [];
}

abbrev quiet : World ℕ (List (Key × Bytes))
quiet = record {
  cdrs = [];
  denied_calls = [];
  live = record { index = []; meta = [] };
  sets = [];
  last = [];
}

abbrev grant : Grant ℕ
grant = record {
  reservation_id = codes "y@h";
  max_seconds = 180;
  route_kind = sip_uri;
  route_target = codes "a@b";
  pop_id = 0;
  rate_cents_per_min = some 1500000;
}

abbrev blocked_shop : Shop
blocked_shop = (user_block false 7 (codes "fraud") rented_out).1

user_block-decide_example :
    ¬ (decide six_places listed (reading blocked_shop desk) invite quiet ≡ (allow grant, quiet))
unfolding user_block update_row joined parse_e164 trim_prefix before cut trim_suffix_byte trim_space
user_block-decide_example =
    user_block-decide six_places listed desk 7 (codes "fraud") rented_out blocked_shop invite
      (london_row (codes "assigned")).did
      (record (rental quarantined).order { status = quarantined })
      (record ann.user { status = codes "inactive" }) 1500000 quiet quiet grant refl refl refl refl
      refl

-- The shop after an accepted order for the number.
abbrev ordered : Shop
ordered = (create_order false today 4 form open_shop).1

create_order-order_for_example :
    (u : User) × (o : Order) × (order_for (reading ordered desk) 3 ≡ some (o, u, 1500000))
    × (o.id ≡ 12)
    × (o.user_id ≡ 7)
unfolding normalize_route_target trim_space to_lower create_order clashes
create_order-order_for_example =
    create_order-order_for desk
      (record {
        id = 2;
        supplier_id = 5;
        country_iso = codes "GB";
        did_type = codes "local";
        nrc_cents = 200;
      })
      (record { id = 2; per_minute_cents = 1500000 }) false today 4 form open_shop ordered
      open_shop-IsPlaced refl refl refl
