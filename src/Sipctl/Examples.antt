-- ===== src/Sipctl/Examples.antt =====
-- Concrete calls that ask for a decision, and the theorems at them.
use didstorageapp.Prelude.{
  ℕ, ◌≡◌, ◌≤◌, ◌⊎◌, Bool, true, false, none, some, List, [], ◌∷◌, refl, arith,
}
use didstorageapp.Prelude.Text.{
  Bytes, codes, trim_prefix, before, cut, trim_suffix_byte, trim_space,
}
use didstorageapp.Prelude.Int.{ℤ, pos, negsuc, ◌-ℤ◌}
use didstorageapp.Billing.{OrderStatus}
use didstorageapp.Domain.Charge.{max_seconds_for_balance, charge_for_call, billed}
use didstorageapp.Domain.Uri.{sanitize_call_id}
use didstorageapp.Domain.Charge.SixPlaces.{six_places}
use didstorageapp.Livecalls.{sip_uri, audio_group}
use didstorageapp.Sipctl.Number.{parse_e164}
use didstorageapp.Sipctl.Channels.{user, did, Key, reserve}
use didstorageapp.Sipctl.Channels.Laws.{reserve-caps, reserve-Attempted, Attempted}
use didstorageapp.Sipctl.Channels.Listed.{listed}
use didstorageapp.Sipctl.Records.{
  Request, Did, Order, User, World, Env, allow, Grant, insufficient_balance,
  reservation_misconfigured,
}
use didstorageapp.Sipctl.Rows.{deny, cause_for_reason}
use didstorageapp.Sipctl.Decide.{decide, serve_order, joined}
use didstorageapp.Sipctl.Decide.Denials.{is_misconfigured, decide-deny, serve_order-leak}
use didstorageapp.Sipctl.Decide.Allowed.{Allowed, decide-Allowed}
use didstorageapp.Livecalls.{in_index}
use didstorageapp.Sipctl.Cdr.{
  CdrRequest, Rental, CallRow, Books, Step, deregister_call, release_page, charged_ok, cdr,
}
use didstorageapp.Sipctl.Settled.{cdr-Closed, cdr-charges, balance_of_user}

abbrev busy_sets : List (Key × Bytes)
busy_sets = (user 7, codes "x") ∷ (did 3, codes "x") ∷ []

-- One call holds a channel; the user may have two and the number one.
reserve-caps_example :
    let s' = (reserve listed 7 3 (codes "y") (pos 2) 1 busy_sets).1 in
    (listed.card s' (user 7) ≤ 2) × (listed.card s' (did 3) ≤ 1)
reserve-caps_example = reserve-caps listed 7 3 (codes "y") 2 1 busy_sets (omega arith) (omega arith)

reserve-Attempted_example :
    let r = reserve listed 7 3 (codes "y") (negsuc 0) 2 busy_sets in
    Attempted listed 7 3 (codes "y") (negsuc 0) 2 busy_sets r.0 r.1
reserve-Attempted_example = reserve-Attempted listed 7 3 (codes "y") (negsuc 0) 2 busy_sets

abbrev invite : Request
invite = record {
  call_id = codes "y@h";
  src_ip = codes "9.9.9.9";
  to_uri = codes "sip:+442@h";
  from_uri = [];
  asterisk_channel = codes "P";
}

abbrev london : Did
london = record {
  id = 3;
  e164 = codes "442";
  supplier_id = 5;
  status = codes "assigned";
  reserved_route_kind = none;
  reserved_route_target = [];
  reserved_audio_group_id = none;
}

abbrev rented : Order
rented = record {
  id = 11;
  did_id = 3;
  user_id = 7;
  rate_card_id = 2;
  channel_count = 2;
  route_kind = sip_uri;
  route_target = codes "a@b";
  audio_group_id = none;
  pop_id = none;
  status = OrderStatus.active;
}

abbrev silent : Order
silent = record rented { route_kind = audio_group }

-- A customer with the given balance, in cents.
abbrev payer : ℤ → User
payer balance = record {
  id = 7;
  status = codes "active";
  balance_cents = balance;
  global_channel_cap = pos 4;
}

abbrev desk : ℤ → Env ℕ
desk balance = record {
  now = 100;
  ticks = 1;
  min_seconds = 60;
  fails = λ s. false;
  valid_ip = λ ip. true;
  in_cidr = λ s ip. true;
  hostnames = λ s. [];
  resolves = λ h ip. false;
  dids = london ∷ [];
  orders = rented ∷ [];
  users = payer balance ∷ [];
  rate_cards = record { id = 2; per_minute_cents = 1500000 } ∷ [];
  members = λ g. [];
}

abbrev quiet : World ℕ (List (Key × Bytes))
quiet = record {
  cdrs = [];
  denied_calls = [];
  live = record { index = []; meta = [] };
  sets = busy_sets;
  last = [];
}

abbrev grant : Grant ℕ
grant = record {
  reservation_id = codes "y@h";
  max_seconds = 180;
  route_kind = sip_uri;
  route_target = codes "a@b";
  pop_id = 0;
  rate_cents_per_min = some 1500000;
}

-- Five cents buy three minutes.
granted_call : (decide six_places listed (desk (pos 5)) invite quiet).0 ≡ allow grant
unfolding decide parse_e164 trim_prefix before cut trim_suffix_byte trim_space joined
    max_seconds_for_balance reserve
granted_call = refl

decide-Allowed_example :
    Allowed six_places listed
      (desk (pos 5))
      invite
      quiet
      grant
      (decide six_places listed (desk (pos 5)) invite quiet).1
unfolding decide parse_e164 trim_prefix before cut trim_suffix_byte trim_space joined
    max_seconds_for_balance reserve
decide-Allowed_example =
    decide-Allowed six_places listed (desk (pos 5)) invite quiet
      (decide six_places listed (desk (pos 5)) invite quiet).1 grant refl

-- Nothing on the account: denied.
decide-deny_example :
    let w = (decide six_places listed (desk (pos 0)) invite quiet).1 in
    (cause_for_reason insufficient_balance ≡ 17)
    × ((is_misconfigured insufficient_balance ≡ true)
        ⊎ ((w.sets ≡ busy_sets) × (w.live ≡ quiet.live)))
unfolding decide parse_e164 trim_prefix before cut trim_suffix_byte trim_space joined
    max_seconds_for_balance reserve
decide-deny_example =
    decide-deny six_places listed (desk (pos 0)) invite quiet
      (decide six_places listed (desk (pos 0)) invite quiet).1 insufficient_balance 17 refl

serve_order-leak_example :
    let r =
      serve_order six_places listed
        (desk (pos 5))
        invite
        london
        (silent, payer (pos 5), 1500000)
        quiet in
    (r.0 ≡ deny reservation_misconfigured)
    × (listed.has r.1.sets (user 7) (codes "y@h") ≡ true)
    × (listed.has r.1.sets (did 3) (codes "y@h") ≡ true)
unfolding reserve max_seconds_for_balance
serve_order-leak_example =
    serve_order-leak six_places listed (desk (pos 5)) invite london silent (payer (pos 5)) 1500000
      quiet (reserve listed 7 3 (codes "y@h") (pos 4) 2 busy_sets).1 refl refl (omega arith) refl
      refl refl refl

abbrev hangup_report : CdrRequest
hangup_report = record {
  call_id = codes "x";
  started_at = 100;
  answered_at = 101;
  ended_at = 162;
  billsec = pos 61;
  hangup_cause = codes "16";
  src_uri = [];
  dst_uri = codes "sip:442@h";
}

abbrev rental : Rental ℕ
rental = record {
  order_id = 11;
  user_id = 7;
  supplier_id = 5;
  did_id = 3;
  e164 = codes "442";
  is_active = true;
  per_minute = 1500000;
  bill_min = pos 60;
  bill_inc = pos 6;
  supplier_per_minute = 0;
  supplier_bill_min = pos 60;
  supplier_bill_inc = pos 60;
}

-- The call has its row already, with its charge.
abbrev charged_row : CallRow
charged_row = record {
  call_id = codes "x";
  order_id = some 11;
  started_at = 100;
  answered_at = 101;
  ended_at = 162;
  billsec = pos 61;
  charged_minutes = pos 2;
  charge_cents = pos 2;
  supplier_charge_cents = pos 0;
  hangup_cause = codes "16";
  admin_action = none;
}

abbrev settled_books : Books ℕ (List (Key × Bytes))
settled_books = record {
  tables = record {
    rows = charged_row ∷ [];
    accounts = record { id = 7; balance_cents = pos 50 } ∷ [];
    ledger = [];
  };
  waiting = [];
  live = record { index = []; meta = [] };
  sets = busy_sets;
}

-- The statements of the database fail, those of Redis do not.
abbrev database_down : Step → Bool
database_down deregister_call = false
database_down (release_page n) = false
database_down _ = true

cdr-Closed_example :
    let b = (cdr six_places listed database_down 200 (rental ∷ []) hangup_report settled_books).1 in
    (listed.has b.sets (user 7) (codes "x") ≡ false)
    × (in_index (sanitize_call_id (codes "x")) b.live.index ≡ false)
unfolding sanitize_call_id trim_space before cut
cdr-Closed_example =
    cdr-Closed six_places listed database_down 200 (rental ∷ []) hangup_report settled_books
      (user 7) refl refl (λ n. refl)

cdr-charges_example :
    let r = cdr six_places listed (λ s. false) 200 (rental ∷ []) hangup_report settled_books in
    (r.0 ≡ charged_ok (pos 2))
    × (r.1.tables.ledger
        ≡ record { user_id = 7; delta_cents = negsuc 1; call_id = sanitize_call_id (codes "x") }
          ∷ [])
    × (balance_of_user 7 r.1.tables.accounts ≡ some (pos 50 -ℤ pos 2))
unfolding sanitize_call_id trim_space before cut parse_e164 trim_prefix trim_suffix_byte
    charge_for_call billed
cdr-charges_example =
    cdr-charges six_places listed (λ s. false) 200 (rental ∷ []) hangup_report settled_books rental
      1 7 (λ s. refl) refl refl
