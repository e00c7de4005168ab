-- ===== src/Orders/Tables.antt =====
-- The tables that the handlers of orders read and write, with the updates that they share.
use didstorageapp.Prelude.{
  ℕ, Bool, true, false, ◌&&◌, ◌||◌, Option, List, [], ◌∷◌, any, ◌==◌, if◌then◌else◌,
}
use didstorageapp.Prelude.Text.{Bytes}
use didstorageapp.Prelude.Int.{ℤ}
use didstorageapp.Domain.Time.{Time}
use didstorageapp.Livecalls.{RouteKind}
use didstorageapp.Billing.{OrderStatus, active, suspended, cancelled}
use didstorageapp.Sipctl.Records.{Did, Order, User}

-- A row of orders: what a decision reads of it, and the rest.
pub record Rental : Type 0 where
  pub order : Order
  pub pre_quarantine_route_kind : Option RouteKind
  pub pre_quarantine_route_target : Option Bytes
  pub kyc_bundle_id : Option ℕ
  pub anniversary_day : ℕ
  pub next_billing_at : Time
  pub ended_at : Option Time

pub record DidRow : Type 0 where
  pub did : Did
  pub country_iso : Bytes
  pub did_type : Bytes

pub record Customer : Type 0 where
  pub user : User
  pub reseller_id : Option ℕ

pub data BundleStatus : Type 0 where
  pending approved rejected : BundleStatus

pub record Bundle : Type 0 where
  pub id : ℕ
  pub user_id : ℕ
  pub status : BundleStatus

-- A rate card that is valid now.
pub record Terms : Type 0 where
  pub id : ℕ
  pub supplier_id : ℕ
  pub country_iso : Bytes
  pub did_type : Bytes
  pub nrc_cents : ℕ

pub data LedgerKind : Type 0 where
  topup nrc : LedgerKind

pub record LedgerEntry : Type 0 where
  pub user_id : ℕ
  pub delta_cents : ℤ
  pub kind : LedgerKind
  pub ref_id : Option ℕ
  pub balance_after : ℤ

pub data BlockAction : Type 0 where
  block unblock : BlockAction

pub record BlockEntry : Type 0 where
  pub user_id : ℕ
  pub action : BlockAction
  pub reason : Bytes

pub record Shop : Type 0 where
  pub rentals : List Rental
  pub dids : List DidRow
  pub customers : List Customer
  pub bundles : List Bundle
  pub terms : List Terms
  pub sip_accounts : List (ℕ × Bytes)
  pub ledger : List LedgerEntry
  pub block_log : List BlockEntry
  pub next_order_id : ℕ

-- `ok` with the new tables, or the refusal or failure that leaves them as they were.
pub data Reply : Type 0 where
  ok refused failed : Reply

abbrev pub is_approved : BundleStatus → Bool
is_approved approved = true
is_approved _ = false

-- The statuses that orderCancel ends: the order holds its number.
abbrev pub is_live : OrderStatus → Bool
is_live cancelled = false
is_live _ = true

-- status IN ('active','kyc_pending','quarantined')
abbrev pub is_open : OrderStatus → Bool
is_open cancelled = false
is_open suspended = false
is_open _ = true

abbrev pub is_active : OrderStatus → Bool
is_active active = true
is_active _ = false

abbrev pub has_order_id : ℕ → Rental → Bool
has_order_id oid r = r.order.id == oid

abbrev pub has_did_id : ℕ → DidRow → Bool
has_did_id did_id d = d.did.id == did_id

abbrev pub has_user_id : ℕ → Customer → Bool
has_user_id uid c = c.user.id == uid

abbrev pub has_bundle_id : ℕ → Bundle → Bool
has_bundle_id bid b = b.id == bid

-- UPDATE of the row with a primary key.
module _ {A : Type 0} where
  unfoldable pub update_row : (A → Bool) → (A → A) → List A → List A
  update_row p f [] = []
  update_row p f (x ∷ xs) = if p x then f x ∷ xs else x ∷ update_row p f xs

abbrev pub with_status : OrderStatus → Rental → Rental
with_status s r = record r { order = record r.order { status = s } }

abbrev pub with_did_status : Bytes → DidRow → DidRow
with_did_status s d = record d { did = record d.did { status = s } }

abbrev pub with_balance : ℤ → Customer → Customer
with_balance b c = record c { user = record c.user { balance_cents = b } }

abbrev pub set_did_status : ℕ → Bytes → Shop → Shop
set_did_status did_id s shop = record shop {
  dids = update_row (has_did_id did_id) (with_did_status s) shop.dids;
}

-- The unique index orders_one_active_per_did.
abbrev pub active_on : ℕ → List Rental → Bool
active_on did_id rs = any (λ (r : Rental). is_active r.order.status && r.order.did_id == did_id) rs

unfoldable pub clashes : List Rental → Bool
clashes [] = false
clashes (r ∷ rs) = is_active r.order.status && active_on r.order.did_id rs || clashes rs
