-- ===== src/Sipctl/Records.antt =====
-- What a decision of internal/sipctl/sipctl.go reads and writes: the request, the tables, the rows
-- of cdrs and denied_calls, the response. `Env` is the world that one decision does not change: the
-- clock, the configuration, which statement fails, the tables it only reads, and what package net
-- says of addresses and names. `F` is float64, `S` the channel sets.
use didstorageapp.Prelude.{ℕ, Bool, Option, List}
use didstorageapp.Prelude.Text.{Bytes}
use didstorageapp.Prelude.Int.{ℤ}
use didstorageapp.Livecalls.{RouteKind, Live}
use didstorageapp.Billing.{OrderStatus}
use didstorageapp.Audiogroup.{Member}

pub record Request : Type 0 where
  pub call_id : Bytes
  pub src_ip : Bytes
  pub to_uri : Bytes
  pub from_uri : Bytes
  pub asterisk_channel : Bytes

pub data Reason : Type 0 where
  bad_to_uri bad_src_ip unknown_did lookup_error unauthorized_ip src_ip_not_authorized : Reason
  reservation_misconfigured reserved_did did_not_assigned kyc_pending quarantined : Reason
  user_blocked insufficient_balance insufficient_channels reservation_error : Reason
  user_channel_cap_hit did_channel_cap_hit : Reason

pub record Did : Type 0 where
  pub id : ℕ
  pub e164 : Bytes
  pub supplier_id : ℕ
  pub status : Bytes
  pub reserved_route_kind : Option RouteKind
  pub reserved_route_target : Bytes
  pub reserved_audio_group_id : Option ℕ

pub record Order : Type 0 where
  pub id : ℕ
  pub did_id : ℕ
  pub user_id : ℕ
  pub rate_card_id : ℕ
  pub channel_count : ℕ
  pub route_kind : RouteKind
  pub route_target : Bytes
  pub audio_group_id : Option ℕ
  pub pop_id : Option ℕ
  pub status : OrderStatus

pub record User : Type 0 where
  pub id : ℕ
  pub status : Bytes
  pub balance_cents : ℤ
  -- negative: no cap
  pub global_channel_cap : ℤ

pub record RateCard (F : Type 0) : Type 0 where
  pub id : ℕ
  pub per_minute_cents : F

-- A row that an authorisation inserts: no answer, no billed seconds and no charge.
pub record Shell (F : Type 0) : Type 0 where
  pub call_id : Bytes
  pub order_id : Option ℕ
  pub user_id : Option ℕ
  pub supplier_id : ℕ
  pub did_id : ℕ
  pub routed_kind : Option RouteKind
  pub routed_target : Bytes
  pub started_at : ℕ
  pub rate_cents_per_min : Option F
  pub hangup_cause : Reason
  pub src_uri : Bytes
  pub dst_uri : Bytes

pub record Denied : Type 0 where
  pub call_id : Bytes
  pub src_ip : Bytes
  pub to_uri : Bytes
  pub from_uri : Bytes
  pub reason : Reason

-- What a decision may change. `last` is the audio group's clip that was played last.
pub record World (F S : Type 0) : Type 0 where
  pub cdrs : List (Shell F)
  pub denied_calls : List Denied
  pub live : Live F
  pub sets : S
  pub last : List (ℕ × ℕ)

pub data Statement : Type 0 where
  did_lookup cidr_query hostname_query order_lookup reserve_script audio_query : Statement
  register_call cdr_insert denied_insert : Statement

pub record Env (F : Type 0) : Type 0 where
  pub now : ℕ
  pub ticks : ℕ
  pub min_seconds : ℕ
  pub fails : Statement → Bool
  -- net.ParseIP gives an address; a CIDR range of the supplier has it; a host name resolves to it
  pub valid_ip : Bytes → Bool
  pub in_cidr : ℕ → Bytes → Bool
  pub hostnames : ℕ → List Bytes
  pub resolves : Bytes → Bytes → Bool
  pub dids : List Did
  pub orders : List Order
  pub users : List User
  pub rate_cards : List (RateCard F)
  pub members : ℕ → List Member

pub record Grant (F : Type 0) : Type 0 where
  pub reservation_id : Bytes
  pub max_seconds : ℕ
  pub route_kind : RouteKind
  pub route_target : Bytes
  pub pop_id : ℕ
  pub rate_cents_per_min : Option F

-- A denial carries its Q.850 cause.
pub data Response (F : Type 0) : Type 0 where
  deny_with : Reason → ℕ → Response F
  allow : Grant F → Response F
