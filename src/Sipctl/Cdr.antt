-- ===== src/Sipctl/Cdr.antt =====
-- cdr of internal/sipctl/sipctl.go, the request at the end of a call, with the charge and its
-- ledger row. `fails` says which statement fails; a failure rolls the transaction back, but what is
-- done before and after the transaction stays done. `rentals` is the join of orders, numbers and
-- rate cards; a rental is found by the order of the call's row or as the first active one of the
-- number.
use didstorageapp.Prelude.{
  ℕ, ◌+◌, Bool, false, ◌&&◌, ◌||◌, Option, none, some, List, [], ◌∷◌, find, any, map, leb, ◌==◌,
  if◌then◌else◌,
}
use didstorageapp.Prelude.Text.{Bytes, same}
use didstorageapp.Prelude.Int.{ℤ, pos, ◌-ℤ◌, ltb_ℤ, leb_ℤ}
use didstorageapp.Domain.Uri.{sanitize_call_id}
use didstorageapp.Domain.Charge.{Float, charge_for_call, supplier_charge_for_call}
use didstorageapp.Livecalls.{Live, deregister}
use didstorageapp.Livecalls.Pending.{PendingAction, Waiting, pop_pending_action}
use didstorageapp.Sipctl.Number.{parse_e164}
use didstorageapp.Sipctl.Channels.{SetStore, Key, release_keys}

pub record CdrRequest : Type 0 where
  pub call_id : Bytes
  pub started_at : ℕ
  pub answered_at : ℕ
  pub ended_at : ℕ
  pub billsec : ℤ
  pub hangup_cause : Bytes
  pub src_uri : Bytes
  pub dst_uri : Bytes

pub record Rental (F : Type 0) : Type 0 where
  pub order_id : ℕ
  pub user_id : ℕ
  pub supplier_id : ℕ
  pub did_id : ℕ
  pub e164 : Bytes
  pub is_active : Bool
  pub per_minute : F
  pub bill_min : ℤ
  pub bill_inc : ℤ
  pub supplier_per_minute : F
  pub supplier_bill_min : ℤ
  pub supplier_bill_inc : ℤ

pub record CallRow : Type 0 where
  pub call_id : Bytes
  pub order_id : Option ℕ
  pub started_at : ℕ
  pub answered_at : ℕ
  pub ended_at : ℕ
  pub billsec : ℤ
  pub charged_minutes : ℤ
  pub charge_cents : ℤ
  pub supplier_charge_cents : ℤ
  pub hangup_cause : Bytes
  pub admin_action : Option PendingAction

pub record Account : Type 0 where
  pub id : ℕ
  pub balance_cents : ℤ

pub record Posting : Type 0 where
  pub user_id : ℕ
  pub delta_cents : ℤ
  pub call_id : Bytes

pub data Step : Type 0 where
  find_rental begin_tx insert_row debit post commit_tx deregister_call : Step
  release_page : ℕ → Step

pub data Answer : Type 0 where
  charged_ok : ℤ → Answer
  no_match internal_error : Answer

-- The tables that the transaction writes.
pub record Tables : Type 0 where
  pub rows : List CallRow
  pub accounts : List Account
  pub ledger : List Posting

pub record Books (F S : Type 0) : Type 0 where
  pub tables : Tables
  pub waiting : Waiting
  pub live : Live F
  pub sets : S

-- `(SELECT order_id FROM cdrs WHERE call_id = $1)`
abbrev pub order_of_call : Bytes → List CallRow → Option ℕ
order_of_call id [] = none
order_of_call id (r ∷ rows) = if same r.call_id id then r.order_id else order_of_call id rows

abbrev pub is_order : Option ℕ → ℕ → Bool
is_order none k = false
is_order (some j) k = j == k

-- COALESCE of the admin action
abbrev pub or_kept : Option PendingAction → Option PendingAction → Option PendingAction
or_kept none kept = kept
or_kept (some a) kept = some a

-- INSERT .. ON CONFLICT (call_id) DO UPDATE SET admin_action
abbrev pub upsert : CallRow → List CallRow → List CallRow
upsert row rows =
    if any (λ (r : CallRow). same r.call_id row.call_id) rows
    then map
        (λ (r : CallRow).
          if same r.call_id row.call_id
          then record r { admin_action = or_kept row.admin_action r.admin_action }
          else r)
        rows
    else row ∷ rows

abbrev pub debited : ℕ → ℤ → Account → Account
debited uid cents a =
    if a.id == uid then record a { balance_cents = a.balance_cents -ℤ cents } else a

module _ {F : Type 0} where
  abbrev pub active_for : Bytes → List (Rental F) → Option ℕ
  active_for number rentals =
      elim (find (λ (r : Rental F). r.is_active && same r.e164 number) rentals) [
        | none ↦ none
        | some r ↦ some r.order_id
      ]

  abbrev pub rental_for : List (Rental F) → CdrRequest → List CallRow → Option (Rental F)
  rental_for rentals req rows =
      let own = order_of_call (sanitize_call_id req.call_id) rows in
      let by_number = active_for (parse_e164 req.dst_uri) rentals in
      find (λ (r : Rental F). is_order own r.order_id || is_order by_number r.order_id) rentals

module _ (fl : Float) where
  open fl use {F}

  abbrev pub charge_of : CdrRequest → Rental F → ℤ
  charge_of req r = (charge_for_call fl req.billsec r.bill_min r.bill_inc r.per_minute).2

  abbrev pub row_for : CdrRequest → Rental F → Option PendingAction → CallRow
  row_for req r action = record {
    call_id = sanitize_call_id req.call_id;
    order_id = some r.order_id;
    started_at = req.started_at;
    answered_at = req.answered_at;
    ended_at = req.ended_at;
    billsec = req.billsec;
    charged_minutes = (charge_for_call fl req.billsec r.bill_min r.bill_inc r.per_minute).1;
    charge_cents = charge_of req r;
    supplier_charge_cents =
        supplier_charge_for_call fl req.billsec r.supplier_bill_min r.supplier_bill_inc
          r.supplier_per_minute;
    hangup_cause = req.hangup_cause;
    admin_action = action;
  }

  -- UPDATE users, INSERT INTO balance_ledger
  abbrev pub pay : ℕ → ℤ → Bytes → Tables → Tables
  pay uid cents id t = record t {
    accounts = map (debited uid cents) t.accounts;
    ledger = record { user_id = uid; delta_cents = pos 0 -ℤ cents; call_id = id } ∷ t.ledger;
  }

  -- The transaction: the row, and for a positive charge the debit and its ledger row.
  unfoldable pub post_call :
      (Step → Bool) → CdrRequest → Rental F → Option PendingAction → Tables → Answer × Tables
  post_call fails req r action t =
      let cents = charge_of req r in
      let recorded : Tables = record t { rows = upsert (row_for req r action) t.rows } in
      if fails begin_tx || fails insert_row
      then (internal_error, t)
      else if ltb_ℤ (pos 0) cents && (fails debit || fails post)
      then (internal_error, t)
      else if fails commit_tx
      then (internal_error, t)
      else (
        charged_ok cents,
        if ltb_ℤ (pos 0) cents
            then pay r.user_id cents (sanitize_call_id req.call_id) recorded
            else recorded,
      )

  -- fillUnbilledCDR: the row that the authorisation wrote gets its timing.
  abbrev pub or_text : Bytes → Bytes → Bytes
  or_text [] kept = kept
  or_text (c ∷ s) kept = c ∷ s

  abbrev pub is_blank : CdrRequest → Bool
  is_blank req = leb_ℤ req.billsec (pos 0) && req.answered_at == 0 && req.ended_at == 0

  abbrev pub filled : CdrRequest → Option PendingAction → CallRow → CallRow
  filled req action row =
      if same row.call_id (sanitize_call_id req.call_id)
      then record row {
        started_at = if leb req.started_at row.started_at then req.started_at else row.started_at;
        answered_at = req.answered_at;
        ended_at = req.ended_at;
        billsec = req.billsec;
        hangup_cause = or_text req.hangup_cause row.hangup_cause;
        admin_action = or_kept action row.admin_action;
      }
      else row

  unfoldable pub fill_unbilled : {S : Type 0} → ℕ → CdrRequest → Books F S → Books F S
  fill_unbilled now req b =
      let (action, left) = pop_pending_action now (sanitize_call_id req.call_id) b.waiting in
      if is_blank req then b else record b {
        tables = record b.tables { rows = map (filled req action) b.tables.rows };
        waiting = left;
      }

  abbrev pub charge_call :
      {S : Type 0} → (Step → Bool) → ℕ → CdrRequest → Rental F → Books F S → Answer × Books F S
  charge_call fails now req r b =
      let (action, left) = pop_pending_action now (sanitize_call_id req.call_id) b.waiting in
      let (answer, t) = post_call fails req r action b.tables in
      (answer, record b { tables = t; waiting = left })

  abbrev pub settle :
      {S : Type 0}
      → (Step → Bool)
      → ℕ
      → CdrRequest
      → Option (Rental F)
      → Books F S
      → Answer × Books F S
  settle fails now req none b = (charged_ok (pos 0), fill_unbilled now req b)
  settle fails now req (some r) b = charge_call fails now req r b

module _ (fl : Float) (st : SetStore) where
  open fl use {F}
  open st use {Store, pages}

  -- releaseChannelByCallID, which ends at the first page whose SCAN or pipeline fails. A pipeline that
  -- fails has removed nothing.
  unfoldable pub release_until : (Step → Bool) → ℕ → Bytes → List (List Key) → Store → Store
  release_until fails n call [] s = s
  release_until fails n call (ks ∷ rest) s =
      let more = release_until fails (n + 1) call rest (release_keys st call ks s) in
      if fails (release_page n) then s else more

  -- What the handler defers: the channel is released and the call is no longer live. An error of
  -- either is logged, and the other is tried all the same.
  abbrev pub close : (Step → Bool) → CdrRequest → Answer × Books F Store → Answer × Books F Store
  close fails req (answer, b) = (
    answer,
    record b {
      sets = release_until fails 0 req.call_id (pages b.sets) b.sets;
      live =
          if fails deregister_call
          then b.live
          else deregister (sanitize_call_id req.call_id) b.live;
    },
  )

  unfoldable pub cdr :
      (Step → Bool) → ℕ → List (Rental F) → CdrRequest → Books F Store → Answer × Books F Store
  cdr fails now rentals req b =
      if fails find_rental
      then close fails req (no_match, b)
      else close fails req (settle fl fails now req (rental_for rentals req b.tables.rows) b)
