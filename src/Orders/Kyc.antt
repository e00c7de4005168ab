-- ===== src/Orders/Kyc.antt =====
-- ApproveBundle and RejectBundle of internal/kyc/kyc.go, with their handlers kycApprove and
-- kycReject of internal/web/kyc_handlers.go.
use didstorageapp.Prelude.{
  ℕ, suc, Bool, true, false, ◌&&◌, ◌||◌, not, none, some, List, [], ◌∷◌, any, map, ◌==◌,
  if◌then◌else◌,
}
use didstorageapp.Prelude.Text.{Bytes, is_empty}
use didstorageapp.Billing.{OrderStatus, active, kyc_pending}
use didstorageapp.Orders.Tables.{
  Rental, BundleStatus, approved, rejected, Bundle, Shop, Reply, ok, refused, failed, is_approved,
  has_bundle_id, update_row, with_status, clashes,
}

abbrev pub is_rejected : BundleStatus → Bool
is_rejected rejected = true
is_rejected _ = false

abbrev pub is_kyc_pending : OrderStatus → Bool
is_kyc_pending kyc_pending = true
is_kyc_pending _ = false

abbrev pub with_bundle_status : BundleStatus → Bundle → Bundle
with_bundle_status s b = record b { status = s }

-- `WHERE id=$2 AND status IN ('pending','rejected')`
abbrev pub is_approvable : ℕ → Bundle → Bool
is_approvable bid b = has_bundle_id bid b && not (is_approved b.status)

abbrev pub waits_for : ℕ → Rental → Bool
waits_for bid r =
    is_kyc_pending r.order.status && elim r.kyc_bundle_id [ none ↦ false | some b ↦ b == bid ]

abbrev pub activate : ℕ → Rental → Rental
activate bid r = if waits_for bid r then with_status active r else r

unfoldable pub count_waiting : ℕ → List Rental → ℕ
count_waiting bid [] = 0
count_waiting bid (r ∷ rs) = let n = count_waiting bid rs in if waits_for bid r then suc n else n

-- The number of orders that the approval activates.
unfoldable pub approve_bundle : Bool → ℕ → Shop → Reply × ℕ × Shop
unfolding count_waiting
approve_bundle broken bid shop =
    let rentals = map (activate bid) shop.rentals in
    if not (any (is_approvable bid) shop.bundles)
    then (refused, 0, shop)
    else if broken || clashes rentals
    then (failed, 0, shop)
    else (
      ok,
      count_waiting bid shop.rentals,
      record shop {
        bundles = update_row (is_approvable bid) (with_bundle_status approved) shop.bundles;
        rentals = rentals;
      },
    )

-- Orders that wait for the bundle go on waiting.
unfoldable pub reject_bundle : Bool → ℕ → Bytes → Shop → Reply × Shop
reject_bundle broken bid reason shop =
    if is_empty reason then (refused, shop) else if broken then (failed, shop) else (
      ok,
      record shop {
        bundles =
            update_row (λ (b : Bundle). has_bundle_id bid b && not (is_rejected b.status))
              (with_bundle_status rejected) shop.bundles;
      },
    )
