-- ===== src/Sipctl/Settled.antt =====
-- What the end of a call leaves behind.
use mathlib.Core.Option
use didstorageapp.Prelude.{
  ℕ, suc, ◌+◌, ◌≡◌, Bool, true, false, Option, none, some, List, [], ◌∷◌, map, ◌==◌, ==_iff,
  if◌then◌else◌, refl, arith, Bool-cases, inl, inr, ap, ◌∙◌,
}
use didstorageapp.Prelude.Text.{Bytes, same_refl, is_empty}
use didstorageapp.Prelude.Int.{ℤ, pos, negsuc, ltb_ℤ, ◌-ℤ◌}
use didstorageapp.Domain.Uri.{sanitize_call_id}
use didstorageapp.Domain.Charge.{Float, charge_for_call}
use didstorageapp.Livecalls.{in_index}
use didstorageapp.Livecalls.Sweep.{in_index-deregister}
use didstorageapp.Sipctl.Channels.{SetStore, Key, release, release_pages, release_keys}
use didstorageapp.Sipctl.Channels.Laws.{has-release}
use didstorageapp.Sipctl.Cdr.{
  CdrRequest, Account, Rental, Step, Answer, charged_ok, no_match, Books, post_call, rental_for,
  cdr, settle, close, release_until, find_rental, begin_tx, insert_row, debit, post, commit_tx,
  deregister_call, release_page, debited,
}

-- The balance of a user.
abbrev pub balance_of_user : ℕ → List Account → Option ℤ
balance_of_user uid [] = none
balance_of_user uid (a ∷ accounts) =
    if a.id == uid then some a.balance_cents else balance_of_user uid accounts

-- Debiting moves one balance.
balance_of_user-debited :
    (uid payer n : ℕ) (accounts : List Account)
    → balance_of_user uid (map (debited payer (pos (suc n))) accounts) ≡ (
        if payer == uid
        then Option.map (λ b. b -ℤ pos (suc n)) (balance_of_user uid accounts)
        else balance_of_user uid accounts)
balance_of_user-debited uid payer n [] = elim (Bool-cases (payer == uid)) [
  | inl u ↦ rw u refl
  | inr u ↦ rw u refl
]
balance_of_user-debited uid payer n (a ∷ accounts) =
    let ih = balance_of_user-debited uid payer n accounts in
    elim (Bool-cases (a.id == payer)) [
      | inl e ↦
          let eq : a.id ≡ payer = (==_iff a.id payer).0 e in
          elim (Bool-cases (payer == uid)) [
            | inl u ↦ let hit : (a.id == uid) ≡ true = rw eq u in rw (e, u, hit) refl
            | inr u ↦ let miss : (a.id == uid) ≡ false = rw eq u in rw (e, u, miss) (ih ∙ rw u refl)
          ]
      | inr e ↦ elim (Bool-cases (a.id == uid)) [
        | inl hit ↦
            let other : (payer == uid) ≡ false =
              ground (arith, e, hit, ==_iff a.id uid, ==_iff payer uid, ==_iff a.id payer) in
            rw (e, hit, other) refl
        | inr miss ↦ rw (e, miss) ih
      ]
    ]

negated : (n : ℕ) → pos 0 -ℤ pos (suc n) ≡ negsuc n
unfolding ◌-ℤ◌
negated n = ground arith

module _ (fl : Float) (st : SetStore) where
  open fl use {F}
  open st use {Store, has, pages}

  release_until-release_pages :
      (fails : Step → Bool) (n : ℕ) (call : Bytes) (ps : List (List Key)) (s : Store)
      → ((k : ℕ) → fails (release_page k) ≡ false)
      → release_until fl st fails n call ps s ≡ release_pages st call ps s
  unfolding release_until release_pages
  release_until-release_pages fails n call [] s h = refl
  release_until-release_pages fails n call (ks ∷ ps) s h =
      rw (h n) (release_until-release_pages fails (n + 1) call ps (release_keys st call ks s) h)

  close-Closed :
      (fails : Step → Bool) (req : CdrRequest) (a : Answer × Books F Store) (k : Key)
      → is_empty (sanitize_call_id req.call_id) ≡ false
      → fails deregister_call ≡ false
      → ((n : ℕ) → fails (release_page n) ≡ false)
      → (has (close fl st fails req a).1.sets k req.call_id ≡ false)
        × (in_index (sanitize_call_id req.call_id) (close fl st fails req a).1.live.index ≡ false)
  unfolding release
  close-Closed fails req (answer, b) k h gone released =
      let all_pages =
        release_until-release_pages fails 0 req.call_id (pages b.sets) b.sets released in
      (
        ap (λ s. has s k req.call_id) all_pages
            ∙ has-release st req.call_id b.sets k req.call_id
            ∙ rw (same_refl req.call_id) refl,
        rw gone (
            in_index-deregister (sanitize_call_id req.call_id) (sanitize_call_id req.call_id) b.live
              h
            ∙ rw (same_refl (sanitize_call_id req.call_id)) (ground arith)),
      )

  -- Whichever statements of the database fail and whatever the answer, after the report of its end
  -- a call with an identifier holds no channel in any set and is not in the index of live calls,
  -- provided that the Redis commands of the release and of the deregistration succeed.
  pub cdr-Closed :
      (fails : Step → Bool) (now : ℕ) (rentals : List (Rental F)) (req : CdrRequest)
      (b : Books F Store) (k : Key)
      → is_empty (sanitize_call_id req.call_id) ≡ false
      → fails deregister_call ≡ false
      → ((n : ℕ) → fails (release_page n) ≡ false)
      → (has (cdr fl st fails now rentals req b).1.sets k req.call_id ≡ false)
        × (in_index (sanitize_call_id req.call_id) (cdr fl st fails now rentals req b).1.live.index
            ≡ false)
  unfolding cdr
  cdr-Closed fails now rentals req b k h gone released = elim (Bool-cases (fails find_rental)) [
    | inl e ↦ rw e (close-Closed fails req (no_match, b) k h gone released)
    | inr e ↦ rw e (
        close-Closed fails req (settle fl fails now req (rental_for rentals req b.tables.rows) b) k
          h gone released)
  ]

  -- Each report that finds a rental and a positive charge at the rate, minimum and increment of its
  -- rate card, and whose statements all succeed, takes the charge off the balance of the renting
  -- customer and off no other, and adds one ledger row of that amount, whether or not the call has a
  -- row, and so a charge, already.
  pub cdr-charges :
      (fails : Step → Bool) (now : ℕ) (rentals : List (Rental F)) (req : CdrRequest)
      (b : Books F Store) (r : Rental F) (n uid : ℕ)
      → ((s : Step) → fails s ≡ false)
      → rental_for rentals req b.tables.rows ≡ some r
      → (charge_for_call fl req.billsec r.bill_min r.bill_inc r.per_minute).2 ≡ pos (suc n)
      → let after = (cdr fl st fails now rentals req b).1.tables in
        ((cdr fl st fails now rentals req b).0 ≡ charged_ok (pos (suc n)))
        × (after.ledger
            ≡ record {
              user_id = r.user_id;
              delta_cents = negsuc n;
              call_id = sanitize_call_id req.call_id;
            }
              ∷ b.tables.ledger)
        × (balance_of_user uid after.accounts ≡ (
            if r.user_id == uid
            then Option.map (λ c. c -ℤ pos (suc n)) (balance_of_user uid b.tables.accounts)
            else balance_of_user uid b.tables.accounts))
  unfolding cdr post_call
  cdr-charges fails now rentals req b r n uid ok found cost =
      let due : ltb_ℤ (pos 0) (pos (suc n)) ≡ true = ground arith in
      rw
        (
          ok find_rental,
          found,
          ok begin_tx,
          ok insert_row,
          cost,
          due,
          ok debit,
          ok post,
          ok commit_tx,
          negated n,
        )
        (refl, refl, balance_of_user-debited uid r.user_id n b.tables.accounts)
