-- ===== src/Livecalls/Sweep.antt =====
-- runReconcileOnce of internal/livecalls/reconciler.go. `chans` are the channel names that Asterisk
-- reports, `none` if it cannot be reached. The CDR stamps are those of the rows it fills.
use didstorageapp.Prelude.{
  ℕ, ◌+◌, ◌*◌, ◌-◌, ltb, ◌≡◌, Bool, true, false, ◌&&◌, ◌||◌, not, Option, none, some, List, [], ◌∷◌,
  any, leb, keep, map, refl, arith, if◌then◌else◌,
}
use didstorageapp.Prelude.Text.{Bytes, same, is_empty, same_comm, same_swap}
use didstorageapp.Livecalls.{ActiveCall, Live, list, deregister, unindex, in_index, current, fetch}

-- The columns of a cdrs row that the sweep reads and fills.
pub record Cdr : Type 0 where
  pub call_id : Bytes
  pub started_at : ℕ
  pub ended_at : Option ℕ
  pub billsec : ℕ

abbrev pub has_channel : List Bytes → Bytes → Bool
has_channel chans c = any (same c) chans

-- The rows that get an end: those of evicted calls that have none.
abbrev pub stamp : ℕ → List Bytes → Cdr → Cdr
stamp now ids c = elim c.ended_at [
  | some t ↦ c
  | none ↦
      if any (same c.call_id) ids
      then record c { ended_at = some now; billsec = now - c.started_at }
      else c
]

module _ {R : Type 0} where
  -- Old enough, and with no channel of its own alive.
  abbrev pub is_ghost : ℕ → ℕ → List Bytes → ActiveCall R → Bool
  is_ghost now settle chans c =
      leb (c.started_at + settle) now
      && (is_empty c.asterisk_channel || not (has_channel chans c.asterisk_channel))

  unfoldable pub evict_all : List Bytes → Live R → Live R
  evict_all [] live = live
  evict_all (id ∷ ids) live = evict_all ids (deregister id live)

  -- The evicted call ids, the index and the rows that the sweep leaves.
  unfoldable pub reconcile_once :
      (List (Bytes × ℕ) → List Bytes)
      → ℕ
      → ℕ
      → Option (List Bytes)
      → Live R
      → List Cdr
      → List Bytes × Live R × List Cdr
  unfolding evict_all
  reconcile_once range now settle none live cdrs = ([], live, cdrs)
  reconcile_once range now settle (some chans) live cdrs =
      let (calls, live') = list range now live in
      let evicted =
        map (λ (c : ActiveCall R). c.call_id) (keep (is_ghost now settle chans) calls) in
      (evicted, evict_all evicted live', map (stamp now evicted) cdrs)

in_index-unindex :
    (c d : Bytes) (ix : List (Bytes × ℕ))
    → in_index c (unindex d ix) ≡ (in_index c ix && not (same c d))
in_index-unindex c d [] = refl
in_index-unindex c d ((k, t) ∷ ix) =
    ground (
      arith,
      in_index-unindex c d ix,
      same_swap c d k,
      same_swap c k d,
      same_comm c d,
      same_comm d k,
    )

module _ {R : Type 0} where
  pub in_index-deregister :
      (c d : Bytes) (live : Live R)
      → is_empty c ≡ false
      → in_index c (deregister d live).index ≡ (in_index c live.index && not (same c d))
  unfolding deregister
  in_index-deregister [] d live h = absurd (cc)
  in_index-deregister (x ∷ c) [] live h = ground arith
  in_index-deregister (x ∷ c) (y ∷ d) live h = in_index-unindex (x ∷ c) (y ∷ d) live.index

  abbrev pub is_missing : Option (ActiveCall R) → Bool
  is_missing none = true
  is_missing (some c) = false

  -- A member that List drops: scanned, and without a readable and recent record.
  abbrev pub is_stale : ℕ → Live R → Bytes → Bool
  is_stale now live id = is_missing (current now live id)

  -- The record of a call that Redis still has, and that began in the last two hours.
  abbrev pub has_record : ℕ → Live R → Bytes → Bool
  has_record now live id = elim (fetch now id live.meta) [
    | none ↦ false
    | some c ↦ leb now (c.started_at + 2 * 60 * 60)
  ]

  -- Of the calls that are listed, one of this identifier began `settle` seconds ago or earlier, and
  -- has no channel name or one that Asterisk does not report.
  abbrev pub is_abandoned : ℕ → ℕ → List Bytes → Bytes → List (ActiveCall R) → Bool
  is_abandoned now settle chans id [] = false
  is_abandoned now settle chans id (c ∷ calls) =
      let is_alive =
        not (is_empty c.asterisk_channel) && any (λ ch. same c.asterisk_channel ch) chans in
      (same id c.call_id && not (ltb now (c.started_at + settle)) && not is_alive)
      || is_abandoned now settle chans id calls
