-- ===== src/Siptrace/Shared.antt =====
-- The cache of traces, and what a caller that changes a trace changes with it.
pub mod Again
use didstorageapp.Prelude.{
  ℕ, zero, suc, ◌+◌, ◌-◌, ◌*◌, ◌≤◌, ◌≡◌, Bool, true, false, ◌&&◌, ◌||◌, not, Option, none, some,
  List, [], ◌∷◌, ◌++◌, find, keep, length, get_elem?, ◌==◌, leb, ltb, if◌then◌else◌, refl, arith,
  Bool-cases, inl, inr, ap, ◌∙◌, sym, subst,
}
use didstorageapp.Prelude.Text.{Bytes, is_empty, same, same_refl}
use didstorageapp.Domain.Uri.{sanitize_call_id}
use didstorageapp.Snapshots.{find_key, put}
use didstorageapp.Snapshots.Keyed.{find_key-put}
use didstorageapp.Siptrace.{Message, Trace, plain_trace, derive}

pub record CacheEntry : Type 0 where
  pub trace : ℕ
  pub at : ℕ
  pub ttl : ℕ

-- The traces that there are, by their addresses, and the cache.
pub record Traces : Type 0 where
  pub heap : List Trace
  pub cache : List (Bytes × CacheEntry)

abbrev pub cache_ttl : ℕ
cache_ttl = 24 * 60 * 60

abbrev pub empty_cache_ttl : ℕ
empty_cache_ttl = 5 * 60

abbrev pub prefix_of : Bytes × CacheEntry → Bytes
prefix_of e = e.0

-- The address that the cache has, unless it is too old.
abbrev pub fresh : ℕ → Option (Bytes × CacheEntry) → Option ℕ
fresh now none = none
fresh now (some (prefix, e)) =
    let ttl = if e.ttl == 0 then cache_ttl else e.ttl in
    if ltb ttl (now - e.at) then none else some e.trace

abbrev pub clone_trace : Trace → Trace
clone_trace t = plain_trace t.call_id t.messages t.raw t.pcap_files

-- A new trace, and its address.
abbrev pub alloc : Trace → Traces → ℕ × Traces
alloc t st = (length st.heap, record st { heap = st.heap ++ t ∷ [] })

abbrev pub hand_out : Option Trace → Traces → Option ℕ × Traces
hand_out none st = (none, st)
hand_out (some t) st = (some (alloc (clone_trace t) st).0, (alloc (clone_trace t) st).1)

abbrev pub cache_hit : Option ℕ → Traces → Option ℕ × Traces
cache_hit none st = (none, st)
cache_hit (some a) st = hand_out (get_elem? st.heap a) st

unfoldable pub cache_get : Bytes → ℕ → Traces → Option ℕ × Traces
cache_get prefix now st = cache_hit (fresh now (find_key prefix_of prefix st.cache)) st

abbrev pub ttl_for : List Message → ℕ
ttl_for [] = empty_cache_ttl
ttl_for (m ∷ ms) = cache_ttl

-- Beyond 256 entries those older than a day are dropped.
abbrev pub purged : ℕ → List (Bytes × CacheEntry) → List (Bytes × CacheEntry)
purged now cache =
    if ltb 256 (length cache) then keep (λ e. not (ltb (e.1.at + cache_ttl) now)) cache else cache

abbrev pub new_entry : ℕ → Trace → ℕ → CacheEntry
new_entry a t now = record { trace = a; at = now; ttl = ttl_for t.messages }

unfoldable pub cache_put : Bytes → ℕ → Trace → ℕ → Traces → Traces
cache_put prefix a t now st = record st {
  cache = purged now (put prefix_of (prefix, new_entry a t now) st.cache);
}

abbrev pub insert_message : Message → List Message → List Message
insert_message m [] = m ∷ []
insert_message m (n ∷ ns) =
    if leb m.unix_time n.unix_time then m ∷ n ∷ ns else n ∷ insert_message m ns

-- sort.Slice by the time; which of two messages of one time comes first is open there.
unfoldable pub sort_messages : List Message → List Message
sort_messages [] = []
sort_messages (m ∷ ms) = insert_message m (sort_messages ms)

abbrev pub all_messages : List (List Message × Bytes) → List Message
all_messages [] = []
all_messages ((ms, raw) ∷ found) = ms ++ all_messages found

abbrev pub all_raw : List (List Message × Bytes) → Bytes
all_raw [] = []
all_raw ((ms, raw) ∷ found) = raw ++ all_raw found

-- The trace of the files that have the call.
abbrev pub traced : Bytes → List Bytes → List (List Message × Bytes) → Trace
traced prefix files [] = plain_trace prefix [] [] files
traced prefix files (r ∷ found) =
    derive
      (plain_trace prefix (sort_messages (all_messages (r ∷ found))) (all_raw (r ∷ found)) files)

abbrev pub look_further :
    Bytes → ℕ → List Bytes → List (List Message × Bytes) → Option ℕ × Traces → ℕ × Traces
look_further prefix now files found (some a, st) = (a, st)
look_further prefix now files found (none, st) =
    let t = traced prefix files found in
    (length st.heap, cache_put prefix (length st.heap) t now (alloc t st).1)

-- The address of the trace, after the lookup.
unfoldable pub lookup_window :
    ℕ → Bytes → List Bytes → List (List Message × Bytes) → Traces → ℕ × Traces
unfolding cache_get cache_put
lookup_window now call_id files found st =
    let prefix = sanitize_call_id call_id in
    if is_empty prefix
    then alloc (plain_trace prefix [] [] files) st
    else look_further prefix now files found (cache_get prefix now st)

abbrev pub change_at : ℕ → (Trace → Trace) → List Trace → List Trace
change_at a f [] = []
change_at zero f (t ∷ ts) = f t ∷ ts
change_at (suc a) f (t ∷ ts) = t ∷ change_at a f ts

-- A caller changes the trace that it has, in place.
unfoldable pub change : ℕ → (Trace → Trace) → Traces → Traces
change a f st = record st { heap = change_at a f st.heap }
