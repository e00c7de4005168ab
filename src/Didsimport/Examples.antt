-- ===== src/Didsimport/Examples.antt =====
-- A concrete import.
use didstorageapp.Prelude.{◌+◌, ◌≡◌, false, some, List, [], ◌∷◌, length, refl}
use didstorageapp.Prelude.Text.{Bytes, codes, trim_prefix}
use didstorageapp.Prelude.Int.{pos}
use didstorageapp.Didsimport.Prefixes.{match_country, match_in, match_order, raw_prefixes}
use didstorageapp.Didsimport.Prefixes.Laws.{Best, match_in-Best}
use didstorageapp.Didsimport.Worker.{Entry, Job, pending, run}
use didstorageapp.Didsimport.Worker.Laws.{run-Balanced}

-- A number of Monaco, with a plus.
match_monaco : match_country (codes "+37799") ≡ some (codes "MC")
unfolding match_country match_in match_order raw_prefixes trim_prefix
match_monaco = refl

match_in-Best_example :
    Best raw_prefixes (codes "37799") (match_in (match_order raw_prefixes) (codes "37799"))
match_in-Best_example = match_in-Best raw_prefixes (codes "37799")

abbrev entry : Bytes → Entry
entry number = record {
  e164 = number;
  country = [];
  did_type = [];
  supplier_id = 0;
  channel_cap = pos 0;
}

abbrev job : Job
job = record {
  supplier_id = 4;
  defaults = record { country = []; did_type = codes "mobile"; channel_cap = pos 0 };
  status = pending;
  total = 0;
  added = 0;
  skipped = 0;
  errors = 0;
  processed = 0;
  events = [];
}

abbrev entries : List Entry
entries = entry (codes "442038968001") ∷ entry (codes "442038968001") ∷ entry (codes "099") ∷ []

run-Balanced_example :
    let r = run (λ i. false) (λ d x. false) entries (codes "w" ∷ []) (job, []) in
    (r.0.added + r.0.skipped + r.0.errors ≡ r.0.processed + 1) × (length r.1 ≡ 0 + r.0.added)
run-Balanced_example =
    run-Balanced (λ i. false) (λ d x. false) entries (codes "w" ∷ []) job [] refl refl refl refl
