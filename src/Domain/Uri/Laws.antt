-- ===== src/Domain/Uri/Laws.antt =====
-- What the normalised route targets and call ids look like.
use didstorageapp.Prelude.{ℕ, ◌∷◌, ◌++◌, ◌≡◌}
use didstorageapp.Prelude.Text.{Bytes, codes, Lacks, before-Lacks, before-append, trim_space}
use didstorageapp.Prelude.Cuts.{
  IsSolid, trim_space_solid, trim_space-All, after_last-Lacks, trim_prefix-All,
}
use didstorageapp.Domain.Uri.{strip_scheme, normalize_route_target, sanitize_call_id}

strip_scheme-Lacks : (b : ℕ) (s : Bytes) → Lacks b s → Lacks b (strip_scheme s)
unfolding strip_scheme
strip_scheme-Lacks b s h = trim_prefix-All _ _ _ (trim_prefix-All _ _ _ h)

-- A target of kind ip or sip_account keeps no user part and no host part: no `@` is left in it.
pub normalize_route_target-Lacks :
    (target : Bytes)
    → Lacks b'@' (normalize_route_target (codes "ip") target)
      × Lacks b'@' (normalize_route_target (codes "sip_account") target)
unfolding normalize_route_target
normalize_route_target-Lacks target = (
  trim_space-All _ _ (strip_scheme-Lacks b'@' _ (after_last-Lacks b'@' (trim_space target))),
  trim_space-All _ _ (before-Lacks b'@' (strip_scheme (trim_space target))),
)

-- A sanitised call id shows nothing of the host: no `@` is left in it, and of `id@host` with no
-- white space and no `@` in `id` exactly `id` is left.
pub sanitize_call_id-Lacks :
    (raw id host : Bytes)
    → IsSolid (id ++ b'@' ∷ host)
    → Lacks b'@' id
    → Lacks b'@' (sanitize_call_id raw) × (sanitize_call_id (id ++ b'@' ∷ host) ≡ id)
unfolding sanitize_call_id
sanitize_call_id-Lacks raw id host solid lacks = (
  before-Lacks b'@' (trim_space raw),
  rw (trim_space_solid (id ++ b'@' ∷ host) solid) (before-append b'@' id host lacks),
)
