-- ===== src/Uploads/Examples.antt =====
-- Names as browsers send them.
use didstorageapp.Prelude.{
  ℕ, ◌≤◌, ◌≡◌, ◌⊎◌, Bool, false, ◌&&◌, none, some, [], ◌∷◌, leb, length, refl,
}
use didstorageapp.Prelude.Text.{codes, is_empty, cut_last}
use didstorageapp.Prelude.Cuts.{after_last}
use didstorageapp.Uploads.Trimming.{IsAll}
use didstorageapp.Uploads.{
  is_safe, trim_lead, trim_tail, base, capped, sanitize_filename, is_safe_basename,
}
use didstorageapp.Uploads.Names.{is_kept, is_ascii, sanitize_filename_lem}

-- No digits but those of ASCII.
abbrev no_digits : ℕ → Bool
no_digits r = false

-- The digits of the Arabic script.
abbrev arabic : ℕ → Bool
arabic r = leb 1632 r && leb r 1641

climbs : sanitize_filename arabic (codes "../../etc/pass wd.pdf") ≡ some (codes "pass_wd.pdf")
unfolding sanitize_filename base after_last cut_last trim_tail trim_lead capped
climbs = refl

dots : sanitize_filename no_digits (codes "..") ≡ none
unfolding sanitize_filename base after_last cut_last trim_tail trim_lead capped
dots = refl

-- A digit of another script stays, and a letter of one does not.
arabic_digit :
    sanitize_filename arabic (b'a' ∷ 1633 ∷ 1576 ∷ []) ≡ some (b'a' ∷ 217 ∷ 161 ∷ b'_' ∷ [])
unfolding sanitize_filename base after_last cut_last trim_tail trim_lead capped
arabic_digit = refl

no_climbing : is_safe_basename (codes "../x") ≡ false
no_climbing = refl

sanitize_filename_lem_example :
    IsAll is_kept (codes "pass_wd.pdf")
    × (is_empty (codes "pass_wd.pdf") ≡ false)
    × (length (codes "pass_wd.pdf") ≤ 80)
    × (trim_lead b'.' (codes "pass_wd.pdf") ≡ codes "pass_wd.pdf")
    × (trim_tail b'.' (codes "pass_wd.pdf") ≡ codes "pass_wd.pdf")
    × ((is_ascii (codes "../../etc/pass wd.pdf") ≡ false)
        ⊎ (IsAll is_safe (codes "pass_wd.pdf")
            × (sanitize_filename arabic (codes "pass_wd.pdf") ≡ some (codes "pass_wd.pdf"))))
sanitize_filename_lem_example =
    sanitize_filename_lem arabic (codes "../../etc/pass wd.pdf") (codes "pass_wd.pdf") climbs
