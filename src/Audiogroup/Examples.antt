-- ===== src/Audiogroup/Examples.antt =====
-- A concrete pick.
use didstorageapp.Prelude.{ℕ, ◌≡◌, ◌==◌, [], ◌∷◌, any, true, false, some, refl, arith}
use didstorageapp.Prelude.Text.{codes}
use didstorageapp.Audiogroup.{Member, pick_member, pick_member-Fresh}

abbrev clip : ℕ → Member
clip n = record { id = n; filename = codes "a" }

pick_member-Fresh_example :
    (m : Member) × (pick_member 5 1 (clip 1 ∷ clip 2 ∷ clip 3 ∷ []) ≡ some (m, m.id))
    × (any (λ (n : Member). n.id == m.id) (clip 1 ∷ clip 2 ∷ clip 3 ∷ []) ≡ true)
    × ((m.id == 1) ≡ false)
pick_member-Fresh_example = pick_member-Fresh 5 1 (clip 1) (clip 2) (clip 3 ∷ []) refl (omega arith)
