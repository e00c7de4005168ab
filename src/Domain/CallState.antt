-- ===== src/Domain/CallState.antt =====
-- CallState of internal/domain/domain.go: a one-word outcome for a call record.
use didstorageapp.Prelude.{Bool, ◌&&◌, ◌||◌, if◌then◌else◌}
use didstorageapp.Prelude.Text.{Bytes, codes, same}
use didstorageapp.Prelude.Int.{ℤ, pos, ltb_ℤ}

pub data Outcome : Type 0 where
  answered busy no_answer rejected no_route failed : Outcome

-- The causes of a normal clearing.
abbrev pub is_normal : Bytes → Bool
is_normal c =
    same c (codes "16")
    || same c (codes "")
    || same c (codes "normal")
    || same c (codes "normal-recovered")

unfoldable pub call_state : ℤ → Bytes → Outcome
call_state billsec cause =
    if ltb_ℤ (pos 0) billsec && is_normal cause
    then answered
    else if same cause (codes "17")
    then busy
    else if same cause (codes "18") || same cause (codes "19")
    then no_answer
    else if same cause (codes "21")
    then rejected
    else if same cause (codes "3") || same cause (codes "28") || same cause (codes "88")
    then no_route
    else if ltb_ℤ (pos 0) billsec
    then answered
    else failed
