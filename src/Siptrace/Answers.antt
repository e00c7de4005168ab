-- ===== src/Siptrace/Answers.antt =====
-- What derive makes of the messages: the final answer, and the endpoints.
use didstorageapp.Prelude.{
  ℕ, suc, ◌/◌, ◌≤◌, ◌≡◌, ◌⊎◌, true, false, ◌&&◌, ◌||◌, Option, none, some, List, [], ◌∷◌, All, ◌==◌,
  leb, ltb, ltb→lt, if◌then◌else◌, refl, arith, Bool-cases, inl, inr, ap, ◌∙◌, sym,
}
use didstorageapp.Prelude.Text.{Bytes}
use didstorageapp.Prelude.Int.{ℤ, pos, negsuc}
use didstorageapp.Siptrace.{
  Message, Trace, rank_of_class, answer_of, is_better, note_answer, final_of, derive,
}

-- 0 for a code below 200, above that the rank counted from 1.
abbrev pub level : ℤ → ℕ
level (pos n) = if leb 200 n then suc (rank_of_class (n / 100)) else 0
level (negsuc n) = 0

abbrev pub level_of : Option (ℤ × Bytes) → ℕ
level_of none = 0
level_of (some (n, reason)) = level n

-- One of the messages answers so.
abbrev pub Answered : List Message → ℤ × Bytes → Type 0
Answered [] f = true ≡ false
Answered (m ∷ ms) f = (answer_of m.summary ≡ some f) ⊎ Answered ms f

-- 0, or a final code.
abbrev IsCode : ℤ → Type 0
IsCode (pos n) = ((n == 0) || leb 200 n) ≡ true
IsCode (negsuc n) = true ≡ false

better_lem :
    (n f r s : ℕ)
    → ((f == 0) || leb 200 f) ≡ true
    → (leb 200 n && (f == 0 || ltb r s))
      ≡ ltb (if leb 200 f then suc r else 0) (if leb 200 n then suc s else 0)
better_lem n f r s h = ground (arith, h)

is_better-level : (n f : ℤ) → IsCode f → is_better n f ≡ ltb (level f) (level n)
is_better-level (pos n) (pos f) h =
    better_lem n f (rank_of_class (f / 100)) (rank_of_class (n / 100)) h
is_better-level (pos n) (negsuc f) h = absurd (cc)
is_better-level (negsuc n) (pos f) h = sym (ground arith)
is_better-level (negsuc n) (negsuc f) h = absurd (cc)

better-IsCode : (n f : ℤ) → is_better n f ≡ true → IsCode n
better-IsCode (pos n) (pos f) h = ground (arith, h)
better-IsCode (pos n) (negsuc f) h = ground (arith, h)
better-IsCode (negsuc n) f h = absurd (cc)

-- What one message makes of the answer so far.
note_answer_lem :
    (o : Option (ℤ × Bytes)) (f : ℤ × Bytes)
    → IsCode f.0
    → IsCode (note_answer o f).0
      × (level f.0 ≤ level (note_answer o f).0)
      × (level_of o ≤ level (note_answer o f).0)
      × ((note_answer o f ≡ f) ⊎ (o ≡ some (note_answer o f)))
note_answer_lem none f h = (h, omega arith, omega arith, inl refl)
note_answer_lem (some (n, reason)) f h =
    let order = is_better-level n f.0 h in
    elim (Bool-cases (is_better n f.0)) [
      | inl e ↦
          let up : ltb (level f.0) (level n) ≡ true = sym order ∙ e in
          let above : level f.0 ≤ level n = omega (arith, ltb→lt (level f.0) (level n) up) in
          rw e (better-IsCode n f.0 e, above, omega arith, inr refl)
      | inr e ↦
          let down : ltb (level f.0) (level n) ≡ false = sym order ∙ e in
          let below : level n ≤ level f.0 = not_less (level f.0) (level n) down in
          rw e (h, omega arith, below, inl refl)
    ]
  where
    not_less : (a b : ℕ) → ltb a b ≡ false → b ≤ a
    not_less a b h = ground (arith, h)

final_of_lem :
    (ms : List Message) (f : ℤ × Bytes)
    → IsCode f.0
    → (level f.0 ≤ level (final_of ms f).0)
      × All (λ (m : Message). level_of (answer_of m.summary) ≤ level (final_of ms f).0) ms
      × ((final_of ms f ≡ f) ⊎ Answered ms (final_of ms f))
unfolding final_of
final_of_lem [] f h = (omega arith, tt, inl refl)
final_of_lem (m ∷ ms) f h =
    let (code, up, covered, source) = note_answer_lem (answer_of m.summary) f h in
    let g = note_answer (answer_of m.summary) f in
    let (rest_up, rest_covered, rest_source) = final_of_lem ms g code in
    (
      omega (arith, up, rest_up),
      (omega (arith, covered, rest_up), rest_covered),
      elim rest_source [
        | inr later ↦ inr (inr later)
        | inl same_answer ↦ elim source [
          | inl kept ↦ inl (same_answer ∙ kept)
          | inr here ↦ inr (inl (here ∙ ap some (sym same_answer)))
        ]
      ],
    )

abbrev pub final_answer : Trace → ℤ × Bytes
final_answer t = (t.final_code, t.final_reason)

abbrev pub no_answer : ℤ × Bytes
no_answer = (pos 0, [])

-- The final answer of a trace is one that a message gives, or none at all; and no message has a
-- final code of a higher rank: 2xx before 3xx, 4xx, 5xx and 6xx, codes below 200 not at all.
pub derive-Answered :
    (t : Trace)
    → ((final_answer (derive t) ≡ no_answer) ⊎ Answered t.messages (final_answer (derive t)))
      × All
          (λ (m : Message). level_of (answer_of m.summary) ≤ level (derive t).final_code)
          t.messages
unfolding derive
derive-Answered t =
    let (_, covered, source) = final_of_lem t.messages no_answer refl in (source, covered)
