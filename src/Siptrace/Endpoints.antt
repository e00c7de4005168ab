-- ===== src/Siptrace/Endpoints.antt =====
-- The endpoints of a trace.
use didstorageapp.Prelude.{
  ◌≡◌, Bool, true, false, ◌&&◌, ◌||◌, not, List, [], ◌∷◌, ◌++◌, any, All, All-append, refl, arith,
  Bool-cases, inl, inr, ◌∙◌, subst,
}
use didstorageapp.Prelude.Text.{Bytes, codes, same, same→eq}
use didstorageapp.Siptrace.{Message, Trace, add_endpoint, endpoints_of, derive}

abbrev pub has : Bytes → List Bytes → Bool
has x seen = any (λ a. same a x) seen

-- Each address once.
pub IsDistinct : List Bytes → Type 0
IsDistinct [] = Unit
IsDistinct (a ∷ seen) = All (λ (b : Bytes). same a b ≡ false) seen × IsDistinct seen

has-append :
    (x addr : Bytes) (seen : List Bytes) → has x (seen ++ addr ∷ []) ≡ (has x seen || same addr x)
has-append x addr [] = ground arith
has-append x addr (a ∷ seen) = ground (arith, has-append x addr seen)

append-IsDistinct :
    (addr : Bytes) (seen : List Bytes)
    → has addr seen ≡ false
    → IsDistinct seen
    → IsDistinct (seen ++ addr ∷ [])
unfolding IsDistinct
append-IsDistinct addr [] h d = (tt, tt)
append-IsDistinct addr (a ∷ seen) h d =
    let other : same a addr ≡ false = ground (arith, h) in
    (
      All-append _ seen (addr ∷ []) d.0 (other, tt),
      append-IsDistinct addr seen (ground (arith, h)) d.1,
    )

has-add_endpoint :
    (x addr : Bytes) (seen : List Bytes)
    → has x (add_endpoint addr seen) ≡ (has x seen || (not (same addr (codes ":")) && same addr x))
has-add_endpoint x addr seen = elim (Bool-cases (same addr (codes ":"))) [
  | inl e ↦ rw e (ground arith)
  | inr e ↦ elim (Bool-cases (has addr seen)) [
    | inr n ↦ rw (e, n) (has-append x addr seen)
    | inl n ↦
        rw (e, n)
          (elim (Bool-cases (same addr x)) [
            | inr k ↦ rw k (ground arith)
            | inl k ↦
                let there : has x seen ≡ true =
                  subst (λ y. has y seen ≡ true) (same→eq addr x k) n in
                rw (k, there) refl
          ])
  ]
]

add_endpoint-IsDistinct :
    (addr : Bytes) (seen : List Bytes) → IsDistinct seen → IsDistinct (add_endpoint addr seen)
add_endpoint-IsDistinct addr seen d = elim (Bool-cases (same addr (codes ":") || has addr seen)) [
  | inl e ↦ rw e d
  | inr e ↦ rw e (append-IsDistinct addr seen (ground (arith, e)) d)
]

endpoints_of-IsDistinct :
    (ms : List Message) (seen : List Bytes) → IsDistinct seen → IsDistinct (endpoints_of ms seen)
unfolding endpoints_of
endpoints_of-IsDistinct [] seen d = d
endpoints_of-IsDistinct (m ∷ ms) seen d =
    endpoints_of-IsDistinct ms _
      (add_endpoint-IsDistinct m.dst_addr _ (add_endpoint-IsDistinct m.src_addr seen d))

-- One of the messages goes from or to the address.
abbrev pub is_end : Bytes → List Message → Bool
is_end x [] = false
is_end x (m ∷ ms) =
    (not (same m.src_addr (codes ":")) && same m.src_addr x)
    || (not (same m.dst_addr (codes ":")) && same m.dst_addr x)
    || is_end x ms

has-endpoints_of :
    (x : Bytes) (ms : List Message) (seen : List Bytes)
    → has x (endpoints_of ms seen) ≡ (has x seen || is_end x ms)
unfolding endpoints_of
has-endpoints_of x [] seen = ground arith
has-endpoints_of x (m ∷ ms) seen =
    let one = add_endpoint m.src_addr seen in
    has-endpoints_of x ms (add_endpoint m.dst_addr one)
    ∙ rw (has-add_endpoint x m.dst_addr one, has-add_endpoint x m.src_addr seen)
        (associated (has x seen) (not (same m.src_addr (codes ":")) && same m.src_addr x)
          (not (same m.dst_addr (codes ":")) && same m.dst_addr x) (is_end x ms))
  where
    associated : (a b c d : Bool) → (((a || b) || c) || d) ≡ (a || (b || c || d))
    associated a b c d = ground arith

-- The endpoints of a trace are the addresses from and to which its messages go, but for the one
-- that is only a colon, each once.
pub derive-IsDistinct :
    (t : Trace) (x : Bytes)
    → IsDistinct (derive t).endpoints × (has x (derive t).endpoints ≡ is_end x t.messages)
unfolding derive IsDistinct
derive-IsDistinct t x = (endpoints_of-IsDistinct t.messages [] tt, has-endpoints_of x t.messages [])
