-- ===== src/Siptrace/Examples.antt =====
-- The trace of a call that was refused by the first supplier and answered by the second.
use didstorageapp.Prelude.{ℕ, ◌≤◌, ◌≡◌, ◌⊎◌, List, [], ◌∷◌, All, refl}
use didstorageapp.Prelude.Text.{
  Bytes, codes, trim_space, trim_left, trim_right, cut, before, to_upper, upper, decimal,
}
use didstorageapp.Prelude.Int.{pos}
use didstorageapp.Domain.Uri.{all_digits}
use didstorageapp.Strconv.{parse_int64, digits_of}
use didstorageapp.Siptrace.{
  Message, Trace, plain_trace, answer_of, final_of, counts_of, derive, sanitize, replace_from,
  rewrite_text,
}
use didstorageapp.Siptrace.Answers.{
  level, level_of, Answered, final_answer, no_answer, derive-Answered,
}
use didstorageapp.Siptrace.Endpoints.{IsDistinct, has, is_end, derive-IsDistinct}
use didstorageapp.Siptrace.Shared.{Traces, lookup_window, change}

abbrev message : ℕ → Bytes → Bytes → Bytes → Message
message at src dst summary = record {
  unix_time = at;
  direction = codes "in";
  src_addr = src;
  dst_addr = dst;
  summary = summary;
}

abbrev messages : List Message
messages =
    message 1 (codes "1.1.1.1:5060") (codes "9.9.9.9:5060") (codes "INVITE sip:442@h SIP/2.0")
    ∷ message 2 (codes "9.9.9.9:5060") (codes "1.1.1.1:5060") (codes "SIP/2.0 486 Busy Here")
    ∷ message 3 (codes "9.9.9.9:5060") (codes "1.1.1.1:5060") (codes "SIP/2.0 200 OK")
    ∷ []

abbrev trace : Trace
trace = plain_trace (codes "x") messages [] []

answered_200 : final_answer (derive trace) ≡ (pos 200, codes "OK")
unfolding derive final_of answer_of trim_space trim_left trim_right cut parse_int64 all_digits
    decimal
answered_200 = refl

counted :
    (derive trace).method_counts ≡ (codes "INVITE", 1) ∷ (codes "4xx", 1) ∷ (codes "2xx", 1) ∷ []
unfolding derive counts_of answer_of trim_space trim_left trim_right cut parse_int64 all_digits
    decimal digits_of before to_upper upper
counted = refl

hides_supplier :
    rewrite_text ((codes "1.1.1.1:5060", codes "did:442") ∷ []) (codes "via 1.1.1.1:5060;")
    ≡ codes "via did:442;"
unfolding rewrite_text replace_from
hides_supplier = refl

derive-Answered_example :
    ((final_answer (derive trace) ≡ no_answer)
      ⊎ Answered trace.messages (final_answer (derive trace)))
    × All
        (λ (m : Message). level_of (answer_of m.summary) ≤ level (derive trace).final_code)
        trace.messages
derive-Answered_example = derive-Answered trace

derive-IsDistinct_example :
    IsDistinct (derive trace).endpoints
    × (has (codes "9.9.9.9:5060") (derive trace).endpoints
        ≡ is_end (codes "9.9.9.9:5060") trace.messages)
derive-IsDistinct_example = derive-IsDistinct trace (codes "9.9.9.9:5060")

abbrev no_traces : Traces
no_traces = record { heap = []; cache = [] }

abbrev labels : List (Bytes × Bytes)
labels = (codes "1.1.1.1", codes "did:442") ∷ []

-- The reseller's lookup rewrites the trace that the administrator then sees.
abbrev hidden : Traces
hidden =
    change (lookup_window 100 (codes "x@h") [] ((messages, []) ∷ []) no_traces).0 (sanitize labels)
      (lookup_window 100 (codes "x@h") [] ((messages, []) ∷ []) no_traces).1
