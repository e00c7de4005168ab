-- ===== src/Siptrace.antt =====
-- internal/siptrace/siptrace.go: the SIP messages of a call, and their cache. What grep and tshark
-- find in the capture files is a parameter: the files, and for each file that has the call its
-- messages and its text. Times are whole seconds. A trace is shared by its address: the cache holds
-- addresses, and a caller changes what the address shows.
pub mod Shared
pub mod Answers
pub mod Endpoints
mod Examples
use didstorageapp.Prelude.{
  ℕ, zero, suc, ◌+◌, ◌-◌, ◌*◌, ◌/◌, Bool, true, false, ◌&&◌, ◌||◌, not, Option, none, some, List,
  [], ◌∷◌, ◌++◌, any, keep, length, get_elem?, ◌==◌, leb, ltb, if◌then◌else◌,
}
use didstorageapp.Prelude.Text.{
  Bytes, codes, same, is_empty, has_prefix, trim_space, to_upper, cut, before,
}
use didstorageapp.Prelude.Int.{ℤ, pos, negsuc}
use didstorageapp.Domain.Uri.{sanitize_call_id}
use didstorageapp.Strconv.{parse_int64, digits_of}
use didstorageapp.Snapshots.{find_key, put}

-- `unix_time` is the time of the packet, which its text on the page repeats.
pub record Message : Type 0 where
  pub unix_time : ℕ
  pub direction : Bytes
  pub src_addr : Bytes
  pub dst_addr : Bytes
  pub summary : Bytes

pub record Trace : Type 0 where
  pub call_id : Bytes
  pub messages : List Message
  pub raw : Bytes
  pub pcap_files : List Bytes
  pub endpoints : List Bytes
  pub final_code : ℤ
  pub final_reason : Bytes
  pub method_counts : List (Bytes × ℕ)

-- A trace before derive.
abbrev pub plain_trace : Bytes → List Message → Bytes → List Bytes → Trace
plain_trace call_id messages raw files = record {
  call_id = call_id;
  messages = messages;
  raw = raw;
  pcap_files = files;
  endpoints = [];
  final_code = pos 0;
  final_reason = [];
  method_counts = [];
}

abbrev pub add_endpoint : Bytes → List Bytes → List Bytes
add_endpoint addr seen =
    if same addr (codes ":") || any (λ a. same a addr) seen then seen else seen ++ addr ∷ []

unfoldable pub endpoints_of : List Message → List Bytes → List Bytes
endpoints_of [] seen = seen
endpoints_of (m ∷ ms) seen =
    endpoints_of ms (add_endpoint m.dst_addr (add_endpoint m.src_addr seen))

-- responseRank, of the hundreds of a code
abbrev pub rank_of_class : ℕ → ℕ
rank_of_class n =
    if n == 2
    then 100
    else if n == 3
    then 50
    else if n == 4
    then 30
    else if n == 5
    then 20
    else if n == 6
    then 10
    else 0

abbrev pub response_rank : ℤ → ℕ
response_rank (pos n) = rank_of_class (n / 100)
response_rank (negsuc n) = 0

-- The code and the reason of a status line; `none` where the code is no number.
abbrev pub coded : Option ℤ → Bytes → Option (ℤ × Bytes)
coded none reason = none
coded (some n) reason = some (n, reason)

abbrev pub code_and_reason : Bytes → Option (Bytes × Bytes) → Option (ℤ × Bytes)
code_and_reason rest none = coded (parse_int64 rest) []
code_and_reason rest (some (code, reason)) = coded (parse_int64 code) reason

abbrev pub after_version : Option (Bytes × Bytes) → Option (ℤ × Bytes)
after_version none = none
after_version (some (version, rest)) = code_and_reason rest (cut 32 rest)

abbrev pub is_status_line : Bytes → Bool
is_status_line s = has_prefix s (codes "SIP/")

-- What a summary answers: a code and a reason, or nothing.
unfoldable pub answer_of : Bytes → Option (ℤ × Bytes)
answer_of summary =
    let s = trim_space summary in if is_status_line s then after_version (cut 32 s) else none

-- `n >= 200` and no final code yet, or a higher rank than that of the one there is
abbrev pub is_better : ℤ → ℤ → Bool
is_better (pos n) (pos f) =
    leb 200 n && (f == 0 || ltb (response_rank (pos f)) (response_rank (pos n)))
is_better (pos n) (negsuc f) = leb 200 n && ltb 0 (response_rank (pos n))
is_better (negsuc n) final = false

abbrev pub note_answer : Option (ℤ × Bytes) → ℤ × Bytes → ℤ × Bytes
note_answer none final = final
note_answer (some (n, reason)) final = if is_better n final.0 then (n, reason) else final

unfoldable pub final_of : List Message → ℤ × Bytes → ℤ × Bytes
final_of [] final = final
final_of (m ∷ ms) final = final_of ms (note_answer (answer_of m.summary) final)

-- `fmt.Sprintf("%dxx", n/100)`, with the quotient towards 0
abbrev pub class_name : ℤ → Bytes
class_name (pos n) = digits_of 20 (n / 100) (codes "xx")
class_name (negsuc n) =
    let k = suc n / 100 in if k == 0 then codes "0xx" else b'-' ∷ digits_of 20 k (codes "xx")

abbrev pub class_of_answer : Option (ℤ × Bytes) → Bytes
class_of_answer none = []
class_of_answer (some (n, reason)) = class_name n

-- What a message counts as; nothing for an empty line and a status line without a code.
abbrev pub counted_as : Bytes → Bytes
counted_as summary =
    let s = trim_space summary in
    if is_status_line s then class_of_answer (answer_of summary) else to_upper (before 32 s)

abbrev pub count_up : Bytes → List (Bytes × ℕ) → List (Bytes × ℕ)
count_up k [] = (k, 1) ∷ []
count_up k ((k', n) ∷ counts) =
    if same k' k then (k', n + 1) ∷ counts else (k', n) ∷ count_up k counts

unfoldable pub counts_of : List Message → List (Bytes × ℕ) → List (Bytes × ℕ)
counts_of [] counts = counts
counts_of (m ∷ ms) counts =
    let k = counted_as m.summary in counts_of ms (if is_empty k then counts else count_up k counts)

unfoldable pub derive : Trace → Trace
derive t =
    let final = final_of t.messages (pos 0, []) in
    record t {
      endpoints = endpoints_of t.messages [];
      final_code = final.0;
      final_reason = final.1;
      method_counts = counts_of t.messages [];
    }

-- strings.ReplaceAll of a text that is not empty; `skip` bytes of a hit are still to be passed.
unfoldable pub replace_from : ℕ → Bytes → Bytes → Bytes → Bytes
replace_from skip old new [] = []
replace_from (suc skip) old new (c ∷ s) = replace_from skip old new s
replace_from zero old new (c ∷ s) =
    let hit = new ++ replace_from (length old - 1) old new s in
    let miss = c ∷ replace_from zero old new s in if has_prefix (c ∷ s) old then hit else miss

abbrev pub replace_all : Bytes → Bytes → Bytes → Bytes
replace_all old new s = replace_from 0 old new s

abbrev pub insert_longer : Bytes × Bytes → List (Bytes × Bytes) → List (Bytes × Bytes)
insert_longer r [] = r ∷ []
insert_longer r (q ∷ rs) =
    if leb (length q.0) (length r.0) then r ∷ q ∷ rs else q ∷ insert_longer r rs

-- The longest keys first.
abbrev pub by_length : List (Bytes × Bytes) → List (Bytes × Bytes)
by_length [] = []
by_length (r ∷ rs) = insert_longer r (by_length rs)

unfoldable pub rewrite_text : List (Bytes × Bytes) → Bytes → Bytes
rewrite_text [] s = s
rewrite_text ((k, label) ∷ rs) s = rewrite_text rs (if is_empty k then s else replace_all k label s)

abbrev pub rewrite_message : List (Bytes × Bytes) → Message → Message
rewrite_message rs m = record m {
  src_addr = rewrite_text rs m.src_addr;
  dst_addr = rewrite_text rs m.dst_addr;
  summary = rewrite_text rs m.summary;
}

abbrev pub rewrite_messages : List (Bytes × Bytes) → List Message → List Message
rewrite_messages rs [] = []
rewrite_messages rs (m ∷ ms) = rewrite_message rs m ∷ rewrite_messages rs ms

abbrev pub sanitize_by : List (Bytes × Bytes) → Trace → Trace
sanitize_by [] t = t
sanitize_by (r ∷ rs) t =
    let sorted = by_length (r ∷ rs) in
    derive
      (record t { messages = rewrite_messages sorted t.messages; raw = rewrite_text sorted t.raw })

unfoldable pub sanitize : List (Bytes × Bytes) → Trace → Trace
unfolding derive
sanitize rewrites t = sanitize_by rewrites t
