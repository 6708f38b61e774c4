-- ===== src/Parser/DataSet/Safety.antt =====
-- Processing a data set stays within the message, and sends records that lie within the set.
use vermont.Base.{
  ℕ, dec_lt, suc, ◌+◌, ◌-◌, ◌≤◌, ◌<◌, ◌≡◌, sym, subst, inl, inr, Bool, true, Bool-cases, List, [],
  ◌∷◌, length, All, All-keep_if, Option, none, some, ok, ltb, arith, not,
}
use vermont.Record.{SourceId, TemplateInfo}
use vermont.TemplateBuffer.{BufferedTemplate, find, is_expired, is_wanted}
use vermont.TemplateBuffer.Lookup.{get_buffered_template_cases}
use vermont.TemplateBuffer.Unique.{IsUnique, keep_if-IsUnique}
use vermont.Parser.Bytes.{read_u16, read_u16_within}
use vermont.Parser.State.{Parser, push}
use vermont.Parser.State.Invariant.{IsValid, IsSound}
use vermont.Parser.Walk.{Ends, IsSafe, IsSafeRound, Ends-IsSafe, walk-IsSafe}
use vermont.Parser.DataSet.{
  lookup, fixed_round, data_records, is_handled, data_set, process_data_set,
}
use vermont.Parser.DataSet.Rounds.{Sends, Sends-start, data_records-Ends}

find-All :
    (P : BufferedTemplate → Type 0) (source : SourceId) (id : ℕ) (chain : List BufferedTemplate)
    {bt : BufferedTemplate}
    → All P chain
    → find source id chain ≡ some bt
    → P bt
unfolding find
find-All P source id [] h e = absurd (ground arith)
find-All P source id (x ∷ chain) h e = elim (Bool-cases (is_wanted source id x)) [
  | inl q ↦ subst P (ground arith) h.0
  | inr q ↦ find-All P source id chain h.1 (ground arith)
]

-- What a lookup gives: a template of the buffer, and the parser still valid.
abbrev pub Found : (BufferedTemplate → Type 0) → Option BufferedTemplate × Parser → Type 0
Found P (none, s) = IsValid s
Found P (some bt, s) = P bt × IsSound bt × IsValid s

lookup-Found :
    (P : BufferedTemplate → Type 0) (now : ℕ) (source : SourceId) (id : ℕ) (s : Parser)
    → All P s.template_buffer
    → IsValid s
    → Found P (lookup now source id s)
unfolding lookup
lookup-Found P now source id s h v =
    let chain = s.template_buffer in
    elim (get_buffered_template_cases now source id chain) [
      | inl (e, q) ↦ rw q (record { unique = v.unique; sound = v.sound })
      | inr (bt, e, w, q) ↦ elim (Bool-cases (is_expired now bt)) [
        | inl x ↦
            rw (q, x)
              (record {
                unique = keep_if-IsUnique (λ b. not (is_expired now b)) chain v.unique;
                sound = All-keep_if (λ b. not (is_expired now b)) IsSound chain v.sound;
              })
        | inr x ↦
            rw (q, x)
              (
                find-All P source id chain h e,
                find-All IsSound source id chain v.sound e,
                record { unique = v.unique; sound = v.sound },
              )
      ]
    ]

-- No data record of the template is empty.
abbrev pub IsNonempty : BufferedTemplate → Type 0
IsNonempty bt = 0 < bt.record_length

data_set-Ends :
    (netflow : Bool) (source : SourceId) (message : List ℕ) (set end_of_message len : ℕ)
    (found : Option BufferedTemplate × Parser)
    → end_of_message ≤ length message
    → read_u16 message (set + 2) ≡ ok len
    → Found IsNonempty found
    → Ends ⊥
        (Sends (set + 4) (set + len) found.1)
        (data_set netflow source message set end_of_message found)
unfolding data_set
data_set-Ends netflow source message set end_of_message len (none, s) k e v =
    Sends-start (set + 4) (set + len) s
data_set-Ends netflow source message set end_of_message len (some bt, s) k e (pos, sound, v) =
    elim (Bool-cases (ltb end_of_message (set + len))) [
      | inl q ↦ rw (e, q) (Sends-start (set + 4) (set + len) s)
      | inr q ↦ elim (Bool-cases (is_handled netflow bt.template_info.set_id)) [
        | inr u ↦ rw (e, q, u) (Sends-start (set + 4) (set + len) s)
        | inl u ↦
            rw (e, q, u)
              (data_records-Ends source message (set + 4) (set + len) s (ground arith) bt (suc len)
                sound pos (omega arith))
      ]
    ]

-- `processDataSet` never reads beyond the buffer and ends, while no template in the buffer has empty
-- data records. Every record that it sends lies within the body of the set, it returns their number,
-- and it leaves the templates as the lookup left them.
pub process_data_set-Ends :
    (netflow : Bool) (now : ℕ) (source : SourceId) (message : List ℕ)
    (set end_of_message id len : ℕ) (s : Parser)
    → end_of_message ≤ length message
    → read_u16 message set ≡ ok id
    → read_u16 message (set + 2) ≡ ok len
    → IsValid s
    → All IsNonempty s.template_buffer
    → Ends ⊥
        (Sends (set + 4) (set + len) (lookup now source id s).1)
        (process_data_set netflow now source message set end_of_message s)
unfolding process_data_set
process_data_set-Ends netflow now source message set end_of_message id len s k e f v h = rw e (
    data_set-Ends netflow source message set end_of_message len _ k f
      (lookup-Found IsNonempty now source id s h v))

-- The invariant of a parser that has come through a set.
abbrev pub ValidState : ℕ × Parser → Type 0
ValidState state = IsValid state.1

Sends-IsValid :
    (start end : ℕ) (t : Parser)
    → IsValid t
    → (state : ℕ × Parser) → Sends start end t state
    → ValidState state
Sends-IsValid start end t v state h = record {
  unique = subst IsUnique (sym h.untouched) v.unique;
  sound = subst (All IsSound) (sym h.untouched) v.sound;
}

fixed_round-IsSafe :
    (source : SourceId) (message : List ℕ) (end_of_set : ℕ) (ti : TemplateInfo)
    (record_length p : ℕ) (state : ℕ × Parser)
    → ValidState state
    → IsSafeRound ValidState (fixed_round source message end_of_set ti record_length p state)
unfolding fixed_round push
fixed_round-IsSafe source message end_of_set ti record_length p (count, s) v =
    elim (Bool-cases (ltb end_of_set (p + record_length))) [
      | inl e ↦ rw e v
      | inr e ↦ rw e (record { unique = v.unique; sound = v.sound })
    ]

-- The records of a set, whatever the length of the template's data records.
data_records-IsSafe :
    (source : SourceId) (message : List ℕ) (end_of_set : ℕ) (bt : BufferedTemplate) (fuel start : ℕ)
    (t : Parser)
    → end_of_set ≤ length message
    → end_of_set - start < fuel
    → IsSound bt
    → IsValid t
    → IsSafe ValidState (data_records source message end_of_set bt fuel start t)
unfolding data_records
data_records-IsSafe source message end_of_set bt fuel start t within f sound v =
    elim (dec_lt 0 bt.record_length) [
      | yes pos ↦
          Ends-IsSafe ⊥ (Sends start end_of_set t) ValidState (Sends-IsValid start end_of_set t v) _
            (data_records-Ends source message start end_of_set t within bt fuel sound pos f)
      | no zero ↦
          let fixed : ltb bt.record_length 65535 ≡ true = ground arith in
          rw fixed (
            walk-IsSafe ValidState _
              (fixed_round-IsSafe source message end_of_set bt.template_info bt.record_length) fuel
              start (0, t) v)
    ]

data_set-IsSafe :
    (netflow : Bool) (source : SourceId) (message : List ℕ) (set end_of_message len : ℕ)
    (found : Option BufferedTemplate × Parser)
    → end_of_message ≤ length message
    → read_u16 message (set + 2) ≡ ok len
    → Found (λ _. Unit {0}) found
    → IsSafe ValidState (data_set netflow source message set end_of_message found)
unfolding data_set
data_set-IsSafe netflow source message set end_of_message len (none, s) k e v = v
data_set-IsSafe netflow source message set end_of_message len (some bt, s) k e (_, sound, v) =
    elim (Bool-cases (ltb end_of_message (set + len))) [
      | inl q ↦ rw (e, q) v
      | inr q ↦ elim (Bool-cases (is_handled netflow bt.template_info.set_id)) [
        | inr u ↦ rw (e, q, u) v
        | inl u ↦
            rw (e, q, u)
              (data_records-IsSafe source message (set + len) bt (suc len) (set + 4) s
                (ground arith) (omega arith) sound v)
      ]
    ]

All-any {ℓ} : {A : Type ℓ} (xs : List A) → All (λ _. Unit {0}) xs
All-any [] = tt
All-any (x ∷ xs) = (tt, All-any xs)

-- `processDataSet` never reads beyond the buffer, and keeps the parser's invariant where it returns.
pub process_data_set-IsSafe :
    (netflow : Bool) (now : ℕ) (source : SourceId) (message : List ℕ) (set end_of_message : ℕ)
    (s : Parser)
    → set + 4 ≤ end_of_message
    → end_of_message ≤ length message
    → IsValid s
    → IsSafe ValidState (process_data_set netflow now source message set end_of_message s)
unfolding process_data_set
process_data_set-IsSafe netflow now source message set end_of_message s h k v =
    let (id, e) = read_u16_within message set (omega arith) in
    let (len, f) = read_u16_within message (set + 2) (omega arith) in
    rw e (
      data_set-IsSafe netflow source message set end_of_message len _ k f
        (lookup-Found (λ _. Unit {0}) now source id s (All-any s.template_buffer) v))
