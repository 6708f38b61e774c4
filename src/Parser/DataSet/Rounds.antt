-- ===== src/Parser/DataSet/Rounds.antt =====
-- The rounds of the loops over the data records of a set: what they send, and that they get on.
use vermont.Base.{
  ℕ, ◌+◌, ◌-◌, ◌≤◌, ◌<◌, ◌≡◌, refl, ap, sym, ◌∙◌, inl, inr, Bool-cases, List, [], ◌∷◌, ◌++◌, length,
  length-append, append-nil, append_assoc, All, All-append, Option, none, some, Outcome, ok,
  out_of_bounds, overflow, out_of_fuel, ◌>>=◌, ltb, arith,
}
use vermont.Record.{
  SourceId, FieldInfo, TemplateInfo, Event, data_record, template_record, destruction_record,
}
use vermont.TemplateBuffer.{BufferedTemplate}
use vermont.Parser.State.{Parser, push}
use vermont.Parser.State.Invariant.{IsSound}
use vermont.Parser.Fields.Lengths.{min_length}
use vermont.Parser.Walk.{Ends, Advances, walk-Ends}
use vermont.Parser.DataSet.Variable.{ArePlaced, place_fields-ArePlaced}
use vermont.Parser.DataSet.{
  fixed_round, within_set, variable_record, variable_fields, variable_round, data_records,
}

-- A data record from `source` whose bytes lie between `start` and `end`.
abbrev pub IsWithin : ℕ → ℕ → Event → Type 0
IsWithin start end (data_record source ti len p) = (start ≤ p) × (p + len ≤ end)
IsWithin start end (template_record source ti) = ⊥
IsWithin start end (destruction_record source ti) = ⊥

-- What the loops keep, from the parser `t` on: as many data records are sent as are counted, each of
-- them lies within the set, and the template buffer is left alone.
pub record Sends (start end : ℕ) (t : Parser) (state : ℕ × Parser) : Type 0 where
  pub events : List Event
  pub sent_all : state.1.sent ≡ t.sent ++ events
  pub counted : length events ≡ state.0
  pub placed : All (IsWithin start end) events
  pub untouched : state.1.template_buffer ≡ t.template_buffer

pub Sends-push :
    (start end : ℕ) (t : Parser) (count : ℕ) (s : Parser) (source : SourceId) (ti : TemplateInfo)
    (len p : ℕ)
    → start ≤ p
    → p + len ≤ end
    → Sends start end t (count, s)
    → Sends start end t (count + 1, push (data_record source ti len p) s)
unfolding push
Sends-push start end t count s source ti len p h k v =
    let e = data_record source ti len p in
    record {
      events = v.events ++ e ∷ [];
      sent_all = ap (λ l. l ++ e ∷ []) v.sent_all ∙ append_assoc t.sent v.events (e ∷ []);
      counted = omega (arith, length-append v.events (e ∷ []), v.counted);
      placed = All-append (IsWithin start end) v.events (e ∷ []) v.placed ((h, k), tt);
      untouched = v.untouched;
    }

pub Sends-start : (start end : ℕ) (t : Parser) → Sends start end t (0, t)
Sends-start start end t = record {
  events = [];
  sent_all = sym (append-nil t.sent);
  counted = refl;
  placed = tt;
  untouched = refl;
}

module _ (source : SourceId) (message : List ℕ) (start end_of_set : ℕ) (t : Parser)
    (within : end_of_set ≤ length message) where
  pub fixed_round-Advances :
      (ti : TemplateInfo) (record_length p : ℕ) (state : ℕ × Parser)
      → 0 < record_length
      → start ≤ p
      → Sends start end_of_set t state
      → Advances ⊥
          (Sends start end_of_set t)
          end_of_set
          p
          (fixed_round source message end_of_set ti record_length p state)
  unfolding fixed_round
  fixed_round-Advances ti record_length p (count, s) pos h v =
      elim (Bool-cases (ltb end_of_set (p + record_length))) [
        | inl e ↦ rw e v
        | inr e ↦
            let fits : p + record_length ≤ end_of_set = ground arith in
            rw e (
              omega arith,
              fits,
              Sends-push start end_of_set t count s source ti record_length p h fits v,
            )
      ]

  pub variable_record-Advances :
      (ti : TemplateInfo) (scopes : List FieldInfo) (p record_length : ℕ) (state : ℕ × Parser)
      (r : Outcome (Option (List FieldInfo × ℕ)))
      → 0 < record_length + min_length ti.field_info
      → start ≤ p
      → Sends start end_of_set t state
      → ArePlaced ti.field_info record_length r
      → Advances ⊥ (Sends start end_of_set t) end_of_set p (
          r >>= λ o. ok (
            variable_record source message end_of_set ti scopes p state
              (within_set source message end_of_set p o)))
  variable_record-Advances ti scopes p record_length state (ok none) pos h v k = v
  variable_record-Advances ti scopes p record_length (count, s) (ok (some (fields, total))) pos h v
        k =
      elim (Bool-cases (ltb end_of_set (p + total))) [
        | inl e ↦ rw e v
        | inr e ↦
            let fits : p + total ≤ end_of_set = ground arith in
            rw e
              (omega arith, fits, Sends-push start end_of_set t count s source _ total p h fits v)
      ]
  variable_record-Advances ti scopes p record_length state out_of_bounds pos h v k = k
  variable_record-Advances ti scopes p record_length state overflow pos h v k = k
  variable_record-Advances ti scopes p record_length state out_of_fuel pos h v k = k

  pub variable_fields-Advances :
      (ti : TemplateInfo) (p : ℕ) (state : ℕ × Parser) (r : Outcome (Option (List FieldInfo × ℕ)))
      → 0 < min_length ti.scope_info + min_length ti.field_info
      → start ≤ p
      → Sends start end_of_set t state
      → ArePlaced ti.scope_info 0 r
      → Advances ⊥ (Sends start end_of_set t) end_of_set p (
          r >>= λ o.
          variable_fields source message end_of_set ti p state
            (within_set source message end_of_set p o))
  variable_fields-Advances ti p state (ok none) pos h v k = v
  variable_fields-Advances ti p state (ok (some (scopes, total))) pos h v k =
      elim (Bool-cases (ltb end_of_set (p + total))) [
        | inl e ↦ rw e v
        | inr e ↦ rw e (
            variable_record-Advances ti scopes p total state _ (omega arith) h v
              (place_fields-ArePlaced source message end_of_set within ti.field_info p total))
      ]
  variable_fields-Advances ti p state out_of_bounds pos h v k = k
  variable_fields-Advances ti p state overflow pos h v k = k
  variable_fields-Advances ti p state out_of_fuel pos h v k = k

  pub variable_round-Advances :
      (ti : TemplateInfo) (p : ℕ) (state : ℕ × Parser)
      → 0 < min_length ti.scope_info + min_length ti.field_info
      → start ≤ p
      → Sends start end_of_set t state
      → Advances ⊥
          (Sends start end_of_set t)
          end_of_set
          p
          (variable_round source message end_of_set ti p state)
  unfolding variable_round
  variable_round-Advances ti p state pos h v = elim (Bool-cases (ltb p end_of_set)) [
    | inr e ↦ rw e v
    | inl e ↦ rw e (
        variable_fields-Advances ti p state _ pos h v
          (place_fields-ArePlaced source message end_of_set within ti.scope_info p 0))
  ]

  -- The records of a set, for a sound template whose data records are not empty.
  pub data_records-Ends :
      (bt : BufferedTemplate) (fuel : ℕ)
      → IsSound bt
      → 0 < bt.record_length
      → end_of_set - start < fuel
      → Ends ⊥ (Sends start end_of_set t) (data_records source message end_of_set bt fuel start t)
  unfolding data_records
  data_records-Ends bt fuel sound pos f = elim (Bool-cases (ltb bt.record_length 65535)) [
    | inl e ↦ rw e (
        walk-Ends ⊥ (Sends start end_of_set t) _ start end_of_set
          (λ p state. fixed_round-Advances bt.template_info bt.record_length p state pos) fuel start
          (0, t) f (omega arith) (Sends-start start end_of_set t))
    | inr e ↦
        let ti = bt.template_info in
        let full : bt.record_length ≡ 65535 = ground (arith, sound.small) in
        elim (Bool-cases (ltb end_of_set (start + length ti.field_info + length ti.scope_info))) [
          | inl q ↦ rw (e, q) (Sends-start start end_of_set t)
          | inr q ↦
              rw (e, q)
                (walk-Ends ⊥ (Sends start end_of_set t) _ start end_of_set
                  (λ p state. variable_round-Advances ti p state (sound.varying full)) fuel start
                  (0, t) f (omega arith) (Sends-start start end_of_set t))
        ]
  ]
