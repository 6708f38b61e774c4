-- ===== src/Parser/TemplateSet/Safety.antt =====
-- Processing a template set stays within the message, ends, and keeps the parser's invariant.
use vermont.Base.{
  ℕ, suc, ◌+◌, ◌≤◌, refl, inl, inr, false, Bool-cases, List, length, Option, none, some, Outcome,
  ok, out_of_bounds, overflow, out_of_fuel, ◌>>=◌, ◌==◌, ltb, arith,
}
use vermont.Record.{SourceId, SetId, FieldInfo}
use vermont.Parser.Bytes.{read_u16_within}
use vermont.Parser.State.{Parser}
use vermont.Parser.State.Invariant.{IsValid, IsSound, destroy-IsValid, learn-IsValid}
use vermont.Parser.Fields.{is_length_varying}
use vermont.Parser.Fields.Safety.{Layout, AreRead, read_fields-AreRead}
use vermont.Parser.Fields.Lengths.{
  min_length_unknown, min_length_pos, varying-min_length, Layout-total_length,
}
use vermont.Parser.Walk.{Ends, Advances, walk-Ends}
use vermont.Parser.TemplateSet.{
  is_ipfix_template, new_template, template_fields, template_body, template_round,
  process_template_set,
}

-- The invariant of the loop's state.
abbrev pub Valid : ℕ × Parser → Type 0
Valid (count, s) = IsValid s

new_template-IsSound :
    (source : SourceId) (set_id : SetId) (id : ℕ) (fields : List FieldInfo) (total : ℕ)
    → Layout 0 fields total
    → IsSound (new_template source set_id id fields total)
new_template-IsSound source set_id id fields total l =
    elim (Bool-cases (is_length_varying fields)) [
      | inl e ↦ rw e (record {
        small = omega arith;
        fixed = λ h. absurd (h refl);
        varying = λ _. omega (arith, min_length_unknown fields, varying-min_length fields e);
      })
      | inr e ↦ rw e (record {
        small = omega (arith, Layout-total_length 0 fields total (omega arith) l);
        fixed = λ _. l;
        varying = λ h. omega (arith, min_length_pos fields total l h);
      })
    ]

module _ (now : ℕ) (source : SourceId) (set_id : SetId) (message : List ℕ) (end_of_set : ℕ)
    (within : end_of_set ≤ length message) where
  template_fields-Advances :
      (id n p : ℕ) (state : ℕ × Parser) (r : Outcome (Option (List FieldInfo × ℕ × ℕ)))
      → Valid state
      → AreRead ⊥ end_of_set n (p + 4) 0 r
      → Advances ⊥ Valid end_of_set p
          (r >>= λ o. ok (template_fields now source set_id message end_of_set id state o))
  template_fields-Advances id n p (count, s) (ok none) v k = v
  template_fields-Advances id n p (count, s) (ok (some (fields, q, total))) v k = (
    omega arith,
    k.2,
    learn-IsValid now _ s (new_template-IsSound source set_id id fields total k.3) v,
  )
  template_fields-Advances id n p (count, s) out_of_bounds v k = k
  template_fields-Advances id n p (count, s) overflow v k = k
  template_fields-Advances id n p (count, s) out_of_fuel v k = k

  template_body-Advances :
      (id n p : ℕ) (state : ℕ × Parser)
      → p + 4 ≤ end_of_set
      → Valid state
      → Advances ⊥ Valid end_of_set p
          (template_body now source set_id message end_of_set id n (p + 4) state)
  template_body-Advances id n p (count, s) h v = elim (Bool-cases (n == 0)) [
    | inl e ↦ rw e (omega arith, h, destroy-IsValid source id false s v)
    | inr e ↦ rw e (
        template_fields-Advances id n p (count, s) _ v
          (read_fields-AreRead message (is_ipfix_template set_id) end_of_set within n (p + 4) 0 h))
  ]

  template_round-Advances :
      (p : ℕ) (state : ℕ × Parser)
      → Valid state
      → Advances ⊥ Valid end_of_set p (template_round now source set_id message end_of_set p state)
  unfolding template_round
  template_round-Advances p state v = elim (Bool-cases (ltb end_of_set (p + 4))) [
    | inl e ↦ rw e v
    | inr e ↦
        let (a, q) = read_u16_within message p (ground arith) in
        let (b, r) = read_u16_within message (p + 2) (ground arith) in
        rw (e, q, r) (template_body-Advances a b p state (ground arith) v)
  ]

-- For a set whose header lies within the message, `processTemplateSet` never reads beyond the buffer,
-- its loop ends, and the template buffer stays unique and sound.
pub process_template_set-Ends :
    (now : ℕ) (source : SourceId) (set_id : SetId) (message : List ℕ) (set end_of_message : ℕ)
    (s : Parser)
    → set + 4 ≤ end_of_message
    → end_of_message ≤ length message
    → IsValid s
    → Ends ⊥ Valid (process_template_set now source set_id message set end_of_message s)
unfolding process_template_set
process_template_set-Ends now source set_id message set end_of_message s h k v =
    let (len, e) = read_u16_within message (set + 2) (omega arith) in
    elim (Bool-cases (ltb end_of_message (set + len))) [
      | inl q ↦ rw (e, q) v
      | inr q ↦
          let inside : set + len ≤ length message = ground arith in
          rw (e, q)
            (walk-Ends ⊥ Valid _ 0 (set + len)
              (λ p state _.
                template_round-Advances now source set_id message (set + len) inside p state)
              (suc len) (set + 4) (0, s) (omega arith) (omega arith) v)
    ]
