-- ===== src/Parser/OptionsSet/Safety.antt =====
-- Processing an options template set reads within the message, ends, and keeps the parser's
-- invariant, unless it writes beyond `fieldInfo`.
use vermont.Base.{
  ℕ, suc, ◌+◌, ◌≤◌, ◌<◌, ◌≡◌, refl, inl, inr, true, false, Bool-cases, List, ◌++◌, length, Option,
  none, some, Outcome, ok, out_of_bounds, overflow, out_of_fuel, ◌>>=◌, ◌==◌, ltb, arith, ◌||◌,
}
use vermont.Record.{SourceId, SetId, FieldInfo}
use vermont.Parser.Bytes.{read_u16_within}
use vermont.Parser.State.{Parser}
use vermont.Parser.State.Invariant.{IsValid, IsSound, destroy-IsValid, learn-IsValid}
use vermont.Parser.Fields.{is_length_varying}
use vermont.Parser.Fields.Safety.{Layout, AreRead, read_fields-AreRead}
use vermont.Parser.Fields.Lengths.{
  min_length, min_length_unknown, min_length_pos, min_length-append, varying-min_length,
  Layout-total_length, Layout-append,
}
use vermont.Parser.Walk.{Ends, Advances, walk-Ends}
use vermont.Parser.TemplateSet.Safety.{Valid}
use vermont.Parser.OptionsSet.Scopes.{read_scopes-AreRead}
use vermont.Parser.OptionsSet.{
  is_ipfix_options, counts, new_options_template, options_learn, options_fields, options_body,
  options_round, process_options_template_set,
}

varying_either :
    (scopes fields : List FieldInfo)
    → (is_length_varying scopes || is_length_varying fields) ≡ true
    → 0 < min_length scopes + min_length fields
varying_either scopes fields h =
    ground (arith, varying-min_length scopes, varying-min_length fields)

new_options_template-IsSound :
    (source : SourceId) (set_id : SetId) (id : ℕ) (scopes fields : List FieldInfo) (total : ℕ)
    → Layout 0 (scopes ++ fields) total
    → IsSound (new_options_template source set_id id scopes fields total)
new_options_template-IsSound source set_id id scopes fields total l =
    elim (Bool-cases (is_length_varying scopes || is_length_varying fields)) [
      | inl e ↦ rw e (record {
        small = omega arith;
        fixed = λ h. absurd (h refl);
        varying = λ _. omega (
          arith,
          min_length_unknown fields,
          min_length_unknown scopes,
          varying_either scopes fields e,
        );
      })
      | inr e ↦ rw e (record {
        small = omega (arith, Layout-total_length 0 (scopes ++ fields) total (omega arith) l);
        fixed = λ _. l;
        varying = λ h.
            omega
              (arith, min_length-append scopes fields, min_length_pos (scopes ++ fields) total l h);
      })
    ]

module _ (junk : ℕ → ℕ) (now : ℕ) (source : SourceId) (set_id : SetId) (message : List ℕ)
    (end_of_set : ℕ) (within : end_of_set ≤ length message) where
  options_learn-Advances :
      (id n p q mid : ℕ) (scopes : List FieldInfo) (state : ℕ × Parser)
      (r : Outcome (Option (List FieldInfo × ℕ × ℕ)))
      → p < q
      → Valid state
      → Layout 0 scopes mid
      → AreRead ⊥ end_of_set n q mid r
      → Advances Unit Valid end_of_set p (
          r >>= λ o. ok (options_learn junk now source set_id message end_of_set id scopes state o))
  options_learn-Advances id n p q mid scopes (count, s) (ok none) h v l k = v
  options_learn-Advances id n p q mid scopes (count, s) (ok (some (fields, q', total))) h v l k = (
    omega arith,
    k.2,
    learn-IsValid now _ s
        (new_options_template-IsSound source set_id id scopes fields total
          (Layout-append 0 scopes fields mid total l k.3))
        v,
  )
  options_learn-Advances id n p q mid scopes (count, s) out_of_bounds h v l k = absurd k
  options_learn-Advances id n p q mid scopes (count, s) overflow h v l k = absurd k
  options_learn-Advances id n p q mid scopes (count, s) out_of_fuel h v l k = absurd k

  options_fields-Advances :
      (id n m p q : ℕ) (state : ℕ × Parser) (r : Outcome (Option (List FieldInfo × ℕ × ℕ)))
      → p < q
      → Valid state
      → AreRead Unit end_of_set m q 0 r
      → Advances Unit Valid end_of_set p
          (r >>= options_fields junk now source set_id message end_of_set id n state)
  options_fields-Advances id n m p q state (ok none) h v k = v
  options_fields-Advances id n m p q state (ok (some (scopes, q', mid))) h v k =
      options_learn-Advances id n p q' mid scopes state _ (omega arith) v k.3
        (read_fields-AreRead message (is_ipfix_options set_id) end_of_set within n q' mid k.2)
  options_fields-Advances id n m p q state out_of_bounds h v k = absurd k
  options_fields-Advances id n m p q state overflow h v k = tt
  options_fields-Advances id n m p q state out_of_fuel h v k = absurd k

  options_body-Advances :
      (id n p : ℕ) (state : ℕ × Parser)
      → p + 4 ≤ end_of_set
      → Valid state
      → Advances Unit Valid end_of_set p
          (options_body junk now source set_id message end_of_set id n p state)
  unfolding options_body
  options_body-Advances id n p (count, s) h v = elim (Bool-cases (n == 0)) [
    | inl e ↦ rw e (omega arith, h, destroy-IsValid source id false s v)
    | inr e ↦ elim (Bool-cases (ltb end_of_set (p + 6))) [
      | inl q ↦ rw (e, q) v
      | inr q ↦
          let (m, r) = read_u16_within message (p + 4) (ground arith) in
          let (scope_count, field_count) = counts set_id n m in
          rw (e, q, r)
            (options_fields-Advances id field_count scope_count p (p + 6) (count, s) _ (omega arith)
              v
              (read_scopes-AreRead junk message (is_ipfix_options set_id) end_of_set field_count
                within scope_count 0 (p + 6) 0 (ground arith)))
    ]
  ]

  options_round-Advances :
      (p : ℕ) (state : ℕ × Parser)
      → Valid state
      → Advances Unit Valid end_of_set p
          (options_round junk now source set_id message end_of_set p state)
  unfolding options_round
  options_round-Advances p state v = elim (Bool-cases (ltb end_of_set (p + 4))) [
    | inl e ↦ rw e v
    | inr e ↦
        let (a, q) = read_u16_within message p (ground arith) in
        let (b, r) = read_u16_within message (p + 2) (ground arith) in
        rw (e, q, r) (options_body-Advances a b p state (ground arith) v)
  ]

-- For a set whose header lies within the message, `processOptionsTemplateSet` never reads beyond the
-- buffer and its loop ends; the template buffer stays unique and sound, unless the code writes beyond
-- `fieldInfo`.
pub process_options_template_set-Ends :
    (junk : ℕ → ℕ) (now : ℕ) (source : SourceId) (set_id : SetId) (message : List ℕ)
    (set end_of_message : ℕ) (s : Parser)
    → set + 4 ≤ end_of_message
    → end_of_message ≤ length message
    → IsValid s
    → Ends Unit Valid
        (process_options_template_set junk now source set_id message set end_of_message s)
unfolding process_options_template_set
process_options_template_set-Ends junk now source set_id message set end_of_message s h k v =
    let (len, e) = read_u16_within message (set + 2) (omega arith) in
    elim (Bool-cases (ltb end_of_message (set + len))) [
      | inl q ↦ rw (e, q) v
      | inr q ↦
          let inside : set + len ≤ length message = ground arith in
          rw (e, q)
            (walk-Ends Unit Valid _ 0 (set + len)
              (λ p state _.
                options_round-Advances junk now source set_id message (set + len) inside p state)
              (suc len) (set + 4) (0, s) (omega arith) (omega arith) v)
    ]
