-- ===== src/TemplateBuffer/Lookup.antt =====
-- What a lookup finds after the chain has changed.
use vermont.Base.{
  ℕ, ◌≡◌, Bool, true, false, not, inl, inr, List, [], ◌∷◌, some, none, map, keep_if, ◌⊎◌,
  Option-cases, if◌then◌else◌, Bool-cases, arith,
}
use vermont.Record.{SourceId}
use vermont.Record.Source.{source_eq_refl}
use vermont.TemplateBuffer.{
  BufferedTemplate, template_id, is_expired, is_destroyed, is_wanted, find, on_pre_destroy,
  buffer_template, get_buffered_template,
}
use vermont.TemplateBuffer.Contents.{clean_up-keep_if, destroy-keep_if}

-- A template that a filter of the chain keeps is found as before.
find-keep_if :
    (p : BufferedTemplate → Bool) (source : SourceId) (id : ℕ) (chain : List BufferedTemplate)
    {bt : BufferedTemplate}
    → find source id chain ≡ some bt
    → p bt ≡ true
    → find source id (keep_if p chain) ≡ some bt
unfolding find
find-keep_if p source id [] h k = h
find-keep_if p source id (x ∷ chain) {bt} h k = elim (Bool-cases (is_wanted source id x)) [
  | inl e ↦ ground arith
  | inr e ↦ elim (Bool-cases (p x)) [
    | inl q ↦ ground (arith, find-keep_if p source id chain {bt = bt})
    | inr q ↦ ground (arith, find-keep_if p source id chain {bt = bt})
  ]
]

find-wanted :
    (source : SourceId) (id : ℕ) (chain : List BufferedTemplate) {bt : BufferedTemplate}
    → find source id chain ≡ some bt
    → is_wanted source id bt ≡ true
unfolding find
find-wanted source id [] h = ground arith
find-wanted source id (x ∷ chain) {bt} h = ground (arith, find-wanted source id chain {bt = bt})

-- A template that was buffered last is found, does not expire, and the lookup leaves the chain alone.
pub get-buffer_template :
    (now later : ℕ) (bt : BufferedTemplate) (chain : List BufferedTemplate)
    → let (chain', sent) = buffer_template now bt chain in
      get_buffered_template later bt.source_id (template_id bt) chain'
      ≡ (some (record bt { expires = 0 }), chain', [])
unfolding buffer_template get_buffered_template
get-buffer_template now later bt chain = ground (arith, source_eq_refl bt.source_id)

-- Buffering a template leaves every other lookup alone: a template found before is found after, if it
-- has not expired, is not replaced by the new one, and the new one is not what is looked for.
pub find-buffer_template :
    (now : ℕ) (new : BufferedTemplate) (source : SourceId) (id : ℕ) (chain : List BufferedTemplate)
    {bt : BufferedTemplate}
    → find source id chain ≡ some bt
    → is_expired now bt ≡ false
    → is_destroyed new.source_id (template_id new) false bt ≡ false
    → is_wanted source id new ≡ false
    → find source id (buffer_template now new chain).0 ≡ some bt
unfolding buffer_template find
find-buffer_template now new source id chain {bt} h live other wanted = ground (
  arith,
  clean_up-keep_if now chain,
  destroy-keep_if new.source_id (template_id new) false
      (keep_if (λ b. not (is_expired now b)) chain),
  find-keep_if (λ b. not (is_expired now b)) source id chain h,
  find-keep_if (λ b. not (is_destroyed new.source_id (template_id new) false b)) source id
      (keep_if (λ b. not (is_expired now b)) chain) {bt = bt},
)

-- `getBufferedTemplate` returns a template exactly when the first one with this source and id has not
-- expired, and then changes nothing; else it returns none, and cleans the chain up only if there was
-- an expired one.
pub get_buffered_template_cases :
    (now : ℕ) (source : SourceId) (id : ℕ) (chain : List BufferedTemplate)
    → ((find source id chain ≡ none)
        × (get_buffered_template now source id chain ≡ (none, chain, [])))
      ⊎ ((bt : BufferedTemplate) × (find source id chain ≡ some bt)
          × (is_wanted source id bt ≡ true)
          × (get_buffered_template now source id chain ≡ (
              if is_expired now bt
              then (
                none,
                keep_if (λ b. not (is_expired now b)) chain,
                map on_pre_destroy (keep_if (is_expired now) chain),
              )
              else (some bt, chain, []))))
unfolding get_buffered_template
get_buffered_template_cases now source id chain = elim (Option-cases (find source id chain)) [
  | inl e ↦ inl (e, rw (e, get_buffered_template))
  | inr (bt, e) ↦ inr (
    bt,
    e,
    find-wanted source id chain e,
    rw (e, get_buffered_template, clean_up-keep_if now chain),
  )
]
