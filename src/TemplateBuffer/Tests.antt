-- ===== src/TemplateBuffer/Tests.antt =====
-- The theorems of the template buffer at small chains.
use vermont.Base.{◌≡◌, refl, ap, true, false, List, [], ◌∷◌, none, some}
use vermont.Record.{destruction_record}
use vermont.Parser.Examples.{
  domain_3, other_exporter, template_256, buffered_256, buffered_empty, buffered_other,
}
use vermont.TemplateBuffer.{
  BufferedTemplate, find, is_expired, is_destroyed, is_wanted, destroy_buffered_template,
  buffer_template, get_buffered_template,
}
use vermont.TemplateBuffer.Lookup.{get-buffer_template, find-buffer_template}
use vermont.TemplateBuffer.Unique.{IsUnique, buffer_template-IsUnique}
use vermont.TemplateBuffer.Withdrawal.{shutdown_forgets}

abbrev chain : List BufferedTemplate
chain = buffered_256 ∷ buffered_other ∷ []

-- At time 121 the first template has expired.
expired_at_121 : (buffer_template 121 buffered_empty chain).0 ≡ buffered_empty ∷ buffered_other ∷ []
unfolding buffer_template
expired_at_121 = refl

withdrawn :
    destroy_buffered_template domain_3 256 false chain
    ≡ (buffered_other ∷ [], destruction_record domain_3 template_256 ∷ [])
unfolding destroy_buffered_template
withdrawn = refl

get-buffer_template_example :
    (get_buffered_template 60 domain_3 257 (buffer_template 50 buffered_empty chain).0).0
    ≡ some buffered_empty
unfolding buffer_template get_buffered_template
get-buffer_template_example = ap (λ r. r.0) (get-buffer_template 50 60 buffered_empty chain)

find-buffer_template_example :
    find other_exporter 256 (buffer_template 121 buffered_empty chain).0 ≡ some buffered_other
unfolding find is_expired is_destroyed is_wanted
find-buffer_template_example =
    find-buffer_template 121 buffered_empty other_exporter 256 chain refl refl refl refl

buffer_template-IsUnique_example : IsUnique (buffer_template 50 buffered_empty chain).0
unfolding is_wanted
buffer_template-IsUnique_example =
    buffer_template-IsUnique 50 buffered_empty chain ((refl, tt), (tt, tt))

shutdown_forgets_example :
    find
      (record domain_3 { observation_domain_id = 9 })
      256
      (destroy_buffered_template domain_3 0 true chain).0
    ≡ none
shutdown_forgets_example = shutdown_forgets domain_3 0 9 256 chain ((λ _. refl), ((λ _. refl), tt))
