-- ===== src/TemplateBuffer/Contents.antt =====
-- The chain after an operation, and what was sent, as a plain filter of the chain before.
use vermont.Base.{ℕ, ◌≡◌, refl, Bool, not, List, [], ◌∷◌, map, keep_if, arith}
use vermont.Record.{SourceId}
use vermont.TemplateBuffer.{
  BufferedTemplate, is_expired, is_destroyed, on_pre_destroy, clean_up_expired_templates,
  destroy_buffered_template,
}

-- `cleanUpExpiredTemplates` keeps the templates that have not expired, in their order, and sends one
-- destruction record for each of the others.
pub clean_up-keep_if :
    (now : ℕ) (chain : List BufferedTemplate)
    → clean_up_expired_templates now chain ≡ (
      keep_if (λ bt. not (is_expired now bt)) chain,
      map on_pre_destroy (keep_if (is_expired now) chain),
    )
unfolding clean_up_expired_templates
clean_up-keep_if now [] = refl
clean_up-keep_if now (bt ∷ chain) = ground (arith, clean_up-keep_if now chain)

-- `destroyBufferedTemplate` keeps the templates that do not fit, in their order, and sends one
-- destruction record for each of the others.
pub destroy-keep_if :
    (source : SourceId) (id : ℕ) (all : Bool) (chain : List BufferedTemplate)
    → destroy_buffered_template source id all chain ≡ (
      keep_if (λ bt. not (is_destroyed source id all bt)) chain,
      map on_pre_destroy (keep_if (is_destroyed source id all) chain),
    )
unfolding destroy_buffered_template
destroy-keep_if source id all [] = refl
destroy-keep_if source id all (bt ∷ chain) = ground (arith, destroy-keep_if source id all chain)
