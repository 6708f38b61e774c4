-- ===== src/TemplateBuffer/Unique.antt =====
-- The buffer never holds two templates that one lookup fits.
use vermont.Base.{
  ℕ, Bool, ◌≡◌, true, false, not, inl, inr, List, [], ◌∷◌, All, keep_if, Bool-cases, arith, All-map,
  All-keep_if, keep_if-All,
}
use vermont.Record.{SourceId}
use vermont.TemplateBuffer.{
  BufferedTemplate, template_id, is_expired, is_destroyed, is_wanted, destroy_buffered_template,
  buffer_template,
}
use vermont.TemplateBuffer.Contents.{clean_up-keep_if, destroy-keep_if}

-- No older template answers to the source and id of a newer one.
abbrev pub IsUnique : List BufferedTemplate → Type 0
IsUnique [] = Unit
IsUnique (bt ∷ chain) =
    All (λ old. is_wanted bt.source_id (template_id bt) old ≡ false) chain × IsUnique chain

pub keep_if-IsUnique :
    (p : BufferedTemplate → Bool) (chain : List BufferedTemplate)
    → IsUnique chain
    → IsUnique (keep_if p chain)
keep_if-IsUnique p [] h = tt
keep_if-IsUnique p (bt ∷ chain) h = elim (Bool-cases (p bt)) [
  | inl e ↦ rw e (All-keep_if p _ chain h.0, keep_if-IsUnique p chain h.1)
  | inr e ↦ rw e (keep_if-IsUnique p chain h.1)
]

-- What `destroyBufferedTemplate` leaves of a source's templates does not have the id.
not_wanted :
    (source : SourceId) (id : ℕ) (old : BufferedTemplate)
    → not (is_destroyed source id false old) ≡ true
    → is_wanted source id old ≡ false
unfolding is_destroyed is_wanted
not_wanted source id old h = ground arith

-- `destroyBufferedTemplate` keeps the templates unique.
pub destroy-IsUnique :
    (source : SourceId) (id : ℕ) (all : Bool) (chain : List BufferedTemplate)
    → IsUnique chain
    → IsUnique (destroy_buffered_template source id all chain).0
destroy-IsUnique source id all chain h = rw destroy-keep_if (keep_if-IsUnique _ chain h)

-- `bufferTemplate` keeps them unique, whatever the new template.
pub buffer_template-IsUnique :
    (now : ℕ) (bt : BufferedTemplate) (chain : List BufferedTemplate)
    → IsUnique chain
    → IsUnique (buffer_template now bt chain).0
unfolding buffer_template
buffer_template-IsUnique now bt chain h =
    rw (clean_up-keep_if, destroy-keep_if)
      (
        All-map _ _ (not_wanted bt.source_id (template_id bt)) _ (
            keep_if-All (λ old. not (is_destroyed bt.source_id (template_id bt) false old))
              (keep_if (λ old. not (is_expired now old)) chain)),
        keep_if-IsUnique _ _ (keep_if-IsUnique _ chain h),
      )
