-- ===== src/TemplateBuffer/Withdrawal.antt =====
-- Which templates a withdrawal or the end of a transport session removes.
use vermont.Base.{
  ℕ, ◌≡◌, ◌≢◌, true, false, not, refl, inl, inr, List, [], ◌∷◌, All, Bool-cases, arith, All-map,
  All-zip, All-keep_if, keep_if-All, none,
}
use vermont.Record.{SourceId, source_eq, equal_ignoring_odid, set_number}
use vermont.Record.Source.{source_eq-equal_ignoring_odid}
use vermont.TemplateBuffer.{
  BufferedTemplate, template_id, is_destroyed, is_wanted, find, clean_up_expired_templates,
  destroy_buffered_template, buffer_template,
}
use vermont.TemplateBuffer.Contents.{destroy-keep_if}

-- A file descriptor belongs to one protocol.
abbrev pub OneProtocol : SourceId → List BufferedTemplate → Type 0
OneProtocol source = All λ bt.
    bt.source_id.file_descriptor ≡ source.file_descriptor → bt.source_id.protocol ≡ source.protocol

equal_ignoring_odid_other :
    (s x : SourceId) (d : ℕ)
    → equal_ignoring_odid (record s { observation_domain_id = d }) x ≡ equal_ignoring_odid s x
unfolding equal_ignoring_odid
equal_ignoring_odid_other s x d = refl

source_eq-file_descriptor :
    (s x : SourceId) → source_eq s x ≡ true → s.file_descriptor ≡ x.file_descriptor
unfolding source_eq
source_eq-file_descriptor s x h = ground arith

find-none :
    (source : SourceId) (id : ℕ) (chain : List BufferedTemplate)
    → All (λ bt. is_wanted source id bt ≡ false) chain
    → find source id chain ≡ none
unfolding find
find-none source id [] h = refl
find-none source id (bt ∷ chain) h = rw h.0 (find-none source id chain h.1)

shutdown_one :
    (source : SourceId) (id d wanted : ℕ) (bt : BufferedTemplate)
    → (bt.source_id.file_descriptor ≡ source.file_descriptor
        → bt.source_id.protocol ≡ source.protocol)
    → not (is_destroyed source id true bt) ≡ true
    → is_wanted (record source { observation_domain_id = d }) wanted bt ≡ false
unfolding is_destroyed is_wanted
shutdown_one source id d wanted bt one h =
    let s : SourceId = record source { observation_domain_id = d } in
    elim (Bool-cases (source_eq bt.source_id s)) [
      | inl e ↦
          let p : equal_ignoring_odid source bt.source_id ≡ true =
            rw (← equal_ignoring_odid_other source bt.source_id d) (
              source_eq-equal_ignoring_odid bt.source_id s
                (one (source_eq-file_descriptor bt.source_id s e)) e) in
          ground arith
      | inr e ↦ ground arith
    ]

-- When a transport session ends, every template of its exporter is gone, in every observation domain.
pub shutdown_forgets :
    (source : SourceId) (id d wanted : ℕ) (chain : List BufferedTemplate)
    → OneProtocol source chain
    → find
        (record source { observation_domain_id = d })
        wanted
        (destroy_buffered_template source id true chain).0
      ≡ none
shutdown_forgets source id d wanted chain one = rw destroy-keep_if (
    find-none _ wanted _ (
      All-zip _ _ _ (shutdown_one source id d wanted) _
        (All-keep_if (λ bt. not (is_destroyed source id true bt)) _ chain one)
        (keep_if-All (λ bt. not (is_destroyed source id true bt)) chain)))

spared :
    (source : SourceId) (id : ℕ) (old : BufferedTemplate)
    → not (is_destroyed source id false old) ≡ true
    → source_eq old.source_id source ≡ true
    → (template_id old ≢ id) × (set_number old.template_info.set_id ≢ id)
unfolding is_destroyed
spared source id old h e = ground arith

-- Learning a template removes, from its source, each older template that has the new one's id as its
-- id, and each that has it as the number of its set: a template with the id 2 or 3 removes a whole set.
pub buffer_template_removes :
    (now : ℕ) (new : BufferedTemplate) (chain : List BufferedTemplate)
    → (rest : List BufferedTemplate) × ((buffer_template now new chain).0
        ≡ record new { expires = 0 } ∷ rest)
      × All
          (λ old.
            source_eq old.source_id new.source_id ≡ true
            → (template_id old ≢ template_id new)
              × (set_number old.template_info.set_id ≢ template_id new))
          rest
unfolding buffer_template
buffer_template_removes now new chain = (
  (destroy_buffered_template new.source_id (template_id new) false
      (clean_up_expired_templates now chain).0).0,
  refl,
  rw destroy-keep_if (
      All-map _ _ (spared new.source_id (template_id new)) _ (
        keep_if-All (λ old. not (is_destroyed new.source_id (template_id new) false old))
          (clean_up_expired_templates now chain).0)),
)
