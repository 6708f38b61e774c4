-- ===== src/Parser/State/Invariant.antt =====
-- The invariant of the parser's template buffer.
use vermont.Base.{ℕ, ◌+◌, ◌<◌, ◌^◌, ◌≡◌, ◌≢◌, Bool, false, List, [], ◌∷◌, ◌++◌, All, All-keep_if}
use vermont.Record.{SourceId}
use vermont.TemplateBuffer.{BufferedTemplate, template_id, buffer_template}
use vermont.TemplateBuffer.Contents.{clean_up-keep_if, destroy-keep_if}
use vermont.TemplateBuffer.Unique.{IsUnique, buffer_template-IsUnique, destroy-IsUnique}
use vermont.Parser.Fields.Safety.{Layout}
use vermont.Parser.Fields.Lengths.{min_length}
use vermont.Parser.State.{Parser, destroy, learn, push, set_head_expires}

-- A template is stored with the length of its data records: the place where the layout of its fields
-- ends, or 65535, and then no data record is empty.
pub record IsSound (bt : BufferedTemplate) : Type 0 where
  pub small : bt.record_length < 2 ^ 16
  pub fixed :
      bt.record_length ≢ 65535
      → Layout 0 (bt.template_info.scope_info ++ bt.template_info.field_info) bt.record_length
  pub varying :
      bt.record_length ≡ 65535
      → 0 < min_length bt.template_info.scope_info + min_length bt.template_info.field_info

pub record IsValid (s : Parser) : Type 0 where
  pub unique : IsUnique s.template_buffer
  pub sound : All IsSound s.template_buffer

head_IsSound : (e : ℕ) (bt : BufferedTemplate) → IsSound bt → IsSound (record bt { expires = e })
head_IsSound e bt h = record { small = h.small; fixed = h.fixed; varying = h.varying }

head_All :
    (e : ℕ) (chain : List BufferedTemplate)
    → All IsSound chain
    → All IsSound (set_head_expires e chain)
head_All e [] h = tt
head_All e (bt ∷ chain) h = (head_IsSound e bt h.0, h.1)

head_IsUnique :
    (e : ℕ) (chain : List BufferedTemplate) → IsUnique chain → IsUnique (set_head_expires e chain)
head_IsUnique e [] h = tt
head_IsUnique e (bt ∷ chain) h = h

buffer_template-IsSound :
    (now : ℕ) (bt : BufferedTemplate) (chain : List BufferedTemplate)
    → IsSound bt
    → All IsSound chain
    → All IsSound (buffer_template now bt chain).0
unfolding buffer_template
buffer_template-IsSound now bt chain h k = (
  head_IsSound 0 bt h,
  rw (clean_up-keep_if now chain, destroy-keep_if bt.source_id (template_id bt) false)
      (All-keep_if _ IsSound _ (All-keep_if _ IsSound chain k)),
)

-- A withdrawal keeps the invariant.
pub destroy-IsValid :
    (source : SourceId) (id : ℕ) (all : Bool) (s : Parser)
    → IsValid s
    → IsValid (destroy source id all s)
unfolding destroy
destroy-IsValid source id all s v = record {
  unique = destroy-IsUnique source id all s.template_buffer v.unique;
  sound = rw destroy-keep_if (All-keep_if _ IsSound s.template_buffer v.sound);
}

-- So does a sound template.
pub learn-IsValid :
    (now : ℕ) (bt : BufferedTemplate) (s : Parser)
    → IsSound bt
    → IsValid s
    → IsValid (learn now bt s)
unfolding learn push
learn-IsValid now bt s h v = record {
  unique = head_IsUnique _ _ (buffer_template-IsUnique now bt s.template_buffer v.unique);
  sound = head_All _ _ (buffer_template-IsSound now bt s.template_buffer h v.sound);
}
