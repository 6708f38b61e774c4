-- ===== src/TemplateBuffer.antt =====
-- src/modules/ipfix/TemplateBuffer.cpp: the templates that the collector has learned.
--
-- The chain of `BufferedTemplate`s from `head` on is a list. `now` is what `time(NULL)` returns
-- during the call. An operation returns the new chain and the destruction records that
-- `onPreDestroy` sends, in order.
pub mod Contents
pub mod Lookup
pub mod Unique
pub mod Withdrawal
mod Tests
use vermont.Base.{
  ℕ, Bool, false, not, ◌&&◌, ◌||◌, List, [], ◌∷◌, ◌++◌, Option, none, some, ltb, ◌==◌,
  if◌then◌else◌,
}
use vermont.Record.{
  SourceId, TemplateInfo, Event, destruction_record, source_eq, equal_ignoring_odid, set_number,
}

-- `BufferedTemplate`, without its `next`.
pub record BufferedTemplate : Type 0 where
  pub source_id : SourceId
  pub template_info : TemplateInfo
  pub record_length : ℕ
  pub expires : ℕ

abbrev pub template_id : BufferedTemplate → ℕ
template_id bt = bt.template_info.template_id

-- `BufferedTemplate::isExpired`
unfoldable pub is_expired : ℕ → BufferedTemplate → Bool
is_expired now bt = not (bt.expires == 0) && ltb bt.expires now

-- `BufferedTemplate::onPreDestroy`
unfoldable pub on_pre_destroy : BufferedTemplate → Event
on_pre_destroy bt = destruction_record bt.source_id bt.template_info

-- `cleanUpExpiredTemplates`
unfoldable pub clean_up_expired_templates :
    ℕ → List BufferedTemplate → List BufferedTemplate × List Event
unfolding is_expired on_pre_destroy
clean_up_expired_templates now [] = ([], [])
clean_up_expired_templates now (bt ∷ chain) =
    let (kept, sent) = clean_up_expired_templates now chain in
    if is_expired now bt then (kept, on_pre_destroy bt ∷ sent) else (bt ∷ kept, sent)

-- The test of `destroyBufferedTemplate`.
unfoldable pub is_destroyed : SourceId → ℕ → Bool → BufferedTemplate → Bool
unfolding source_eq equal_ignoring_odid
is_destroyed source id all bt =
    (source_eq bt.source_id source
      && ((template_id bt == id) || (set_number bt.template_info.set_id == id)))
    || (all && equal_ignoring_odid source bt.source_id)

-- `destroyBufferedTemplate`
unfoldable pub destroy_buffered_template :
    SourceId → ℕ → Bool → List BufferedTemplate → List BufferedTemplate × List Event
unfolding is_destroyed on_pre_destroy
destroy_buffered_template source id all [] = ([], [])
destroy_buffered_template source id all (bt ∷ chain) =
    let (kept, sent) = destroy_buffered_template source id all chain in
    if is_destroyed source id all bt then (kept, on_pre_destroy bt ∷ sent) else (bt ∷ kept, sent)

-- `bufferTemplate`
unfoldable pub buffer_template :
    ℕ → BufferedTemplate → List BufferedTemplate → List BufferedTemplate × List Event
unfolding clean_up_expired_templates destroy_buffered_template
buffer_template now bt chain =
    let (live, expired) = clean_up_expired_templates now chain in
    let (rest, replaced) = destroy_buffered_template bt.source_id (template_id bt) false live in
    (record bt { expires = 0 } ∷ rest, expired ++ replaced)

-- The test of `getBufferedTemplate`.
unfoldable pub is_wanted : SourceId → ℕ → BufferedTemplate → Bool
unfolding source_eq
is_wanted source id bt = source_eq bt.source_id source && (template_id bt == id)

-- The walk of `getBufferedTemplate`: the first template with this source and id.
unfoldable pub find : SourceId → ℕ → List BufferedTemplate → Option BufferedTemplate
unfolding is_wanted
find source id [] = none
find source id (bt ∷ chain) = if is_wanted source id bt then some bt else find source id chain

-- `getBufferedTemplate`: the template, the chain and what was sent.
unfoldable pub get_buffered_template :
    ℕ
    → SourceId
    → ℕ
    → List BufferedTemplate
    → Option BufferedTemplate × List BufferedTemplate × List Event
unfolding find clean_up_expired_templates is_expired
get_buffered_template now source id chain = elim (find source id chain) [
  | none ↦ (none, chain, [])
  | some bt ↦
      let (kept, sent) = clean_up_expired_templates now chain in
      if is_expired now bt then (none, kept, sent) else (some bt, chain, [])
]
