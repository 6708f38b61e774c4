-- ===== src/Aggregator/Field.antt =====
-- The fields of an aggregated flow, and which of them are summed up:
-- src/modules/ipfix/aggregator/BaseHashtable.cpp.
use vermont.Base.{ℕ, ◌==◌, ◌||◌, if◌then◌else◌, Bool, false, List, [], ◌∷◌}
use vermont.Record.{IeInfo, FieldInfo}

-- `TemplateInfo::FieldInfo` with the member `privDataOffset`
pub record HashField : Type 0 where
  pub info : FieldInfo
  pub priv_data_offset : ℕ

abbrev pub pen_reverse : ℕ
pen_reverse = 29305

-- 0x77700000
abbrev pub pen_vermont : ℕ
pen_vermont = 2003828736

-- `IPFIX_PEN_vermont|IPFIX_PEN_reverse`
abbrev pub pen_vermont_reverse : ℕ
pen_vermont_reverse = 2003858041

-- The labels of a `switch`
unfoldable pub one_of : List ℕ → ℕ → Bool
one_of [] n = false
one_of (k ∷ ks) n = (n == k) || one_of ks n

-- `BaseHashtable::isToBeAggregated`
unfoldable pub is_to_be_aggregated : IeInfo → Bool
is_to_be_aggregated type =
    if type.enterprise == 0
    then one_of
        (22 ∷ 150 ∷ 152 ∷ 154 ∷ 156 ∷ 21 ∷ 151 ∷ 153 ∷ 155 ∷ 157 ∷ 85 ∷ 1 ∷ 23 ∷ 2 ∷ 86 ∷ 24 ∷ 132
          ∷ 133 ∷ 6 ∷ 291 ∷ [])
        type.id
    else (if type.enterprise == pen_reverse
        then one_of (150 ∷ 152 ∷ 156 ∷ 151 ∷ 153 ∷ 157 ∷ 1 ∷ 85 ∷ 2 ∷ 86 ∷ 6 ∷ []) type.id
        else (if type.enterprise == pen_vermont
            then one_of (1 ∷ 2 ∷ 4 ∷ 3 ∷ 6 ∷ 5 ∷ 7 ∷ 8 ∷ []) type.id
            else (if type.enterprise == pen_vermont_reverse
                then one_of (1 ∷ 2 ∷ 4 ∷ 3 ∷ 6 ∷ 5 ∷ 7 ∷ 8 ∷ []) type.id
                else false)))
