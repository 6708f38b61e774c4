-- ===== src/Aggregator/Template/Tests.antt =====
-- A test of the template of the flow table, and the theorem at it: an address and a front payload.
use vermont.Base.{◌≡◌, refl, false, List, [], ◌∷◌, none, some, All, arith}
use vermont.Aggregator.Combine.Flow.{InOrder}
use vermont.Aggregator.Rule.{RuleField}
use vermont.Aggregator.Template.{
  TableTemplate, width, data_fields, private_length, private_offsets, front_offset, shared_offset,
  shared_offsets, create_data_template,
}
use vermont.Aggregator.Template.Layout.{total_width}
use vermont.Aggregator.Template.Created.{IsHeld, create_data_template-IsHeld}

-- The second field is discarded.
abbrev rule : List RuleField
rule =
    (record { type = record { id = 8; enterprise = 0; len = 4 }; pattern = none; modifier = 1 })
    ∷ (record { type = record { id = 4; enterprise = 0; len = 1 }; pattern = none; modifier = 0 })
    ∷ (record {
      type = record { id = 1; enterprise = 2003828736; len = 10 };
      pattern = none;
      modifier = 2;
    })
    ∷ []

abbrev template : TableTemplate
template = record {
  fields =
      (record {
        info = record {
          type = record { id = 8; enterprise = 0; len = 4 };
          offset = 0;
          is_variable_length = false;
        };
        priv_data_offset = 0;
      })
      ∷ (record {
        info = record {
          type = record { id = 1; enterprise = 2003828736; len = 10 };
          offset = 4;
          is_variable_length = false;
        };
        priv_data_offset = 14;
      })
      ∷ [];
  field_length = 14;
  priv_data_length = 12;
}

rule-template : create_data_template rule ≡ some template
unfolding create_data_template width data_fields private_length private_offsets front_offset
    shared_offset shared_offsets
rule-template = refl

create_data_template-IsHeld_example :
    InOrder 0 template.fields
    × All (IsHeld 14 26) template.fields
    × (template.field_length ≡ total_width rule)
unfolding width data_fields private_length
create_data_template-IsHeld_example =
    create_data_template-IsHeld rule template rule-template (omega arith) (omega arith)
      ((λ e. absurd (omega (arith, e))), ((λ e. absurd (omega (arith, e))), tt))
