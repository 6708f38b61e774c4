-- ===== src/Parser/OptionsSet/Overflow.antt =====
-- An options template of scope fields alone: `ti->fieldInfo[scopeNo].type.enterprise = 0` writes
-- beyond an array of no elements.
use vermont.Base.{
  ℕ, zero, suc, ◌+◌, ◌-◌, ◌%◌, ◌^◌, ◌≤◌, ◌<◌, ◌≡◌, List, ok, overflow, ◌==◌, ltb, true, false,
  arith,
}
use vermont.Record.{SourceId, ipfix_options_template}
use vermont.Parser.Bytes.{read_u16}
use vermont.Parser.State.{Parser}
use vermont.Parser.OptionsSet.{
  counts, scope_enterprise, read_scope, read_scopes, options_body, options_round,
}

module _ (junk : ℕ → ℕ) (message : List ℕ) (end_of_set : ℕ) where
  read_scope_overflow :
      (p record_length id len : ℕ)
      → p + 4 ≤ end_of_set
      → read_u16 message p ≡ ok id
      → read_u16 message (p + 2) ≡ ok len
      → id < 0x8000
      → read_scope junk message true end_of_set 0 0 p record_length ≡ overflow
  unfolding read_scope scope_enterprise
  read_scope_overflow p record_length id len h e f lt = ground arith

  read_scopes_overflow :
      (n p record_length id len : ℕ)
      → 0 < n
      → p + 4 ≤ end_of_set
      → read_u16 message p ≡ ok id
      → read_u16 message (p + 2) ≡ ok len
      → id < 0x8000
      → read_scopes junk message true end_of_set 0 n 0 p record_length ≡ overflow
  unfolding read_scopes
  read_scopes_overflow zero p record_length id len pos h e f lt = absurd (omega arith)
  read_scopes_overflow (suc n) p record_length id len pos h e f lt =
      rw (read_scope_overflow p record_length id len h e f lt)

-- An IPFIX options template record with as many scope fields as fields (`n`, at `p + 2` and `p + 4`),
-- whose first scope field has no enterprise number, makes the parser write beyond `fieldInfo`.
pub options_round_overflow :
    (junk : ℕ → ℕ) (now : ℕ) (source : SourceId) (message : List ℕ) (end_of_set p : ℕ)
    (state : ℕ × Parser) (template n id len : ℕ)
    → p + 10 ≤ end_of_set
    → read_u16 message p ≡ ok template
    → read_u16 message (p + 2) ≡ ok n
    → read_u16 message (p + 4) ≡ ok n
    → read_u16 message (p + 6) ≡ ok id
    → read_u16 message (p + 6 + 2) ≡ ok len
    → 0 < n
    → n < 2 ^ 16
    → id < 0x8000
    → options_round junk now source ipfix_options_template message end_of_set p state ≡ overflow
unfolding options_round options_body counts
options_round_overflow junk now source message end_of_set p (count, s) template n id len h a b c d e
      pos small lt =
    let none_left : (n + 2 ^ 16 - n) % 2 ^ 16 ≡ 0 = omega arith in
    let far : ltb end_of_set (p + 4) ≡ false = ground arith in
    let far' : ltb end_of_set (p + 6) ≡ false = ground arith in
    let some_fields : (n == 0) ≡ false = ground arith in
    rw (far, a, b, some_fields, far', c, none_left)
      (rw
        (read_scopes_overflow junk message end_of_set n (p + 6) 0 id len pos (omega arith) d e lt))
