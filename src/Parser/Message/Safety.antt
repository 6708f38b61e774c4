-- ===== src/Parser/Message/Safety.antt =====
-- No packet makes the parser read beyond its buffer, and every packet keeps the template buffer valid.
use vermont.Base.{
  ℕ, suc, ◌+◌, ◌≤◌, inl, inr, Bool, true, false, Bool-cases, List, length, Outcome, ok,
  out_of_bounds, overflow, out_of_fuel, ◌>>=◌, leb, ltb, ◌==◌, ◌&&◌, arith,
}
use vermont.Record.{
  SourceId, SetId, ipfix_template, ipfix_options_template, netflow_template,
  netflow_options_template,
}
use vermont.Parser.Bytes.{read_u16_within, read_u32_within}
use vermont.Parser.State.{Parser, protocol_udp}
use vermont.Parser.State.Invariant.{IsValid, destroy-IsValid}
use vermont.Parser.Walk.{more, IsSafe, IsSafeRound, Ends-IsSafe, >>=-IsSafe, walk-IsSafe}
use vermont.Parser.TemplateSet.Safety.{Valid, process_template_set-Ends}
use vermont.Parser.OptionsSet.Safety.{process_options_template_set-Ends}
use vermont.Parser.DataSet.Safety.{ValidState, process_data_set-IsSafe}
use vermont.Parser.Message.{
  Sets, Build, Status, data_start, process_set, set_body, ipfix_round, netflow_round, start_sets,
  count_message, finish_message, process_ipfix_packet, process_netflow_v9_packet, process_packet,
  is_within_time_boundary,
}

abbrev ValidSets : Sets → Type 0
ValidSets t = IsValid t.parser

abbrev pub ValidResult : Status × Parser → Type 0
ValidResult r = IsValid r.1

to_ValidState : (state : ℕ × Parser) → Valid state → ValidState state
to_ValidState (count, s) v = v

-- A set's result goes into the counters, and then the loop goes on.
module _ (build : Build) (junk : ℕ → ℕ) (now : ℕ) (source : SourceId) (message : List ℕ)
    (end_of_message : ℕ) (within : end_of_message ≤ length message) where
  process_set-IsSafe :
      (template_id : ℕ) (templates : SetId) (options_id : ℕ) (options : SetId) (id set : ℕ)
      (t : Sets)
      → set + 4 ≤ end_of_message
      → ValidSets t
      → IsSafe ValidSets (
          process_set build junk now source message end_of_message template_id templates options_id
            options id set t)
  unfolding process_set
  process_set-IsSafe template_id templates options_id options id set t h v =
      elim (Bool-cases (id == template_id)) [
        | inl a ↦ rw a (
            >>=-IsSafe ValidState ValidSets _ _ (λ r k. k)
              (Ends-IsSafe ⊥ Valid ValidState to_ValidState _ (
                process_template_set-Ends now source templates message set end_of_message t.parser h
                  within v)))
        | inr a ↦ elim (Bool-cases (id == options_id)) [
          | inl b ↦
              rw (a, b)
                (>>=-IsSafe ValidState ValidSets _ _ (λ r k. k)
                  (Ends-IsSafe Unit Valid ValidState to_ValidState _ (
                    process_options_template_set-Ends junk now source options message set
                      end_of_message t.parser h within v)))
          | inr b ↦ elim (Bool-cases (leb data_start id)) [
            | inl c ↦
                rw (a, b, c)
                  (>>=-IsSafe ValidState ValidSets _ _ (λ r k. k)
                    (process_data_set-IsSafe build.netflow_v9 now source message set end_of_message
                      t.parser h within v))
            | inr c ↦ rw (a, b, c) v
          ]
        ]
      ]

  set_more :
      (len set : ℕ) (r : Outcome Sets)
      → IsSafe ValidSets r
      → IsSafeRound ValidSets (r >>= λ t'. ok (more (set + len) t'))
  set_more len set (ok t) h = h
  set_more len set out_of_bounds h = h
  set_more len set overflow h = tt
  set_more len set out_of_fuel h = tt

  set_body-IsSafe :
      (template_id : ℕ) (templates : SetId) (options_id : ℕ) (options : SetId) (len set : ℕ)
      (t : Sets)
      → set + 4 ≤ end_of_message
      → ValidSets t
      → IsSafeRound ValidSets (
          set_body build junk now source message end_of_message template_id templates options_id
            options len set t)
  unfolding set_body
  set_body-IsSafe template_id templates options_id options len set t h v =
      elim (Bool-cases (ltb len 3)) [
        | inl a ↦ rw a v
        | inr a ↦
            let (id, e) = read_u16_within message set (omega arith) in
            rw (a, e)
              (set_more len set _
                (process_set-IsSafe template_id templates options_id options id set t h v))
      ]

  ipfix_round-IsSafe :
      (set : ℕ) (t : Sets)
      → ValidSets t
      → IsSafeRound ValidSets (ipfix_round build junk now source message end_of_message set t)
  unfolding ipfix_round
  ipfix_round-IsSafe set t v = elim (Bool-cases (ltb end_of_message (set + 4))) [
    | inl a ↦ rw a v
    | inr a ↦
        let (len, e) = read_u16_within message (set + 2) (ground arith) in
        rw (a, e)
          (set_body-IsSafe 2 ipfix_template 3 ipfix_options_template len set t (ground arith) v)
  ]

  netflow_round-IsSafe :
      (expected set : ℕ) (t : Sets)
      → ValidSets t
      → IsSafeRound ValidSets
          (netflow_round build junk now source message end_of_message expected set t)
  unfolding netflow_round
  netflow_round-IsSafe expected set t v =
      elim (Bool-cases (ltb expected (t.data_records + t.template_records))) [
        | inl b ↦ rw b v
        | inr b ↦ elim (Bool-cases (ltb end_of_message (set + 4))) [
          | inl a ↦ rw (b, a) v
          | inr a ↦
              let (len, e) = read_u16_within message (set + 2) (ground arith) in
              rw (b, a, e)
                (set_body-IsSafe 0 netflow_template 1 netflow_options_template len set t
                  (ground arith) v)
        ]
      ]

finish_message-IsValid :
    (ipfix : Bool) (source : SourceId) (sequence advance : ℕ) (t : Sets)
    → ValidSets t
    → ValidResult (finish_message ipfix source sequence advance t)
unfolding finish_message count_message
finish_message-IsValid ipfix source sequence advance t v = elim (Bool-cases t.failed) [
  | inl a ↦ rw a v
  | inr a ↦ elim (Bool-cases (source.protocol == protocol_udp)) [
    | inl b ↦ rw (a, b) (record { unique = v.unique; sound = v.sound })
    | inr b ↦ rw (a, b) (record { unique = v.unique; sound = v.sound })
  ]
]

process_ipfix_packet-IsSafe :
    (build : Build) (junk : ℕ → ℕ) (now : ℕ) (message : List ℕ) (len : ℕ) (source : SourceId)
    (s : Parser)
    → len ≤ length message
    → IsValid s
    → IsSafe ValidResult (process_ipfix_packet build junk now message len source s)
unfolding process_ipfix_packet
process_ipfix_packet-IsSafe build junk now message len source s within v =
    elim (Bool-cases (ltb len 20)) [
      | inl a ↦ rw a v
      | inr a ↦
          let (domain, e) = read_u32_within message 12 (ground arith) in
          let (export_time, f) = read_u32_within message 4 (ground arith) in
          let (header, g) = read_u16_within message 2 (ground arith) in
          let (sequence, h) = read_u32_within message 8 (ground arith) in
          elim (Bool-cases (header == len)) [
            | inr b ↦ rw (a, e, f, g, b) v
            | inl b ↦
                rw (a, e, f, g, b, h)
                  (>>=-IsSafe ValidSets ValidResult _ _
                    (λ t k. finish_message-IsValid true _ sequence t.data_records t k)
                    (walk-IsSafe ValidSets _
                      (ipfix_round-IsSafe build junk now _ message len within) (suc len) 16
                      (start_sets s) v))
          ]
    ]

process_netflow_v9_packet-IsSafe :
    (build : Build) (junk : ℕ → ℕ) (now : ℕ) (message : List ℕ) (len : ℕ) (source : SourceId)
    (s : Parser)
    → len ≤ length message
    → IsValid s
    → IsSafe ValidResult (process_netflow_v9_packet build junk now message len source s)
unfolding process_netflow_v9_packet
process_netflow_v9_packet-IsSafe build junk now message len source s within v =
    elim (Bool-cases (ltb len 24)) [
      | inl a ↦ rw a v
      | inr a ↦
          let (domain, e) = read_u32_within message 16 (ground arith) in
          let (up_time, u) = read_u32_within message 4 (ground arith) in
          let (export_time, f) = read_u32_within message 8 (ground arith) in
          let (expected, g) = read_u16_within message 2 (ground arith) in
          let (sequence, h) = read_u32_within message 12 (ground arith) in
          rw (a, e, u, f, g, h)
            (>>=-IsSafe ValidSets ValidResult _ _
              (λ t k. finish_message-IsValid false _ sequence 1 t k)
              (walk-IsSafe ValidSets _
                (netflow_round-IsSafe build junk now _ message len within expected) (suc len) 20
                (start_sets s) v))
    ]

-- Whatever a packet holds, `processPacket` reads nothing beyond the buffer that it came in, and where
-- it returns the template buffer is unique and sound. The buffer has the packet's bytes, and at least
-- the twelve bytes that are read before the length is checked.
pub process_packet-IsSafe :
    (build : Build) (junk : ℕ → ℕ) (now : ℕ) (message : List ℕ) (len : ℕ) (source : SourceId)
    (s : Parser)
    → len ≤ length message
    → 12 ≤ length message
    → IsValid s
    → IsSafe ValidResult (process_packet build junk now message len source s)
unfolding process_packet
process_packet-IsSafe build junk now message len source s within header v =
    let (version, e) = read_u16_within message 0 (omega arith) in
    let (ipfix_time, f) = read_u32_within message 4 (omega arith) in
    let (netflow_time, g) = read_u32_within message 8 (omega arith) in
    elim (Bool-cases (len == 0)) [
      | inl a ↦ rw a (destroy-IsValid source 0 true s v)
      | inr a ↦ elim (Bool-cases (version == 10)) [
        | inl b ↦ elim (Bool-cases (is_within_time_boundary build.sanity_check now ipfix_time)) [
          | inl c ↦
              rw (a, e, b, f, c)
                (process_ipfix_packet-IsSafe build junk now message len source s within v)
          | inr c ↦ rw (a, e, b, f, c) v
        ]
        | inr b ↦ elim (Bool-cases ((version == 9) && build.netflow_v9)) [
          | inl d ↦
              elim (Bool-cases (is_within_time_boundary build.sanity_check now netflow_time)) [
                | inl c ↦
                    rw (a, e, b, d, g, c)
                      (process_netflow_v9_packet-IsSafe build junk now message len source s within
                        v)
                | inr c ↦ rw (a, e, b, d, g, c) v
              ]
          | inr d ↦ rw (a, e, b, d) v
        ]
      ]
    ]
