-- ===== src/Aggregator/Rule/Reads.antt =====
-- The comparisons of fields and patterns (src/modules/ipfix/aggregator/Rule.cpp) read no more than both.
use vermont.Base.{
  ℕ, zero, suc, ◌+◌, ◌*◌, ◌/◌, ◌%◌, ◌==◌, ◌&&◌, ◌||◌, ◌≤◌, ◌≡◌, refl, ltb, leb, not, if◌then◌else◌,
  Bool, true, false, List, length, Outcome, ok, ◌>>=◌, arith,
}
use vermont.Aggregator.Key.Total.{same_bytes-within}
use vermont.Aggregator.Rule.{
  ipv4_imask, address_byte, ipv4_address, matches_ipv4_pattern, in_ranges, all_in_ranges,
  none_around, matches_port_pattern, matches_raw_pattern, matches_pattern,
}
use vermont.Parser.Bytes.{read_u8_within, read_u16_within}
use vermont.Record.{IeInfo}

-- The call returns a value.
abbrev pub Ends {ℓ} : {A : Type ℓ} → Outcome A → Type ℓ
Ends {A} call = (v : A) × (call ≡ ok v)

pub if-Ends {ℓ} :
    {A : Type ℓ} (b : Bool) {x y : Outcome A}
    → (b ≡ true → Ends x)
    → (b ≡ false → Ends y)
    → Ends (if b then x else y)
if-Ends true f g = f refl
if-Ends false f g = g refl

pub bind-Ends {ℓ κ} :
    {A : Type ℓ} {B : Type κ} {call : Outcome A} {next : A → Outcome B}
    → Ends call
    → ((v : A) → Ends (next v))
    → Ends (call >>= next)
bind-Ends (v, e) f = rw e (f v)

pub imask-Ends :
    (len : ℕ) (buf : List ℕ) (p : ℕ) → p + len ≤ length buf → Ends (ipv4_imask len buf p)
unfolding ipv4_imask
imask-Ends len buf p h =
    if-Ends (ltb 4 len) (λ l. read_u8_within buf (p + 4) (ground (arith, h, l))) (λ l. (_, refl))

byte-Ends :
    (i len : ℕ) (buf : List ℕ) (p : ℕ) → p + len ≤ length buf → Ends (address_byte i len buf p)
unfolding address_byte
byte-Ends i len buf p h =
    if-Ends (ltb i len) (λ l. read_u8_within buf (p + i) (ground (arith, h, l))) (λ l. (0, refl))

address-Ends :
    (len : ℕ) (buf : List ℕ) (p : ℕ) → p + len ≤ length buf → Ends (ipv4_address len buf p)
unfolding ipv4_address
address-Ends len buf p h = bind-Ends (byte-Ends 0 len buf p h) (λ a.
    bind-Ends (byte-Ends 1 len buf p h) (λ b.
      bind-Ends (byte-Ends 2 len buf p h)
        (λ c. bind-Ends (byte-Ends 3 len buf p h) (λ d. (_, refl)))))

in_ranges-Ends :
    (n : ℕ) (pattern : List ℕ) (q lo hi : ℕ)
    → q + n * 4 ≤ length pattern
    → Ends (in_ranges n pattern q lo hi)
unfolding in_ranges
in_ranges-Ends zero pattern q lo hi h = (false, refl)
in_ranges-Ends (suc n) pattern q lo hi h =
    let rest = in_ranges-Ends n pattern (q + 4) lo hi (omega (arith, h)) in
    bind-Ends (read_u16_within pattern q (omega (arith, h))) (λ s.
      bind-Ends (read_u16_within pattern (q + 2) (omega (arith, h)))
        (λ e. if-Ends (leb s lo && leb hi e) (λ t. (true, refl)) (λ t. rest)))

all_in_ranges-Ends :
    (n : ℕ) (buf : List ℕ) (p m : ℕ) (pattern : List ℕ) (q : ℕ)
    → p + n * 4 ≤ length buf
    → q + m * 4 ≤ length pattern
    → Ends (all_in_ranges n buf p m pattern q)
unfolding all_in_ranges
all_in_ranges-Ends zero buf p m pattern q h k = (true, refl)
all_in_ranges-Ends (suc n) buf p m pattern q h k =
    let rest = all_in_ranges-Ends n buf (p + 4) m pattern q (omega (arith, h)) k in
    bind-Ends (read_u16_within buf p (omega (arith, h))) (λ s.
      bind-Ends (read_u16_within buf (p + 2) (omega (arith, h))) (λ e.
        bind-Ends (in_ranges-Ends m pattern q s e k)
          (λ found. if-Ends found (λ t. rest) (λ t. (false, refl)))))

none_around-Ends :
    (n : ℕ) (buf : List ℕ) (p port : ℕ) → p + n * 4 ≤ length buf → Ends (none_around n buf p port)
unfolding none_around
none_around-Ends zero buf p port h = (true, refl)
none_around-Ends (suc n) buf p port h =
    let rest = none_around-Ends n buf (p + 4) port (omega (arith, h)) in
    bind-Ends (read_u16_within buf p (omega (arith, h))) (λ s.
      bind-Ends (read_u16_within buf (p + 2) (omega (arith, h)))
        (λ e. if-Ends (ltb s port && ltb port e) (λ t. (false, refl)) (λ t. rest)))

ports-Ends :
    (dlen : ℕ) (buf : List ℕ) (p plen : ℕ) (pattern : List ℕ) (q : ℕ)
    → p + dlen ≤ length buf
    → q + plen ≤ length pattern
    → Ends (matches_port_pattern dlen buf p plen pattern q)
unfolding matches_port_pattern
ports-Ends dlen buf p plen pattern q h k =
    if-Ends ((dlen == 2) && (plen == 2))
      (λ t. same_bytes-within 2 buf p pattern q (ground (arith, h, t)) (ground (arith, k, t)))
      (λ _.
        if-Ends ((dlen == 2) && (plen % 4 == 0))
          (λ t.
            bind-Ends (read_u16_within buf p (ground (arith, h, t)))
              (λ port. in_ranges-Ends (plen / 4) pattern q port port (omega (arith, k))))
          (λ _.
            if-Ends ((dlen % 4 == 0) && (plen == 2))
              (λ t.
                if-Ends (dlen == 0) (λ _. (true, refl))
                  (λ _.
                    bind-Ends (read_u16_within pattern q (ground (arith, k, t)))
                      (λ port. none_around-Ends (dlen / 4) buf p port (omega (arith, h)))))
              (λ _.
                if-Ends ((dlen % 4 == 0) && (plen % 4 == 0))
                  (λ t.
                    all_in_ranges-Ends (dlen / 4) buf p (plen / 4) pattern q (omega (arith, h))
                      (omega (arith, k)))
                  (λ _. (false, refl)))))

pub pattern-Ends :
    (wide : ℕ → ℕ → ℕ) (dtype : IeInfo) (buf : List ℕ) (p : ℕ) (ptype : IeInfo) (pattern : List ℕ)
    → p + dtype.len ≤ length buf
    → ptype.len ≤ length pattern
    → Ends (matches_pattern wide dtype buf p ptype pattern)
unfolding matches_pattern matches_ipv4_pattern matches_raw_pattern
pattern-Ends wide dtype buf p ptype pattern h k =
    let k0 : 0 + ptype.len ≤ length pattern = omega (arith, k) in
    if-Ends (not (dtype.id == ptype.id) || not (dtype.enterprise == ptype.enterprise))
      (λ _. (false, refl))
      (λ _.
        if-Ends ((ptype.id == 8) || (ptype.id == 12))
          (λ _. bind-Ends (imask-Ends dtype.len buf p h) (λ dm.
            bind-Ends (imask-Ends ptype.len pattern 0 k0) (λ pm.
              bind-Ends (address-Ends dtype.len buf p h)
                (λ da. bind-Ends (address-Ends ptype.len pattern 0 k0) (λ pa. (_, refl))))))
          (λ _.
            if-Ends ((ptype.id == 7) || (ptype.id == 11))
              (λ _. ports-Ends dtype.len buf p ptype.len pattern 0 h k0)
              (λ _.
                if-Ends (dtype.len == ptype.len)
                  (λ e. same_bytes-within dtype.len buf p pattern 0 h (ground (arith, e, k)))
                  (λ _. (false, refl)))))
