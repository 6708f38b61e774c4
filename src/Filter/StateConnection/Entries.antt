-- ===== src/Filter/StateConnection/Entries.antt =====
-- The export list as a map: what `find` sees after a write and after an `erase`.
use vermont.Base.{ℕ, ◌≡◌, refl, List, [], ◌∷◌, none, some, true, false, Bool-cases, inl, inr, arith}
use vermont.Bloom.Key.{Quintuple}
use vermont.Filter.StateConnection.{key_eq, find_entry, erase_entry, set_entry}

pub key_eq_refl : (k : Quintuple) → key_eq k k ≡ true
unfolding key_eq
key_eq_refl k = ground arith

-- Keys that compare equal are equal.
pub key_eq→eq : (k l : Quintuple) → key_eq k l ≡ true → k ≡ l
unfolding key_eq
key_eq→eq k l h =
    let src : k.src_ip ≡ l.src_ip = ground arith in
    let dst : k.dst_ip ≡ l.dst_ip = ground arith in
    let proto : k.proto ≡ l.proto = ground arith in
    let sport : k.src_port ≡ l.src_port = ground arith in
    let dport : k.dst_port ≡ l.dst_port = ground arith in
    λ i. record {
      src_ip = src i;
      dst_ip = dst i;
      proto = proto i;
      src_port = sport i;
      dst_port = dport i;
    }

key_eq_trans : (k l m : Quintuple) → key_eq l m ≡ true → key_eq k m ≡ true → key_eq k l ≡ true
unfolding key_eq
key_eq_trans k l m h j = ground arith

pub find_entry-erase_entry :
    (k : Quintuple) (es : List (Quintuple × ℕ)) → find_entry k (erase_entry k es) ≡ none
unfolding find_entry erase_entry
find_entry-erase_entry k [] = refl
find_entry-erase_entry k (e ∷ es) = elim (Bool-cases (key_eq k e.0)) [
  | inl h ↦ rw h (find_entry-erase_entry k es)
  | inr h ↦ rw (h, h) (find_entry-erase_entry k es)
]

pub find_entry-set_entry :
    (k : Quintuple) (v : ℕ) (es : List (Quintuple × ℕ)) → find_entry k (set_entry k v es) ≡ some v
unfolding find_entry
find_entry-set_entry k v es = rw (key_eq_refl k) refl

-- An `erase` of another key changes nothing for this one.
pub find_entry-erase_other :
    (k l : Quintuple) (es : List (Quintuple × ℕ))
    → key_eq k l ≡ false
    → find_entry k (erase_entry l es) ≡ find_entry k es
unfolding find_entry erase_entry
find_entry-erase_other k l [] h = refl
find_entry-erase_other k l (e ∷ es) h = elim (Bool-cases (key_eq l e.0)) [
  | inl m ↦ elim (Bool-cases (key_eq k e.0)) [
    | inl n ↦ absurd (ground (arith, key_eq_trans k l e.0 m n, h))
    | inr n ↦ rw (m, n) (find_entry-erase_other k l es h)
  ]
  | inr m ↦ elim (Bool-cases (key_eq k e.0)) [
    | inl n ↦ rw (m, n) refl
    | inr n ↦ rw (m, n) (find_entry-erase_other k l es h)
  ]
]

pub find_entry-set_other :
    (k l : Quintuple) (v : ℕ) (es : List (Quintuple × ℕ))
    → key_eq k l ≡ false
    → find_entry k (set_entry l v es) ≡ find_entry k es
unfolding find_entry
find_entry-set_other k l v es h = rw h (find_entry-erase_other k l es h)
