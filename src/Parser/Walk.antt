-- ===== src/Parser/Walk.antt =====
-- The loops of `IpfixParser` over the records of a set, and over the sets of a message: a pointer
-- moves on until the code leaves the loop.
use vermont.Base.{
  ℕ, zero, suc, ◌-◌, ◌≤◌, ◌<◌, ◌≡◌, refl, Outcome, ok, out_of_bounds, overflow, out_of_fuel, ◌>>=◌,
  arith,
}

-- One round: go on at a pointer, or leave the loop.
pub data Round {ℓ} (S : Type ℓ) : Type ℓ where
  more : ℕ → S → Round S
  finished : S → Round S

module _ {ℓ} {S : Type ℓ} (body : ℕ → S → Outcome (Round S)) where
  unfoldable pub walk : ℕ → ℕ → S → Outcome S
  walk zero p s = out_of_fuel
  walk (suc fuel) p s = do
    round ← body p s
    elim round [ more p' s' ↦ walk fuel p' s' | finished s' ↦ ok s' ]

-- `W` says whether the code may write beyond a buffer: `⊥` if it never does.
module _ {ℓ} {S : Type ℓ} (W : Type 0) (Inv : S → Type 0) where
  -- The loop ends, without a fault, in a state with the invariant.
  abbrev pub Ends : Outcome S → Type 0
  Ends (ok s) = Inv s
  Ends out_of_bounds = ⊥
  Ends overflow = W
  Ends out_of_fuel = ⊥

  -- A round gets on, and not beyond `end`, or leaves the loop; the invariant holds after it.
  abbrev pub Advances : ℕ → ℕ → Outcome (Round S) → Type 0
  Advances end p (ok (more p' s)) = (p < p') × (p' ≤ end) × Inv s
  Advances end p (ok (finished s)) = Inv s
  Advances end p out_of_bounds = ⊥
  Advances end p overflow = W
  Advances end p out_of_fuel = ⊥

module _ {ℓ} {S : Type ℓ} (Inv : S → Type 0) where
  -- Nothing is read beyond a buffer, and the invariant holds where the code returns.
  abbrev pub IsSafe : Outcome S → Type 0
  IsSafe (ok s) = Inv s
  IsSafe out_of_bounds = ⊥
  IsSafe overflow = Unit
  IsSafe out_of_fuel = Unit

  abbrev pub IsSafeRound : Outcome (Round S) → Type 0
  IsSafeRound (ok (more p s)) = Inv s
  IsSafeRound (ok (finished s)) = Inv s
  IsSafeRound out_of_bounds = ⊥
  IsSafeRound overflow = Unit
  IsSafeRound out_of_fuel = Unit

-- A loop that ends is safe.
pub Ends-IsSafe {ℓ} :
    {S : Type ℓ} (W : Type 0) (P Q : S → Type 0)
    → ((s : S) → P s → Q s)
    → (r : Outcome S) → Ends W P r
    → IsSafe Q r
Ends-IsSafe W P Q f (ok s) h = f s h
Ends-IsSafe W P Q f out_of_bounds h = h
Ends-IsSafe W P Q f overflow h = tt
Ends-IsSafe W P Q f out_of_fuel h = tt

-- Safety of a step that follows another.
pub >>=-IsSafe {ℓ κ} :
    {S : Type ℓ} {T : Type κ} (P : S → Type 0) (Q : T → Type 0) (f : S → Outcome T) (r : Outcome S)
    → ((s : S) → P s → IsSafe Q (f s))
    → IsSafe P r
    → IsSafe Q (r >>= f)
>>=-IsSafe P Q f (ok s) k h = k s h
>>=-IsSafe P Q f out_of_bounds k h = absurd h
>>=-IsSafe P Q f overflow k h = tt
>>=-IsSafe P Q f out_of_fuel k h = tt

-- A loop whose rounds are safe is safe.
pub walk-IsSafe {ℓ} :
    {S : Type ℓ} (Inv : S → Type 0) (body : ℕ → S → Outcome (Round S))
    → ((p : ℕ) (s : S) → Inv s → IsSafeRound Inv (body p s))
    → (fuel p : ℕ) (s : S) → Inv s
    → IsSafe Inv (walk body fuel p s)
unfolding walk
walk-IsSafe Inv body step zero p s i = tt
walk-IsSafe {S = S} Inv body step (suc fuel) p s i =
    go (body p s) (step p s i) (λ p' s' k. walk-IsSafe Inv body step fuel p' s' k)
  where
    go :
        (r : Outcome (Round S))
        → IsSafeRound Inv r
        → ((p' : ℕ) (s' : S) → Inv s' → IsSafe Inv (walk body fuel p' s'))
        → IsSafe Inv
            (r >>= λ round. elim round [ more p' s' ↦ walk body fuel p' s' | finished s' ↦ ok s' ])
    go (ok (more p' s')) k rec = rec p' s' k
    go (ok (finished s')) k rec = k
    go out_of_bounds k rec = absurd k
    go overflow k rec = tt
    go out_of_fuel k rec = tt

-- A loop whose rounds advance, from `start` on, ends, given fuel for the bytes that are left.
pub walk-Ends {ℓ} :
    {S : Type ℓ} (W : Type 0) (Inv : S → Type 0) (body : ℕ → S → Outcome (Round S)) (start end : ℕ)
    → ((p : ℕ) (s : S) → start ≤ p → Inv s → Advances W Inv end p (body p s))
    → (fuel p : ℕ) (s : S) → end - p < fuel
    → start ≤ p
    → Inv s
    → Ends W Inv (walk body fuel p s)
unfolding walk
walk-Ends W Inv body start end step zero p s h b i = absurd (omega arith)
walk-Ends {S = S} W Inv body start end step (suc fuel) p s h b i =
    go (body p s) (step p s b i)
      (λ p' s' lt c k. walk-Ends W Inv body start end step fuel p' s' lt c k)
  where
    go :
        (r : Outcome (Round S))
        → Advances W Inv end p r
        → ((p' : ℕ) (s' : S)
            → end - p' < fuel
            → start ≤ p'
            → Inv s'
            → Ends W Inv (walk body fuel p' s'))
        → Ends W Inv
            (r >>= λ round. elim round [ more p' s' ↦ walk body fuel p' s' | finished s' ↦ ok s' ])
    go (ok (more p' s')) k rec = rec p' s' (omega arith) (omega arith) k.2
    go (ok (finished s')) k rec = k
    go out_of_bounds k rec = k
    go overflow k rec = k
    go out_of_fuel k rec = k

-- A loop whose every round stays at the pointer never ends.
pub walk-stuck {ℓ} :
    {S : Type ℓ} (body : ℕ → S → Outcome (Round S)) (p : ℕ)
    → ((s : S) → (s' : S) × (body p s ≡ ok (more p s')))
    → (fuel : ℕ) (s : S) → walk body fuel p s ≡ out_of_fuel
unfolding walk
walk-stuck body p stay zero s = refl
walk-stuck body p stay (suc fuel) s = let (s', e) = stay s in rw e (walk-stuck body p stay fuel s')
