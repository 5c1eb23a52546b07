-- ===== src/Model/Outcome.antt =====
-- The result of a linker pass over a state: non-zero (`ok`) and zero (`fail`), each with the state
-- that it leaves, a run into a false assertion or a NULL pointer (`fault`), and a recursion deeper
-- than the fuel of the model.
use mathlib.Core.Path.{subst}
use openradtool.Base.{◌≡◌, ◌≢◌, refl, ◌⊎◌, inl, inr, Bool, true, false, if◌then◌else◌}

pub data Outcome {ℓ} (S : Type ℓ) : Type ℓ where
  ok : S → Outcome S
  fail : S → Outcome S
  fault : Outcome S
  out_of_fuel : Outcome S

infixl 5 ◌>>=◌
abbrev pub ◌>>=◌ {ℓ} : {S : Type ℓ} → Outcome S → (S → Outcome S) → Outcome S
ok s >>= f = f s
fail s >>= f = fail s
fault >>= f = fault
out_of_fuel >>= f = out_of_fuel

-- A caller that goes on behind either result.
abbrev pub on_return {ℓ κ} :
    {S : Type ℓ} {T : Type κ} → Outcome S → (S → Outcome T) → (S → Outcome T) → Outcome T
on_return (ok s) f g = f s
on_return (fail s) f g = g s
on_return fault f g = fault
on_return out_of_fuel f g = out_of_fuel

pub bind-eq-ok {ℓ} :
    {S : Type ℓ} (m : Outcome S) (f : S → Outcome S) {t : S}
    → (m >>= f) ≡ ok t
    → (s : S) × (m ≡ ok s) × (f s ≡ ok t)
bind-eq-ok (ok s) f h = (s, refl, h)
bind-eq-ok (fail s) f h = cc
bind-eq-ok fault f h = cc
bind-eq-ok out_of_fuel f h = cc

pub bind-eq-fail {ℓ} :
    {S : Type ℓ} (m : Outcome S) (f : S → Outcome S) {t : S}
    → (m >>= f) ≡ fail t
    → (m ≡ fail t) ⊎ ((s : S) × (m ≡ ok s) × (f s ≡ fail t))
bind-eq-fail (ok s) f h = inr (s, refl, h)
bind-eq-fail (fail s) f h = inl h
bind-eq-fail fault f h = cc
bind-eq-fail out_of_fuel f h = cc

pub Outcome-cases {ℓ} :
    {S : Type ℓ} (m : Outcome S)
    → ((s : S) × (m ≡ ok s)) ⊎ ((s : S) × (m ≡ fail s)) ⊎ (m ≡ fault) ⊎ (m ≡ out_of_fuel)
Outcome-cases (ok s) = inl (s, refl)
Outcome-cases (fail s) = inr (inl (s, refl))
Outcome-cases fault = inr (inr (inl refl))
Outcome-cases out_of_fuel = inr (inr (inr refl))

pub bind-eq-out_of_fuel {ℓ} :
    {S : Type ℓ} (m : Outcome S) (f : S → Outcome S)
    → (m >>= f) ≡ out_of_fuel
    → (m ≡ out_of_fuel) ⊎ ((s : S) × (m ≡ ok s) × (f s ≡ out_of_fuel))
bind-eq-out_of_fuel (ok s) f h = inr (s, refl, h)
bind-eq-out_of_fuel (fail s) f h = cc
bind-eq-out_of_fuel fault f h = cc
bind-eq-out_of_fuel out_of_fuel f h = inl refl

pub ok-injective {ℓ} : {S : Type ℓ} {s t : S} → ok s ≡ ok t → s ≡ t
ok-injective h = cc

pub fail-injective {ℓ} : {S : Type ℓ} {s t : S} → fail s ≡ fail t → s ≡ t
fail-injective h = cc

pub fail-ne-ok {ℓ} : {S : Type ℓ} {s t : S} → fail s ≢ ok t
fail-ne-ok h = cc

pub fault-ne-ok {ℓ} : {S : Type ℓ} {t : S} → fault ≢ ok t
fault-ne-ok h = cc

-- The result with its state carried over to another.
abbrev pub map_state {ℓ κ} : {S : Type ℓ} {T : Type κ} → (S → T) → Outcome S → Outcome T
map_state f (ok s) = ok (f s)
map_state f (fail s) = fail (f s)
map_state f fault = fault
map_state f out_of_fuel = out_of_fuel

pub map_state-eq-ok {ℓ κ} :
    {S : Type ℓ} {T : Type κ} (f : S → T) (m : Outcome S) {t : T}
    → map_state f m ≡ ok t
    → (s : S) × (m ≡ ok s) × (f s ≡ t)
map_state-eq-ok f (ok s) h = (s, refl, ok-injective h)
map_state-eq-ok f (fail s) h = cc
map_state-eq-ok f fault h = cc
map_state-eq-ok f out_of_fuel h = cc

pub map_state-ne-out_of_fuel {ℓ κ} :
    {S : Type ℓ} {T : Type κ} (f : S → T) (m : Outcome S)
    → m ≢ out_of_fuel
    → map_state f m ≢ out_of_fuel
map_state-ne-out_of_fuel f (ok s) ne h = cc
map_state-ne-out_of_fuel f (fail s) ne h = cc
map_state-ne-out_of_fuel f fault ne h = cc
map_state-ne-out_of_fuel f out_of_fuel ne h = ne refl

-- What the states of the two results satisfy, if there is a result.
pub data Returns {S : Type 0} (P Q : S → Type 0) : Outcome S → Type 0 where
  returns_ok : (s : S) → P s → Returns P Q (ok s)
  returns_fail : (s : S) → Q s → Returns P Q (fail s)
  returns_fault : Returns P Q fault
  returns_none : Returns P Q out_of_fuel

pub Returns-return :
    {S T : Type 0} {P Q : S → Type 0} {P' Q' : T → Type 0} (m : Outcome S) (f g : S → Outcome T)
    → Returns P Q m
    → ((s : S) → P s → Returns P' Q' (f s))
    → ((s : S) → Q s → Returns P' Q' (g s))
    → Returns P' Q' (on_return m f g)
Returns-return m f g (returns_ok s p) h k = h s p
Returns-return m f g (returns_fail s p) h k = k s p
Returns-return m f g returns_fault h k = returns_fault
Returns-return m f g returns_none h k = returns_none

pub Returns-if :
    {S : Type 0} {P Q : S → Type 0} {m n : Outcome S} (b : Bool)
    → (b ≡ true → Returns P Q m)
    → (b ≡ false → Returns P Q n)
    → Returns P Q (if b then m else n)
Returns-if true h k = h refl
Returns-if false h k = k refl

pub Returns-ok :
    {S : Type 0} {P Q : S → Type 0} (m : Outcome S) {s : S} → Returns P Q m → m ≡ ok s → P s
Returns-ok {P = P} m (returns_ok s p) h = subst P (ok-injective h) p
Returns-ok m (returns_fail s p) h = cc
Returns-ok m returns_fault h = cc
Returns-ok m returns_none h = cc

pub Returns-fail :
    {S : Type 0} {P Q : S → Type 0} (m : Outcome S) {s : S} → Returns P Q m → m ≡ fail s → Q s
Returns-fail m (returns_ok s p) h = cc
Returns-fail {Q = Q} m (returns_fail s q) h = subst Q (fail-injective h) q
Returns-fail m returns_fault h = cc
Returns-fail m returns_none h = cc

pub ok-ne-out_of_fuel {ℓ} : {S : Type ℓ} {s : S} → ok s ≢ out_of_fuel
ok-ne-out_of_fuel h = cc

pub fail-ne-out_of_fuel {ℓ} : {S : Type ℓ} {s : S} → fail s ≢ out_of_fuel
fail-ne-out_of_fuel h = cc

pub on_return-ends {ℓ κ} :
    {S : Type ℓ} {T : Type κ} (m : Outcome S) (f g : S → Outcome T)
    → m ≢ out_of_fuel
    → ((s : S) → f s ≢ out_of_fuel)
    → ((s : S) → g s ≢ out_of_fuel)
    → on_return m f g ≢ out_of_fuel
on_return-ends (ok s) f g h k l e = k s e
on_return-ends (fail s) f g h k l e = l s e
on_return-ends fault f g h k l e = cc
on_return-ends out_of_fuel f g h k l e = h refl
