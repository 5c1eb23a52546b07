-- ===== src/Parser/Enum/Values.antt =====
-- The values that parse_enum_data and parse_enum assign to items without one.
use mathlib.Core.Path.{subst}
use openradtool.Base.{
  ℕ, ◌+◌, ◌≤◌, ◌<◌, inl, inr, ◌≡◌, ◌≢◌, refl, sym, ap, ◌∙◌, true, false, not, ◌&&◌, some, List, [],
  ◌∷◌, ◌==◌, Bool-cases, some_inj, All, arith, ℤ, pos, negsuc,
}
use openradtool.Model.{Eitem}
use openradtool.Parser.Assign.{
  int64_max, int_eq, int_gt, greatest, successor, Assigned, assign_below,
}

abbrev pub ValuesDiffer : Eitem → Eitem → Type 0
ValuesDiffer x y = x.value ≢ y.value

int_eq_refl : (v : ℤ) → int_eq v v ≡ true
int_eq_refl (pos m) = ground arith
int_eq_refl (negsuc m) = ground arith

pub int_eq-ne : (v w : ℤ) → int_eq v w ≡ false → v ≢ w
int_eq-ne v w h e = let same = ap (int_eq v) (sym e) in ground (arith, int_eq_refl v, same, h)

int_gt_trans : (a b c : ℤ) → int_gt a b ≡ false → int_gt b c ≡ false → int_gt a c ≡ false
int_gt_trans (pos a) (pos b) (pos c) h k = ground arith
int_gt_trans (pos a) (pos b) (negsuc c) h k = ground arith
int_gt_trans (pos a) (negsuc b) (pos c) h k = ground arith
int_gt_trans (pos a) (negsuc b) (negsuc c) h k = ground arith
int_gt_trans (negsuc a) (pos b) (pos c) h k = refl
int_gt_trans (negsuc a) (pos b) (negsuc c) h k = ground arith
int_gt_trans (negsuc a) (negsuc b) (pos c) h k = refl
int_gt_trans (negsuc a) (negsuc b) (negsuc c) h k = ground arith

int_gt_asym : (a b : ℤ) → int_gt a b ≡ true → int_gt b a ≡ false
int_gt_asym (pos a) (pos b) h = ground arith
int_gt_asym (pos a) (negsuc b) h = refl
int_gt_asym (negsuc a) (pos b) h = ground arith
int_gt_asym (negsuc a) (negsuc b) h = ground arith

int_gt_irrefl : (a : ℤ) → int_gt a a ≡ false
int_gt_irrefl (pos a) = ground arith
int_gt_irrefl (negsuc a) = ground arith

-- No value that is given is above `g`.
abbrev pub AtMost : ℤ → Eitem → Type 0
AtMost g x = (not x.auto && int_gt x.value g) ≡ false

greatest-start : (es : List Eitem) (m : ℤ) → int_gt m (greatest es m) ≡ false
unfolding greatest
greatest-start [] m = int_gt_irrefl m
greatest-start (x ∷ es) m = elim (Bool-cases (not x.auto && int_gt x.value m)) [
  | inl h ↦ rw h (
      int_gt_trans m x.value (greatest es x.value) (int_gt_asym x.value m (ground (arith, h)))
        (greatest-start es x.value))
  | inr h ↦ rw h (greatest-start es m)
]

pub greatest-take :
    (x : Eitem) (es : List Eitem) (m : ℤ)
    → (not x.auto && int_gt x.value m) ≡ true
    → greatest (x ∷ es) m ≡ greatest es x.value
unfolding greatest
greatest-take x es m h = rw h refl

pub greatest-pass :
    (x : Eitem) (es : List Eitem) (m : ℤ)
    → (not x.auto && int_gt x.value m) ≡ false
    → greatest (x ∷ es) m ≡ greatest es m
unfolding greatest
greatest-pass x es m h = rw h refl

pub greatest-AtMost : (es : List Eitem) (m : ℤ) → All (AtMost (greatest es m)) es
greatest-AtMost [] m = tt
greatest-AtMost (x ∷ es) m = elim (Bool-cases (not x.auto && int_gt x.value m)) [
  | inl h ↦
      subst (λ g. All (AtMost g) (x ∷ es)) (sym (greatest-take x es m h))
        (ground (arith, greatest-start es x.value), greatest-AtMost es x.value)
  | inr h ↦
      let low : AtMost (greatest es m) x = elim (Bool-cases x.auto) [
        | inl a ↦ ground (arith, a)
        | inr a ↦
            let le =
              int_gt_trans x.value m (greatest es m) (ground (arith, h, a)) (greatest-start es m) in
            ground (arith, le)
      ] in
      subst (λ g. All (AtMost g) (x ∷ es)) (sym (greatest-pass x es m h))
        (low, greatest-AtMost es m)
]

-- The value is below the number.
abbrev pub Under : ℕ → ℤ → Type 0
Under m (pos n) = n < m
Under m (negsuc n) = Unit

pub successor-Under : (g v : ℤ) (m : ℕ) → successor g ≡ some m → int_gt v g ≡ false → Under m v
unfolding successor
successor-Under g (negsuc n) m e h = tt
successor-Under (negsuc g) (pos n) m e h = ground arith
successor-Under (pos g) (pos n) m e h =
    let small : (g == int64_max) ≡ false = ground (arith, e) in
    let next : g + 1 ≡ m = some_inj (rw small at e) in ground (arith, next, h)

pub Under-ne : (m k : ℕ) (v : ℤ) → Under m v → m ≤ k → v ≢ pos k
Under-ne m k (pos n) h l e = let same : n ≡ k = cc in omega (arith, h, l, same)
Under-ne m k (negsuc n) h l e = cc

-- The items with a value put before them.
abbrev pub put : Eitem → Assigned → Assigned
put x a = record { items = x ∷ a.items; within = a.within }

assign_below-auto :
    (m : ℕ) (x : Eitem) (es : List Eitem)
    → (m == int64_max) ≡ false
    → x.auto ≡ true
    → assign_below m (x ∷ es) ≡ put (record x { value = pos m }) (assign_below (m + 1) es)
unfolding assign_below
assign_below-auto m x es room a = rw (room, a) refl

assign_below-given :
    (m : ℕ) (x : Eitem) (es : List Eitem)
    → (m == int64_max) ≡ false
    → x.auto ≡ false
    → assign_below m (x ∷ es) ≡ put x (assign_below m es)
unfolding assign_below
assign_below-given m x es room a = rw (room, a) refl

assign_below-room :
    (m : ℕ) (x : Eitem) (es : List Eitem)
    → (assign_below m (x ∷ es)).within ≡ true
    → (m == int64_max) ≡ false
unfolding assign_below
assign_below-room m x es w = ground (arith, w)

-- Items with values from `m` on: none; an item that is given one, or that has one.
pub data Run : ℕ → List Eitem → Assigned → Type 0 where
  run_nil : (m : ℕ) → Run m [] (record { items = []; within = true })
  run_auto :
      (m : ℕ) (x : Eitem) (es : List Eitem) (a : Assigned)
      → (m == int64_max) ≡ false
      → x.auto ≡ true
      → Run (m + 1) es a
      → Run m (x ∷ es) (put (record x { value = pos m }) a)
  run_given :
      (m : ℕ) (x : Eitem) (es : List Eitem) (a : Assigned)
      → (m == int64_max) ≡ false
      → x.auto ≡ false
      → Run m es a
      → Run m (x ∷ es) (put x a)

pub assign_below-Run :
    (m : ℕ) (es : List Eitem) → (assign_below m es).within ≡ true → Run m es (assign_below m es)
unfolding assign_below
assign_below-Run m [] w = run_nil m
assign_below-Run m (x ∷ es) w =
    let room = assign_below-room m x es w in
    elim (Bool-cases x.auto) [
      | inl a ↦
          let e = assign_below-auto m x es room a in
          let r = assign_below-Run (m + 1) es (ap (λ r. r.within) (sym e) ∙ w) in
          subst (Run m (x ∷ es)) (sym e) (run_auto m x es _ room a r)
      | inr a ↦
          let e = assign_below-given m x es room a in
          let r = assign_below-Run m es (ap (λ r. r.within) (sym e) ∙ w) in
          subst (Run m (x ∷ es)) (sym e) (run_given m x es _ room a r)
    ]

-- What holds of the given values, and of the values from `b` on, holds of the assigned items.
pub Run-All :
    (P : Eitem → Type 0) (b m : ℕ) (es : List Eitem) (a : Assigned)
    → Run m es a
    → b ≤ m
    → All
        (λ x.
          (x.auto ≡ false → P x)
          × ((k : ℕ) → b ≤ k → (k == int64_max) ≡ false → P (record x { value = pos k })))
        es
    → All P a.items
Run-All P b m es a (run_nil _) le h = tt
Run-All P b m es a (run_auto _ x es' a' room auto r) le h =
    (h.0.1 m le room, Run-All P b (m + 1) es' a' r (omega (arith, le)) h.1)
Run-All P b m es a (run_given _ x es' a' room given r) le h =
    (h.0.0 given, Run-All P b m es' a' r le h.1)
