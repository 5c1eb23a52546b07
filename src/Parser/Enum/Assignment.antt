-- ===== src/Parser/Enum/Assignment.antt =====
-- Lemmas on items whose values are assigned, by parse_enum_data and again by parse_enum.
use openradtool.Base.{
  ℕ, ◌+◌, inl, inr, ◌≡◌, ◌≢◌, refl, sym, ap, ◌∙◌, false, not, ◌&&◌, some, List, [], ◌∷◌, strcaseeq,
  Bool-cases, true-ne-false, All, All-map, Pairwise, arith, ℤ, pos, negsuc,
}
use openradtool.Model.{Eitem}
use openradtool.Parser.Assign.{
  int64_max, int_eq, int_gt, greatest, successor, Assigned, assign_all, found_value, assign_again,
}
use openradtool.Parser.Item.{is_extreme}
use openradtool.Parser.Enum.Items.{NamesApart, ValuesApart, Moderate, any_auto, Wellformed}
use openradtool.Parser.Enum.Values.{
  ValuesDiffer, int_eq-ne, greatest-AtMost, Under, successor-Under, Under-ne, Run, run_nil,
  run_auto, run_given, Run-All, greatest-take, greatest-pass,
}

Under-suc : (m : ℕ) (v : ℤ) → Under m v → Under (m + 1) v
Under-suc m (pos n) h = omega (arith, h)
Under-suc m (negsuc n) h = tt

Run-values :
    (m : ℕ) (es : List Eitem) (a : Assigned)
    → Run m es a
    → Pairwise ValuesApart es
    → All (λ x. x.auto ≡ false → Under m x.value) es
    → Pairwise ValuesDiffer a.items
Run-values m es a (run_nil _) w u = tt
Run-values m es a (run_auto _ x es' a' room auto r) w u = (
  Run-All (λ z. pos m ≢ z.value) (m + 1) (m + 1) es' a' r (omega arith)
      (All-map _ _ es'
        (λ z h. (
          λ given e. Under-ne m m z.value (h given) (omega arith) (sym e),
          λ k le full e. let same : m ≡ k = cc in omega (arith, le, same),
        ))
        u.1),
  Run-values (m + 1) es' a' r w.1
      (All-map _ _ es' (λ z h given. Under-suc m z.value (h given)) u.1),
)
Run-values m es a (run_given _ x es' a' room given r) w u = (
  Run-All (λ z. x.value ≢ z.value) m m es' a' r (omega arith)
      (All-map _ _ es'
        (λ z h. (
          λ given' e. int_eq-ne z.value x.value (ground (arith, h, given, given')) (sym e),
          λ k le full. Under-ne m k x.value (u.0 given) le,
        ))
        w.0),
  Run-values m es' a' r w.1 u.1,
)

Run-names :
    (m : ℕ) (es : List Eitem) (a : Assigned)
    → Run m es a
    → Pairwise NamesApart es
    → Pairwise NamesApart a.items
Run-names m es a (run_nil _) w = tt
Run-names m es a (run_auto _ x es' a' room auto r) w = (
  Run-All (λ z. strcaseeq x.name z.name ≡ false) (m + 1) (m + 1) es' a' r (omega arith)
      (All-map _ _ es' (λ z h. (λ given. h, λ k le full. h)) w.0),
  Run-names (m + 1) es' a' r w.1,
)
Run-names m es a (run_given _ x es' a' room given r) w = (
  Run-All (λ z. strcaseeq x.name z.name ≡ false) m m es' a' r (omega arith)
      (All-map _ _ es' (λ z h. (λ given. h, λ k le full. h)) w.0),
  Run-names m es' a' r w.1,
)

-- A value that is neither INT64_MAX nor INT64_MIN.
abbrev pub Inside : Eitem → Type 0
Inside x = (x.value ≢ pos int64_max) × (x.value ≢ negsuc int64_max)

inside : (v : ℤ) → is_extreme v ≡ false → (v ≢ pos int64_max) × (v ≢ negsuc int64_max)
unfolding is_extreme
inside v h =
    (λ e. true-ne-false (ap is_extreme (sym e) ∙ h), λ e. true-ne-false (ap is_extreme (sym e) ∙ h))

Run-Inside :
    (m : ℕ) (es : List Eitem) (a : Assigned) → Run m es a → All Moderate es → All Inside a.items
unfolding is_extreme
Run-Inside m es a r w = Run-All Inside m m es a r (omega arith) (
    All-map _ _ es (λ z h. (λ given. ground (arith, h, given), λ k le full. ground (arith, full)))
      w)

Run-greatest :
    (m : ℕ) (es : List Eitem) (a : Assigned) (v : ℤ)
    → Run m es a
    → greatest a.items v ≡ greatest es v
Run-greatest m es a v (run_nil _) = refl
Run-greatest m es a v (run_auto _ x es' a' room auto r) =
    greatest-pass (record x { value = pos m }) a'.items v (ground (arith, auto))
    ∙ Run-greatest (m + 1) es' a' v r
    ∙ sym (greatest-pass x es' v (ground (arith, auto)))
Run-greatest m es a v (run_given _ x es' a' room given r) =
    elim (Bool-cases (not x.auto && int_gt x.value v)) [
      | inl h ↦
          greatest-take x a'.items v h
          ∙ Run-greatest m es' a' x.value r
          ∙ sym (greatest-take x es' v h)
      | inr h ↦
          greatest-pass x a'.items v h ∙ Run-greatest m es' a' v r ∙ sym (greatest-pass x es' v h)
    ]

Run-assign_all :
    (m : ℕ) (es : List Eitem) (a : Assigned) → Run m es a → assign_all m a.items ≡ some a.items
unfolding assign_all
Run-assign_all m es a (run_nil _) = refl
Run-assign_all m es a (run_auto _ x es' a' room auto r) =
    rw (auto, room, Run-assign_all (m + 1) es' a' r)
      (ap (λ b. some (record x { value = pos m; auto = b } ∷ a'.items)) auto)
Run-assign_all m es a (run_given _ x es' a' room given r) =
    rw (given, Run-assign_all m es' a' r) (ap (λ b. some (record x { auto = b } ∷ a'.items)) given)

-- The second assignment changes nothing behind the first.
pub assign_again-Run :
    (m : ℕ) (es : List Eitem) (a : Assigned)
    → successor (greatest es (negsuc int64_max)) ≡ some m
    → Run m es a
    → assign_again a.items ≡ some a.items
unfolding assign_again
assign_again-Run m es a e r = elim (Bool-cases (found_value a.items)) [
  | inl f ↦
      let same = ap successor (Run-greatest m es a (negsuc int64_max) r) ∙ e in
      rw (f, same, assign_again) (Run-assign_all m es a r)
  | inr f ↦ rw f refl
]

greatest-Moderate :
    (es : List Eitem) (v : ℤ)
    → int_eq v (pos int64_max) ≡ false
    → All Moderate es
    → int_eq (greatest es v) (pos int64_max) ≡ false
unfolding greatest is_extreme
greatest-Moderate [] v h w = h
greatest-Moderate (x ∷ es) v h w = elim (Bool-cases (not x.auto && int_gt x.value v)) [
  | inl t ↦ rw t (greatest-Moderate es x.value (ground (arith, w.0, t)) w.1)
  | inr t ↦ rw t (greatest-Moderate es v h w.1)
]

successor-Moderate : (v : ℤ) → int_eq v (pos int64_max) ≡ false → (m : ℕ) × (successor v ≡ some m)
unfolding successor
successor-Moderate (pos n) h = (n + 1, rw h refl)
successor-Moderate (negsuc n) h = (0, refl)

assign_all-given : (m : ℕ) (es : List Eitem) → any_auto es ≡ false → assign_all m es ≡ some es
unfolding assign_all any_auto
assign_all-given m [] h = refl
assign_all-given m (x ∷ es) h =
    let given : x.auto ≡ false = ground (arith, h) in
    let rest : any_auto es ≡ false = ground (arith, h) in
    rw (given, assign_all-given m es rest) (ap (λ b. some (record x { auto = b } ∷ es)) given)

-- It changes nothing where every value is given.
pub assign_again-given :
    (es : List Eitem) → any_auto es ≡ false → All Moderate es → assign_again es ≡ some es
unfolding assign_again
assign_again-given es h w = elim (Bool-cases (found_value es)) [
  | inl f ↦
      let a =
        successor-Moderate (greatest es (negsuc int64_max))
          (greatest-Moderate es (negsuc int64_max) refl w) in
      rw (f, a.1, assign_again) (assign_all-given a.0 es h)
  | inr f ↦ rw f refl
]

-- The items of an enumeration that is accepted.
pub record Accepted (es : List Eitem) : Type 0 where
  pub names : Pairwise NamesApart es
  pub values : Pairwise ValuesDiffer es
  pub inside : All Inside es

pub Run-Accepted :
    (m : ℕ) (es : List Eitem) (a : Assigned)
    → successor (greatest es (negsuc int64_max)) ≡ some m
    → Run m es a
    → Wellformed es
    → Accepted a.items
Run-Accepted m es a e r w = record {
  names = Run-names m es a r w.names;
  values = Run-values m es a r w.values (
      All-map _ _ es
        (λ x h given.
          successor-Under (greatest es (negsuc int64_max)) x.value m e (ground (arith, h, given)))
        (greatest-AtMost es (negsuc int64_max)));
  inside = Run-Inside m es a r w.moderate;
}

given-Inside : (es : List Eitem) → any_auto es ≡ false → All Moderate es → All Inside es
unfolding any_auto
given-Inside [] h w = tt
given-Inside (x ∷ es) h w =
    (inside x.value (ground (arith, h, w.0)), given-Inside es (ground (arith, h)) w.1)

given-ne :
    (x : Eitem) (es : List Eitem)
    → x.auto ≡ false
    → any_auto es ≡ false
    → All (ValuesApart x) es
    → All (ValuesDiffer x) es
unfolding any_auto
given-ne x [] g h w = tt
given-ne x (y ∷ es) g h w = (
  λ e. int_eq-ne y.value x.value (ground (arith, g, h, w.0)) (sym e),
  given-ne x es g (ground (arith, h)) w.1,
)

given-values :
    (es : List Eitem) → any_auto es ≡ false → Pairwise ValuesApart es → Pairwise ValuesDiffer es
unfolding any_auto
given-values [] h w = tt
given-values (x ∷ es) h w = (
  given-ne x es (ground (arith, h)) (ground (arith, h)) w.0,
  given-values es (ground (arith, h)) w.1,
)

pub given-Accepted : (es : List Eitem) → any_auto es ≡ false → Wellformed es → Accepted es
given-Accepted es h w = record {
  names = w.names;
  values = given-values es h w.values;
  inside = given-Inside es h w.moderate;
}
