-- ===== src/Linker/Order/Marks.antt =====
-- What annotate leaves: the colours, the heights, and the references as they were.
use mathlib.Core.Path.{subst}
use openradtool.Base.{
  some_inj, if◌then◌else◌, ℕ, zero, suc, ◌+◌, ◌≡◌, ◌≢◌, inl, inr, sym, ap, ◌∙◌, true, false, some,
  List, [], ◌∷◌, ◌==◌, ==_iff, In, Bool-cases, Option-cases,
}
use openradtool.Model.{Config}
use openradtool.Model.Outcome.{Outcome, ok, out_of_fuel, bind-eq-ok, ok-injective, fault-ne-ok}
use openradtool.Linker.Graph.{graph, is_struct, target_parent}
use openradtool.Linker.Order.{with_target, each_target, mark, annotate}
use openradtool.Linker.Order.Visits.{
  Visits, Visits-refl, Visits-trans, Visits-lower, Visits-keep, mark_self, mark-Visits,
}

-- Every structure that a field of `fs` refers to has the colour.
abbrev pub Coloured : Config → ℕ → List ℕ → Type 0
Coloured cfg colour fs =
    (f q : ℕ)
    → In f fs
    → is_struct (cfg.field f).type ≡ true
    → target_parent (graph cfg) f ≡ some q
    → (cfg.strct q).colour ≡ colour

-- annotate at `p` with the height and the colour has turned `cfg` into `cfg'`.
pub record Annotated (height colour p : ℕ) (cfg cfg' : Config) : Type 0 where
  pub visits : Visits height colour cfg cfg'
  pub coloured : (cfg'.strct p).colour ≡ colour
  pub raised : (cfg.strct p).colour ≢ colour → (cfg'.strct p).height ≡ (cfg.strct p).height + height
  pub targets : (cfg.strct p).colour ≢ colour → Coloured cfg' colour (cfg.strct p).fq

with_target-ok :
    (call : ℕ → Config → Outcome Config) (f : ℕ) (cfg cfg' : Config)
    → with_target call (target_parent (graph cfg) f) cfg ≡ ok cfg'
    → (q : ℕ) × (target_parent (graph cfg) f ≡ some q) × (call q cfg ≡ ok cfg')
unfolding with_target
with_target-ok call f cfg cfg' h = elim (Option-cases (target_parent (graph cfg) f)) [
  | inl e ↦ absurd (fault-ne-ok (rw (e, with_target) at h))
  | inr (q, e) ↦ (q, e, rw (e, with_target) at h)
]

-- The loop over fields, where the calls visit and colour.
record Walked (h c : ℕ) (fs : List ℕ) (cfg cfg' : Config) : Type 0 where
  visits : Visits h c cfg cfg'
  targets : Coloured cfg' c fs

Walked-skip :
    (h c f : ℕ) (fs : List ℕ) (a b : Config)
    → is_struct (a.field f).type ≡ false
    → Walked h c fs a b
    → Walked h c (f ∷ fs) a b
Walked-skip h c f fs a b n w = record {
  visits = w.visits;
  targets = λ g q m t k. elim m [
    | inr m' ↦ w.targets g q m' t k
    | inl y ↦
        let type_kept = ap (λ x. is_struct (x.field g).type) w.visits.graph_kept in
        absurd (cc (sym t ∙ type_kept ∙ ap (λ x. is_struct (a.field x).type) y ∙ n))
  ];
}

Walked-call :
    (h c f q : ℕ) (fs : List ℕ) (a b d : Config)
    → target_parent (graph a) f ≡ some q
    → Visits h c a b
    → (b.strct q).colour ≡ c
    → Walked h c fs b d
    → Walked h c (f ∷ fs) a d
Walked-call h c f q fs a b d e v col w =
    let both = Visits-trans h c a b d v w.visits in
    record {
      visits = both;
      targets = λ g r m t k. elim m [
        | inr m' ↦ w.targets g r m' t k
        | inl y ↦
            let k' = ap (λ x. target_parent x g) (sym both.graph_kept) ∙ k in
            let same : q ≡ r = some_inj (sym e ∙ ap (target_parent (graph a)) (sym y) ∙ k') in
            let kept = Visits-keep h c b d w.visits q col in
            subst (λ x. (d.strct x).colour ≡ c) same (ap (λ x. x.colour) kept ∙ col)
      ];
    }

each_target-Walked :
    (h c : ℕ) (call : ℕ → Config → Outcome Config) (fs : List ℕ) (cfg cfg' : Config)
    → ((q : ℕ) (a b : Config) → call q a ≡ ok b → Visits h c a b × ((b.strct q).colour ≡ c))
    → each_target call fs cfg ≡ ok cfg'
    → Walked h c fs cfg cfg'
unfolding each_target
each_target-Walked h c call [] cfg cfg' calls e = record {
  visits = subst (λ x. Visits h c cfg x) (ok-injective e) (Visits-refl h c cfg);
  targets = λ f q m. absurd m;
}
each_target-Walked h c call (f ∷ fs) cfg cfg' calls e =
    let here =
      if is_struct (cfg.field f).type
      then with_target call (target_parent (graph cfg) f) cfg
      else ok cfg in
    let b = bind-eq-ok here (each_target call fs) e in
    let rest = each_target-Walked h c call fs b.0 cfg' calls b.2 in
    elim (Bool-cases (is_struct (cfg.field f).type)) [
      | inr n ↦
          let same : cfg ≡ b.0 = ok-injective (rw n at b.1) in
          Walked-skip h c f fs cfg cfg' n (subst (λ x. Walked h c fs x cfg') (sym same) rest)
      | inl s ↦
          let t = with_target-ok call f cfg b.0 (rw s at b.1) in
          let v = calls t.0 cfg b.0 t.2 in Walked-call h c f t.0 fs cfg b.0 cfg' t.1 v.0 v.1 rest
    ]

pub annotate-Annotated :
    (n height colour p : ℕ) (cfg cfg' : Config)
    → annotate n height colour p cfg ≡ ok cfg'
    → Annotated height colour p cfg cfg'
unfolding annotate
annotate-Annotated zero height colour p cfg cfg' h =
    absurd (let k : out_of_fuel ≡ ok cfg' = h in cc)
annotate-Annotated (suc n) height colour p cfg cfg' h =
    elim (Bool-cases ((cfg.strct p).colour == colour)) [
      | inl e ↦
          let same : cfg ≡ cfg' = ok-injective (rw (e, annotate) at h) in
          let had = (==_iff (cfg.strct p).colour colour).0 e in
          record {
            visits = subst (λ x. Visits height colour cfg x) same (Visits-refl height colour cfg);
            coloured = subst (λ x. (x.strct p).colour ≡ colour) same had;
            raised = λ new. absurd (new had);
            targets = λ new. absurd (new had);
          }
      | inr e ↦
          let new : (cfg.strct p).colour ≢ colour =
            λ k. cc ((==_iff (cfg.strct p).colour colour).1 k) in
          let marked = mark p height colour cfg in
          let w =
            each_target-Walked (height + 1) colour (annotate n (height + 1) colour) (cfg.strct p).fq
              marked cfg'
              (λ q a b k.
                let r = annotate-Annotated n (height + 1) colour q a b k in (r.visits, r.coloured))
              (rw (e, annotate) at h) in
          let self = mark_self p height colour cfg in
          let kept =
            Visits-keep (height + 1) colour marked cfg' w.visits p (ap (λ s. s.colour) self)
            ∙ self in
          record {
            visits =
                Visits-trans height colour cfg marked cfg' (mark-Visits p height colour cfg new)
                  (Visits-lower height colour marked cfg' w.visits);
            coloured = ap (λ s. s.colour) kept;
            raised = λ _. ap (λ s. s.height) kept;
            targets = λ _. w.targets;
          }
    ]
