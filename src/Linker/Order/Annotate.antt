-- ===== src/Linker/Order/Annotate.antt =====
-- annotate ends.
use openradtool.Base.{
  ℕ, zero, suc, ◌+◌, ◌≡◌, ◌≢◌, inl, inr, refl, sym, ap, ◌∙◌, List, [], ◌∷◌, ◌==◌, if◌then◌else◌, In,
  Bool-cases, Option-cases,
}
use mathlib.Core.Path.{subst}
use openradtool.Model.{Config}
use openradtool.Model.Outcome.{
  Outcome, ok, fail, fault, out_of_fuel, ◌>>=◌, ok-injective, fail-ne-ok, fault-ne-ok,
}
use openradtool.Linker.Graph.{Graph, graph, is_struct, target_parent, IsEdge, Avoids}
use openradtool.Linker.Order.Visits.{graph-mark}
use openradtool.Linker.Order.Marks.{Annotated, annotate-Annotated}
use openradtool.Linker.Order.{with_target, each_target, mark, annotate}

-- A run that ends, and where it goes on, with the same graph.
pub record Ends (g : Graph) (m : Outcome Config) : Type 0 where
  pub ends : m ≢ out_of_fuel
  pub graph_kept : (cfg : Config) → m ≡ ok cfg → graph cfg ≡ g

ok-ne-fuel : {cfg : Config} → ok cfg ≢ out_of_fuel
ok-ne-fuel h = cc

Ends-ok : (g : Graph) (cfg : Config) → graph cfg ≡ g → Ends g (ok cfg)
Ends-ok g cfg k = record {
  ends = ok-ne-fuel;
  graph_kept = λ c e. ap graph (sym (ok-injective e)) ∙ k;
}

Ends-fail : (g : Graph) (cfg : Config) → Ends g (fail cfg)
Ends-fail g cfg = record { ends = λ e. cc; graph_kept = λ c e. absurd (fail-ne-ok e) }

Ends-fault : (g : Graph) → Ends g fault
Ends-fault g = record { ends = λ e. cc; graph_kept = λ c e. absurd (fault-ne-ok e) }

Ends-bind :
    (g : Graph) (m : Outcome Config) (f : Config → Outcome Config)
    → Ends g m
    → ((cfg : Config) → graph cfg ≡ g → Ends g (f cfg))
    → Ends g (m >>= f)
Ends-bind g (ok cfg) f e k = k cfg (e.graph_kept cfg refl)
Ends-bind g (fail cfg) f e k = Ends-fail g cfg
Ends-bind g fault f e k = Ends-fault g
Ends-bind g out_of_fuel f e k = absurd (e.ends refl)

-- The walk over the fields `fs` of `p` ends where the calls end at the structures it refers to.
pub each_target-Ends :
    (g : Graph) (p : ℕ) (call : ℕ → Config → Outcome Config) (fs : List ℕ) (cfg : Config)
    → ((f q : ℕ) → IsEdge g p f q → (c : Config) → graph c ≡ g → Ends g (call q c))
    → ((f : ℕ) → In f fs → In f (g.fq p))
    → graph cfg ≡ g
    → Ends g (each_target call fs cfg)
unfolding each_target with_target
each_target-Ends g p call [] cfg calls sub same = Ends-ok g cfg same
each_target-Ends g p call (f ∷ fs) cfg calls sub same =
    let tail = each_target call fs in
    let rest = λ (c : Config) (k : graph c ≡ g).
      each_target-Ends g p call fs c calls (λ y m. sub y (inr m)) k in
    elim (Bool-cases (is_struct (cfg.field f).type)) [
      | inr e ↦ rw e (rest cfg same)
      | inl e ↦ elim (Option-cases (target_parent (graph cfg) f)) [
        | inl n ↦ rw (e, n) (Ends-fault g)
        | inr (q, n) ↦
            let edge : IsEdge g p f q = record {
              mem = sub f (inl refl);
              type = ap (λ h. is_struct (h.field f).type) (sym same) ∙ e;
              target = ap (λ h. target_parent h f) (sym same) ∙ n;
            } in
            rw (e, n) (Ends-bind g (call q cfg) tail (calls f q edge cfg same) rest)
      ]
    ]

annotate-Ends :
    (g : Graph) (orig n height colour p : ℕ) (cfg : Config)
    → Avoids g orig n p
    → graph cfg ≡ g
    → Ends g (annotate n height colour p cfg)
unfolding annotate Avoids
annotate-Ends g orig zero height colour p cfg a same = absurd a
annotate-Ends g orig (suc n) height colour p cfg a same =
    let run =
      each_target (annotate n (height + 1) colour) (cfg.strct p).fq (mark p height colour cfg) in
    elim (Bool-cases ((cfg.strct p).colour == colour)) [
      | inl e ↦ subst (λ b. Ends g (if b then ok cfg else run)) (sym e) (Ends-ok g cfg same)
      | inr e ↦
          subst (λ b. Ends g (if b then ok cfg else run)) (sym e)
            (each_target-Ends g p (annotate n (height + 1) colour) (cfg.strct p).fq
              (mark p height colour cfg)
              (λ f q edge c k. annotate-Ends g orig n (height + 1) colour q c (a f q edge).1 k)
              (λ f m. subst (λ h. In f (h.fq p)) same m) (graph-mark p height colour cfg ∙ same))
    ]

-- Where every chain of references from `p` is shorter than the fuel `n` and none leads to `orig`, as
-- linker_aliases has shown, annotate at `p` ends. Where it succeeds, it has coloured `p` and the
-- structures that `p` refers to, unless `p` had the colour before; each structure that it has changed
-- had another colour, has taken the colour, and has gained at least `height` once, `p` exactly
-- `height`; and every reference is as it was.
pub annotate-ends :
    (orig n height colour p : ℕ) (cfg : Config)
    → Avoids (graph cfg) orig n p
    → (annotate n height colour p cfg ≢ out_of_fuel)
      × ((cfg' : Config)
          → annotate n height colour p cfg ≡ ok cfg'
          → Annotated height colour p cfg cfg')
annotate-ends orig n height colour p cfg a = (
  (annotate-Ends (graph cfg) orig n height colour p cfg a refl).ends,
  λ cfg' h. annotate-Annotated n height colour p cfg cfg' h,
)
