-- ===== src/Linker/Order/Visits.antt =====
-- The structures that a run of annotate may change, and how.
use mathlib.Core.Path.{fun_ext, subst}
use openradtool.Base.{
  ℕ, ◌+◌, ◌≤◌, ◌≡◌, ◌≢◌, ◌⊎◌, inl, inr, refl, sym, ap, ◌∙◌, ◌==◌, ==_iff, Bool-cases, arith,
}
use openradtool.Model.{Strct, Config}
use openradtool.Linker.Graph.{graph}
use openradtool.Linker.Order.{mark}

pub graph-mark : (p height colour : ℕ) (cfg : Config) → graph (mark p height colour cfg) ≡ graph cfg
unfolding mark
graph-mark p height colour cfg = λ i. record {
  field = cfg.field;
  fq = fun_ext (λ q. fq_same q) i;
  pos = fun_ext (λ q. pos_same q) i;
}
  where
    fq_same : (q : ℕ) → ((mark p height colour cfg).strct q).fq ≡ (cfg.strct q).fq
    fq_same q = elim (Bool-cases (p == q)) [
      | inl e ↦ let k : p ≡ q = (==_iff p q).0 e in rw e (ap (λ t. (cfg.strct t).fq) k)
      | inr e ↦ rw e
    ]

    pos_same : (q : ℕ) → ((mark p height colour cfg).strct q).pos ≡ (cfg.strct q).pos
    pos_same q = elim (Bool-cases (p == q)) [
      | inl e ↦ let k : p ≡ q = (==_iff p q).0 e in rw e (ap (λ t. (cfg.strct t).pos) k)
      | inr e ↦ rw e
    ]

-- The structure `s`, which had another colour, has the colour and has become higher once.
pub record Visited (height colour : ℕ) (s t : Strct) : Type 0 where
  pub fresh : s.colour ≢ colour
  pub raise : ℕ
  pub at_least : height ≤ raise
  pub after : t ≡ record s { colour = colour; height = s.height + raise }

-- Each structure is as it was or visited, and no reference has changed.
pub record Visits (height colour : ℕ) (cfg cfg' : Config) : Type 0 where
  pub graph_kept : graph cfg' ≡ graph cfg
  pub each :
      (q : ℕ) → (cfg'.strct q ≡ cfg.strct q) ⊎ Visited height colour (cfg.strct q) (cfg'.strct q)

pub Visits-refl : (h c : ℕ) (cfg : Config) → Visits h c cfg cfg
Visits-refl h c cfg = record { graph_kept = refl; each = λ q. inl refl }

pub Visits-trans : (h c : ℕ) (a b d : Config) → Visits h c a b → Visits h c b d → Visits h c a d
Visits-trans h c a b d u v = record {
  graph_kept = v.graph_kept ∙ u.graph_kept;
  each = λ q. elim (u.each q) [
    | inl e ↦ elim (v.each q) [
      | inl e' ↦ inl (e' ∙ e)
      | inr w ↦ inr (subst (λ s. Visited h c s (d.strct q)) e w)
    ]
    | inr w ↦ elim (v.each q) [
      | inl e' ↦ inr (subst (λ s. Visited h c (a.strct q) s) (sym e') w)
      | inr w' ↦ absurd (w'.fresh (ap (λ s. s.colour) w.after))
    ]
  ];
}

pub Visits-lower : (h c : ℕ) (a b : Config) → Visits (h + 1) c a b → Visits h c a b
Visits-lower h c a b v = record {
  graph_kept = v.graph_kept;
  each = λ q. elim (v.each q) [
    | inl e ↦ inl e
    | inr w ↦ inr (record {
      fresh = w.fresh;
      raise = w.raise;
      at_least = omega (arith, w.at_least);
      after = w.after;
    })
  ];
}

-- A structure of the colour stays as it is.
pub Visits-keep :
    (h c : ℕ) (a b : Config)
    → Visits h c a b
    → (q : ℕ) → (a.strct q).colour ≡ c
    → b.strct q ≡ a.strct q
Visits-keep h c a b v q e = elim (v.each q) [ inl k ↦ k | inr w ↦ absurd (w.fresh e) ]

pub mark_self :
    (p height colour : ℕ) (cfg : Config)
    → (mark p height colour cfg).strct p
      ≡ record (cfg.strct p) { colour = colour; height = (cfg.strct p).height + height }
unfolding mark
mark_self p height colour cfg = rw ((==_iff p p).1 refl)

pub mark-Visits :
    (p height colour : ℕ) (cfg : Config)
    → (cfg.strct p).colour ≢ colour
    → Visits height colour cfg (mark p height colour cfg)
unfolding mark
mark-Visits p height colour cfg new = record {
  graph_kept = graph-mark p height colour cfg;
  each = λ q. elim (Bool-cases (p == q)) [
    | inr e ↦ inl (rw e)
    | inl e ↦ inr (
        subst (λ x. Visited height colour (cfg.strct x) ((mark p height colour cfg).strct x))
          ((==_iff p q).0 e)
          (record {
            fresh = new;
            raise = height;
            at_least = omega arith;
            after = mark_self p height colour cfg;
          }))
  ];
}
