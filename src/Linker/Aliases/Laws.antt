-- ===== src/Linker/Aliases/Laws.antt =====
-- What the pass over all structures shows: no structure refers to itself, and aliases are distinct.
use mathlib.Core.Path.{fun_ext, subst, ap₂}
use openradtool.Base.{
  ℕ, zero, suc, ◌+◌, ◌≤◌, ◌<◌, ◌≡◌, ◌≢◌, ◌∙◌, refl, sym, some_inj, ap, Option, none, some, List, [],
  ◌∷◌, ◌++◌, inl, inr, In, Distinct, length, Bytes, arith,
}
use openradtool.Model.{Strct, Config}
use openradtool.Model.Outcome.{
  Outcome, ok, out_of_fuel, bind-eq-ok, bind-eq-out_of_fuel, map_state-eq-ok,
  map_state-ne-out_of_fuel,
}
use openradtool.Linker.Graph.{graph, Avoids, Reaches, Avoids-Reaches}
use openradtool.Linker.Aliases.Name.{alias_name}
use openradtool.Linker.Aliases.Name.Laws.{alias_name_injective}
use openradtool.Linker.Aliases.Create.{Walk, linker_aliases_create}
use openradtool.Linker.Aliases.Create.Laws.{
  alias_range, alias_range-append, strings, linker_aliases_create-Extends,
  linker_aliases_create-Avoids, linker_aliases_create-ne-out_of_fuel,
}
use openradtool.Linker.Aliases.{Pass, put_walk, walk_fuel, create_strct, create_strcts}

-- Putting the aliases of a structure back leaves the graph as it was.
graph-put_walk : (s : Pass) (p : ℕ) (w : Walk) → graph (put_walk s p w).cfg ≡ graph s.cfg
unfolding put_walk
graph-put_walk s p w = λ i. record {
  field = s.cfg.field;
  fq = fun_ext (λ q. fq_same q) i;
  pos = fun_ext (λ q. pos_same q) i;
}
  where
    fq_same : (q : ℕ) → ((put_walk s p w).cfg.strct q).fq ≡ (s.cfg.strct q).fq
    fq_same q = ground arith

    pos_same : (q : ℕ) → ((put_walk s p w).cfg.strct q).pos ≡ (s.cfg.strct q).pos
    pos_same q = ground arith

abbrev walk_of : Pass → ℕ → Outcome Walk
walk_of s p =
    linker_aliases_create (graph s.cfg) p walk_fuel p none
      (record { aq = (s.cfg.strct p).aq; offs = s.count; mq = s.cfg.mq })

-- What the pass over one structure does when it succeeds.
record Step (p : ℕ) (s t : Pass) : Type 0 where
  same_graph : graph t.cfg ≡ graph s.cfg
  avoids : Avoids (graph s.cfg) p walk_fuel p
  others : (q : ℕ) → q ≢ p → t.cfg.strct q ≡ s.cfg.strct q
  count : ℕ
  total : t.count ≡ s.count + count
  own : strings (t.cfg.strct p).aq ≡ strings (s.cfg.strct p).aq ++ alias_range s.count count

Step-put_walk : (p : ℕ) (s : Pass) (w : Walk) → walk_of s p ≡ ok w → Step p s (put_walk s p w)
unfolding put_walk
Step-put_walk p s w h =
    let more = linker_aliases_create-Extends (graph s.cfg) p walk_fuel p none _ w h in
    record {
      same_graph = graph-put_walk s p w;
      avoids = linker_aliases_create-Avoids (graph s.cfg) p walk_fuel p none _ w h;
      others = λ q ne. other q ne;
      count = more.count;
      total = more.offs;
      own = ap strings same ∙ more.aq;
    }
  where
    other : (q : ℕ) → q ≢ p → (put_walk s p w).cfg.strct q ≡ s.cfg.strct q
    other q ne = ground arith

    same : ((put_walk s p w).cfg.strct p).aq ≡ w.aq
    same = ground arith

create_strct-Step : (p : ℕ) (s t : Pass) → create_strct p s ≡ ok t → Step p s t
unfolding create_strct
create_strct-Step p s t h =
    let (w, e, c) = map_state-eq-ok (put_walk s p) (walk_of s p) h in
    subst (Step p s) c (Step-put_walk p s w e)

create_strct-ne-out_of_fuel : (p : ℕ) (s : Pass) → create_strct p s ≢ out_of_fuel
unfolding create_strct
create_strct-ne-out_of_fuel p s = map_state-ne-out_of_fuel (put_walk s p) (walk_of s p) (
    linker_aliases_create-ne-out_of_fuel (graph s.cfg) p walk_fuel p none _
      (unfold walk_fuel in omega arith))

-- The first loop of linker_aliases ends: the limit on aliases stops every walk before its fuel.
pub create_strcts-ne-out_of_fuel : (ps : List ℕ) (s : Pass) → create_strcts ps s ≢ out_of_fuel
unfolding create_strcts
create_strcts-ne-out_of_fuel [] s h = cc
create_strcts-ne-out_of_fuel (p ∷ ps) s h =
    elim (bind-eq-out_of_fuel (create_strct p s) (λ t. create_strcts ps t) h) [
      | inl e ↦ create_strct-ne-out_of_fuel p s e
      | inr (t, a, b) ↦ create_strcts-ne-out_of_fuel ps t b
    ]

pub create_strcts-Avoids :
    (ps : List ℕ) (s s' : Pass)
    → create_strcts ps s ≡ ok s'
    → (p : ℕ) → In p ps
    → Avoids (graph s.cfg) p walk_fuel p
unfolding create_strcts
create_strcts-Avoids [] s s' h p m = absurd m
create_strcts-Avoids (x ∷ ps) s s' h p m =
    let (t, a, b) = bind-eq-ok (create_strct x s) (λ t. create_strcts ps t) h in
    let first = create_strct-Step x s t a in
    elim m [
      | inl y ↦ rw y first.avoids
      | inr m' ↦
          subst (λ g. Avoids g p walk_fuel p) first.same_graph (create_strcts-Avoids ps t s' b p m')
    ]

-- If the first loop of linker_aliases succeeds, none of its structures refers to itself by any
-- chain of references.
pub create_strcts-acyclic :
    (ps : List ℕ) (s s' : Pass)
    → create_strcts ps s ≡ ok s'
    → (p : ℕ) → In p ps
    → ¬ Reaches (graph s.cfg) p p
create_strcts-acyclic ps s s' h p m r =
    Avoids-Reaches p walk_fuel (create_strcts-Avoids ps s s' h p m) r refl

-- The `AS` strings of the structures `ps`, in order.
abbrev pub all_strings : Config → List ℕ → List (Option Bytes)
all_strings cfg [] = []
all_strings cfg (p ∷ ps) = strings (cfg.strct p).aq ++ all_strings cfg ps

create_strcts-frame :
    (ps : List ℕ) (s s' : Pass)
    → create_strcts ps s ≡ ok s'
    → (q : ℕ) → ((p : ℕ) → In p ps → q ≢ p)
    → s'.cfg.strct q ≡ s.cfg.strct q
unfolding create_strcts
create_strcts-frame [] s s' h q out = cc
create_strcts-frame (x ∷ ps) s s' h q out =
    let (t, a, b) = bind-eq-ok (create_strct x s) (λ t. create_strcts ps t) h in
    create_strcts-frame ps t s' b q (λ p m. out p (inr m))
    ∙ (create_strct-Step x s t a).others q (out x (inl refl))

-- If the first loop of linker_aliases succeeds on different structures without aliases, then the
-- counter has grown by the number of aliases made, and the `AS` strings of the structures together, in
-- their order, are alias_name of the numbers from the first value of the counter on.
pub create_strcts-strings :
    (ps : List ℕ) (s s' : Pass)
    → Distinct ps
    → ((p : ℕ) → In p ps → (s.cfg.strct p).aq ≡ [])
    → create_strcts ps s ≡ ok s'
    → (k : ℕ) × (s'.count ≡ s.count + k) × (all_strings s'.cfg ps ≡ alias_range s.count k)
unfolding create_strcts
create_strcts-strings [] s s' d fresh h = (0, ground arith, refl)
create_strcts-strings (x ∷ ps) s s' d fresh h =
    let (t, a, b) = bind-eq-ok (create_strct x s) (λ t. create_strcts ps t) h in
    let first = create_strct-Step x s t a in
    let fresh' = λ (p : ℕ) (m : In p ps).
      ap (λ (v : Strct). v.aq) (first.others p (λ e. d.0 p m (sym e))) ∙ fresh p (inr m) in
    let (k, n, r) = create_strcts-strings ps t s' d.1 fresh' b in
    let kept = ap (λ (v : Strct). strings v.aq) (create_strcts-frame ps t s' b x d.0) in
    let own =
      kept
      ∙ first.own
      ∙ ap (λ l. strings l ++ alias_range s.count first.count) (fresh x (inl refl)) in
    (
      first.count + k,
      omega arith,
      ap₂ ◌++◌ own r ∙ alias_range-append s.count t.count first.count k first.total,
    )

In-alias_range :
    (n k : ℕ) (y : Option Bytes)
    → In y (alias_range n k)
    → (m : ℕ) × (n ≤ m) × (m < n + k) × (y ≡ some (alias_name m))
In-alias_range n zero y h = absurd h
In-alias_range n (suc k) y (inl e) = (n, omega arith, omega arith, e)
In-alias_range n (suc k) y (inr h) =
    let (m, a, b, e) = In-alias_range (n + 1) k y h in (m, omega arith, omega arith, e)

alias_range-Distinct : (n k : ℕ) → n + k ≤ 4134 → Distinct (alias_range n k)
alias_range-Distinct n zero h = tt
alias_range-Distinct n (suc k) h = (
  λ y m e.
      let (i, a, b, f) = In-alias_range (n + 1) k y m in
      let same = alias_name_injective n i (omega arith) (omega arith) (some_inj (e ∙ f)) in
      absurd (omega arith),
  alias_range-Distinct (n + 1) k (omega arith),
)

length-alias_range : (n k : ℕ) → length (alias_range n k) ≡ k
length-alias_range n zero = refl
length-alias_range n (suc k) = ap suc (length-alias_range (n + 1) k)

-- If the first loop of linker_aliases succeeds on structures without aliases, and makes at most
-- 4134 of them, no two aliases of the whole configuration are equal.
pub create_strcts-Distinct :
    (ps : List ℕ) (cfg : Config) (s' : Pass)
    → Distinct ps
    → ((p : ℕ) → In p ps → (cfg.strct p).aq ≡ [])
    → create_strcts ps (record { cfg = cfg; count = 0 }) ≡ ok s'
    → length (all_strings s'.cfg ps) ≤ 4134
    → Distinct (all_strings s'.cfg ps)
create_strcts-Distinct ps cfg s' d fresh h few =
    let (k, n, r) = create_strcts-strings ps (record { cfg = cfg; count = 0 }) s' d fresh h in
    subst Distinct (sym r)
      (alias_range-Distinct 0 k (omega (arith, ap (length {0}) r, length-alias_range 0 k)))
