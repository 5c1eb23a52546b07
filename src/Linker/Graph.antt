-- ===== src/Linker/Graph.antt =====
-- The structures of a configuration as a graph: what the walks of linker.c, linker_aliases.c and
-- audit.c read. An edge is a field of type struct with the structure that its target lies in.
use openradtool.Base.{ℕ, zero, suc, Bool, true, false, Option, none, some, List, In, ◌≡◌, ◌≢◌}
use openradtool.Model.{Ftype, struct, Pos, Field, Config}

pub record Graph : Type 0 where
  pub field : ℕ → Field
  pub fq : ℕ → List ℕ
  pub pos : ℕ → Pos

abbrev pub graph : Config → Graph
graph cfg = record { field = cfg.field; fq = λ p. (cfg.strct p).fq; pos = λ p. (cfg.strct p).pos }

-- `f->type == FTYPE_STRUCT`
unfoldable pub is_struct : Ftype → Bool
is_struct struct = true
is_struct _ = false

-- `f->ref->target->parent`; `none` where a pointer is NULL.
unfoldable pub target_parent : Graph → ℕ → Option ℕ
target_parent g f = elim (g.field f).ref [
  | none ↦ none
  | some r ↦ elim r.target [ none ↦ none | some t ↦ some (g.field t).parent ]
]

pub record IsEdge (g : Graph) (p f q : ℕ) : Type 0 where
  pub mem : In f (g.fq p)
  pub type : is_struct (g.field f).type ≡ true
  pub target : target_parent g f ≡ some q

-- Every chain of references from `p` has fewer than `n` structures, and none leads to `orig`.
unfoldable pub Avoids : Graph → ℕ → ℕ → ℕ → Type 0
Avoids g orig zero p = ⊥
Avoids g orig (suc n) p = (f q : ℕ) → IsEdge g p f q → (q ≢ orig) × Avoids g orig n q

-- A chain of one or more references.
pub data Reaches (g : Graph) : ℕ → ℕ → Type 0 where
  edge : {p q : ℕ} (f : ℕ) → IsEdge g p f q → Reaches g p q
  next : {p q r : ℕ} (f : ℕ) → IsEdge g p f q → Reaches g q r → Reaches g p r

pub Avoids-Reaches :
    {g : Graph} {p q : ℕ} (orig n : ℕ) → Avoids g orig n p → Reaches g p q → q ≢ orig
unfolding Avoids
Avoids-Reaches orig zero a r = absurd a
Avoids-Reaches orig (suc n) a (edge {q = q} f e) = (a f q e).0
Avoids-Reaches orig (suc n) a (next {q = q} f e r) = Avoids-Reaches orig n (a f q e).1 r
