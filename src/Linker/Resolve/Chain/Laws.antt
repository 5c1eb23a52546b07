-- ===== src/Linker/Resolve/Chain/Laws.antt =====
-- What a chain of names that resolve_field_chain accepts looks like.
use openradtool.Base.{
  ℕ, ◌≡◌, refl, Bool, true, false, Option, none, some, List, [], ◌∷◌, Bytes, Option-cases,
  Bool-cases, inl, inr,
}
use openradtool.Model.{Pos, Config}
use openradtool.Model.Outcome.{Outcome, ok, ok-injective, fail-ne-ok, fault-ne-ok, map_state-eq-ok}
use openradtool.Linker.Graph.{graph, is_struct, target_parent}
use openradtool.Linker.Order.{source_null}
use openradtool.Linker.Resolve.Find.{find_field}
use openradtool.Linker.Resolve.Chain.{
  Chained, resolve_field_chain, non_terminal, prepend, prepend_to, stuck_at, link,
}

-- From structure `s` the names lead through the fields `chain` to the field `f`: every name is
-- that of the first such field of its structure, and every field but the last is of type struct,
-- not null, and refers to the structure of the next.
pub data Leads (cfg : Config) : ℕ → List Bytes → List ℕ → ℕ → Type 0 where
  last : {s : ℕ} {n : Bytes} {f : ℕ} → find_field cfg s n ≡ some f → Leads cfg s (n ∷ []) (f ∷ []) f
  through :
      {s : ℕ} {n : Bytes} {ns : List Bytes} {f q : ℕ} {fs : List ℕ} {g : ℕ}
      → find_field cfg s n ≡ some f
      → is_struct (cfg.field f).type ≡ true
      → source_null cfg f ≡ some false
      → target_parent (graph cfg) f ≡ some q
      → Leads cfg q ns fs g
      → Leads cfg s (n ∷ ns) (f ∷ fs) g

-- The names lead from `s` through `r.chain` to `r.field`, and nothing else changed.
pub record IsChain (cfg : Config) (s : ℕ) (names : List Bytes) (r : Chained) : Type 0 where
  pub f : ℕ
  pub field : r.field ≡ some f
  pub leads : Leads cfg s names r.chain f
  pub cfg_same : r.cfg ≡ cfg

link-eq-ok :
    (cfg : Config) (pos : Pos) (f : ℕ) (null : Option Bool) (target : Option ℕ)
    (go : ℕ → Outcome Chained) (r : Chained)
    → link cfg pos f null target go ≡ ok r
    → (null ≡ some false) × (q : ℕ) × (target ≡ some q) × (prepend_to f (go q) ≡ ok r)
unfolding link stuck_at
link-eq-ok cfg pos f none target go r h = absurd (fault-ne-ok h)
link-eq-ok cfg pos f (some true) target go r h = absurd (fail-ne-ok h)
link-eq-ok cfg pos f (some false) none go r h = absurd (fault-ne-ok h)
link-eq-ok cfg pos f (some false) (some q) go r h = (refl, q, refl, h)

non_terminal-eq-ok :
    (cfg : Config) (pos : Pos) (f : ℕ) (null : Option Bool) (target : Option ℕ)
    (go : ℕ → Outcome Chained) (r : Chained)
    → non_terminal cfg pos f null target go ≡ ok r
    → (is_struct (cfg.field f).type ≡ true) × (link cfg pos f null target go ≡ ok r)
unfolding non_terminal stuck_at
non_terminal-eq-ok cfg pos f null target go r h = elim (Bool-cases (is_struct (cfg.field f).type)) [
  | inl e ↦ (e, rw e at h)
  | inr e ↦ absurd (fail-ne-ok (rw e at h))
]

IsChain-through :
    (cfg : Config) (s : ℕ) (n m : Bytes) (ns : List Bytes) (f q : ℕ) (t : Chained)
    → find_field cfg s n ≡ some f
    → is_struct (cfg.field f).type ≡ true
    → source_null cfg f ≡ some false
    → target_parent (graph cfg) f ≡ some q
    → IsChain cfg q (m ∷ ns) t
    → IsChain cfg s (n ∷ m ∷ ns) (prepend f t)
unfolding prepend
IsChain-through cfg s n m ns f q t e struct null target h = record {
  f = h.f;
  field = h.field;
  leads = through e struct null target h.leads;
  cfg_same = h.cfg_same;
}

-- A chain that resolve_field_chain accepts leads from the structure to the field that it returns.
pub resolve_field_chain-Leads :
    (cfg : Config) (pos : Pos) (names : List Bytes) (s : ℕ) (r : Chained)
    → resolve_field_chain cfg pos names s ≡ ok r
    → IsChain cfg s names r
unfolding resolve_field_chain stuck_at
resolve_field_chain-Leads cfg pos [] s r h = absurd (fault-ne-ok h)
resolve_field_chain-Leads cfg pos (n ∷ []) s r h = elim (Option-cases (find_field cfg s n)) [
  | inl e ↦ absurd (fail-ne-ok (rw (e, resolve_field_chain) at h))
  | inr (f, e) ↦
      let k = ok-injective (rw (e, resolve_field_chain) at h) in
      rw (← k) (record { f = f; field = refl; leads = last e; cfg_same = refl })
]
resolve_field_chain-Leads cfg pos (n ∷ m ∷ ns) s r h = elim (Option-cases (find_field cfg s n)) [
  | inl e ↦ absurd (fail-ne-ok (rw (e, resolve_field_chain) at h))
  | inr (f, e) ↦
      let a =
        non_terminal-eq-ok cfg pos f (source_null cfg f) (target_parent (graph cfg) f)
          (resolve_field_chain cfg pos (m ∷ ns)) r (rw (e, resolve_field_chain) at h) in
      let b =
        link-eq-ok cfg pos f (source_null cfg f) (target_parent (graph cfg) f)
          (resolve_field_chain cfg pos (m ∷ ns)) r a.1 in
      let t = map_state-eq-ok (prepend f) (resolve_field_chain cfg pos (m ∷ ns) b.1) b.3 in
      rw (← t.2) (
        IsChain-through cfg s n m ns f b.1 t.0 e a.0 b.0 b.2
          (resolve_field_chain-Leads cfg pos (m ∷ ns) b.1 t.0 t.1))
]
