-- ===== src/Audit/Run/Ends.antt =====
-- The fuel of follow and ort_audit.
use openradtool.Base.{
  ℕ, zero, suc, ◌≡◌, ◌≢◌, inl, inr, refl, Bool, not, Option, none, some, List, [], ◌∷◌, ◌++◌, Bytes,
  if_cases, In, arith,
}
use openradtool.Model.{Role, Config}
use openradtool.Model.Outcome.{Outcome, ok, fail, fault, out_of_fuel, ◌>>=◌, ok-ne-out_of_fuel}
use openradtool.Linker.Graph.{graph, is_struct, target_parent, IsEdge, Avoids}
use openradtool.Audit.{rolemap_has}
use openradtool.Audit.Run.{
  Audit, audit_query, into, follow_fields, follow, result_strct, add_searches, audit_strct,
  audit_strcts, ort_audit,
}

bind-ends :
    (m : Outcome (List Audit)) (f : List Audit → Outcome (List Audit))
    → m ≢ out_of_fuel
    → ((aq : List Audit) → f aq ≢ out_of_fuel)
    → (m >>= f) ≢ out_of_fuel
bind-ends (ok s) f h k e = k s e
bind-ends (fail s) f h k e = cc
bind-ends fault f h k e = cc
bind-ends out_of_fuel f h k e = h refl

into-ends :
    (o : Option ℕ) (f : ℕ → Outcome (List Audit))
    → ((q : ℕ) → o ≡ some q → f q ≢ out_of_fuel)
    → into o f ≢ out_of_fuel
into-ends none f h e = cc
into-ends (some q) f h e = h q refl e

-- No chain of references from the structure of a search has `n` structures or leads back.
abbrev pub NoCycles : Config → ℕ → List ℕ → Type 0
NoCycles cfg n ps =
    (p s q : ℕ)
    → In p ps
    → In s (cfg.strct p).sq
    → result_strct cfg p s ≡ some q
    → Avoids (graph cfg) q n q

module _ (cfg : Config) (r : Role) where
  follow_fields-ends :
      (exported : Bool) (path : Option Bytes) (st : ℕ)
      (rec : ℕ → Bool → Option Bytes → List Audit → Outcome (List Audit))
      → ((f q : ℕ)
          → IsEdge (graph cfg) st f q
          → (e : Bool) (o : Option Bytes) (aq : List Audit) → rec q e o aq ≢ out_of_fuel)
      → (fs : List ℕ) (aq : List Audit) → ((f : ℕ) → In f fs → In f (cfg.strct st).fq)
      → follow_fields cfg r exported path rec fs aq ≢ out_of_fuel
  unfolding follow_fields
  follow_fields-ends exported path st rec h [] aq sub = ok-ne-out_of_fuel
  follow_fields-ends exported path st rec h (f ∷ fs) aq sub =
      let later : (g : ℕ) → In g fs → In g (cfg.strct st).fq = λ g m. sub g (inr m) in
      if_cases (◌≢ out_of_fuel) (not (is_struct (cfg.field f).type))
        (λ e. follow_fields-ends exported path st rec h fs aq later)
        λ e.
          bind-ends _ _
            (into-ends (target_parent (graph cfg) f) _ (λ q t.
              h f q (record { mem = sub f (inl refl); type = ground (arith, e); target = t }) _ _
                aq))
            (λ a. follow_fields-ends exported path st rec h fs a later)

  follow-ends :
      (n orig sr st : ℕ) (exported : Bool) (path : Option Bytes) (aq : List Audit)
      → Avoids (graph cfg) orig n st
      → follow n cfg r sr st exported path aq ≢ out_of_fuel
  unfolding follow Avoids
  follow-ends zero orig sr st exported path aq h = absurd h
  follow-ends (suc n) orig sr st exported path aq h =
      follow_fields-ends exported path st (follow n cfg r sr)
        (λ f q e x o a. follow-ends n orig sr q x o a (h f q e).1) (cfg.strct st).fq _ (λ f m. m)

  add_searches-ends :
      (n st : ℕ) (exported : Bool) (ss : List ℕ) (aq : List Audit)
      → ((s q : ℕ) → In s ss → result_strct cfg st s ≡ some q → Avoids (graph cfg) q n q)
      → add_searches n cfg r st exported ss aq ≢ out_of_fuel
  unfolding add_searches
  add_searches-ends n st exported [] aq h = ok-ne-out_of_fuel
  add_searches-ends n st exported (s ∷ ss) aq h =
      let later : (x q : ℕ) → In x ss → result_strct cfg st x ≡ some q → Avoids (graph cfg) q n q =
        λ x q m. h x q (inr m) in
      if_cases (◌≢ out_of_fuel) (not (rolemap_has cfg (cfg.search s).rolemap r))
        (λ e. add_searches-ends n st exported ss aq later)
        λ e.
          bind-ends _ _
            (into-ends (result_strct cfg st s) _ (λ q t.
              follow-ends n q s q exported none (aq ++ audit_query s ∷ []) (h s q (inl refl) t)))
            (λ a. add_searches-ends n st exported ss a later)

  audit_strcts-ends :
      (n : ℕ) (ps : List ℕ) (aq : List Audit)
      → NoCycles cfg n ps
      → audit_strcts n cfg r ps aq ≢ out_of_fuel
  unfolding audit_strcts audit_strct
  audit_strcts-ends n [] aq h = ok-ne-out_of_fuel
  audit_strcts-ends n (p ∷ ps) aq h =
      bind-ends _ _ (add_searches-ends n p _ (cfg.strct p).sq _ (λ s q. h p s q (inl refl)))
        (λ a. audit_strcts-ends n ps a (λ p' s q m. h p' s q (inr m)))

-- Where no chain of references from the structure that a search gives has `n` structures or leads
-- back to that structure, the audit does not run out of the fuel `n`.
pub ort_audit-ends :
    (n : ℕ) (r : Role) (cfg : Config) → NoCycles cfg n cfg.sq → ort_audit n r cfg ≢ out_of_fuel
unfolding ort_audit
ort_audit-ends n r cfg h = audit_strcts-ends cfg r n cfg.sq [] h
