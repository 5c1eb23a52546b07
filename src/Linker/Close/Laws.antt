-- ===== src/Linker/Close/Laws.antt =====
-- What a configuration that ort_parse_close accepts has gone through.
use openradtool.Base.{ℕ, ◌≡◌, ◌≢◌, refl, List, [], ◌∷◌, In}
use openradtool.Model.{Config}
use openradtool.Model.Outcome.{ok, ◌>>=◌, bind-eq-ok, map_state, map_state-eq-ok, fail-ne-ok}
use openradtool.Linker.Graph.{graph, Reaches}
use openradtool.Linker.Aliases.{create_strcts, resolve_strcts, linker_aliases, Pass}
use openradtool.Linker.Aliases.Laws.{create_strcts-acyclic}
use openradtool.Linker.Resolve.Passes.{linker_resolve}
use openradtool.Linker.Resolve.Passes.Laws.{Resolved, linker_resolve-Resolved}
use openradtool.Linker.Close.{close_strcts, close_checked, ort_parse_close}

pub linker_aliases-acyclic :
    (cfg cfg' : Config)
    → linker_aliases cfg ≡ ok cfg'
    → (p : ℕ) → In p cfg.sq
    → ¬ Reaches (graph cfg) p p
unfolding linker_aliases
linker_aliases-acyclic cfg cfg' h p m =
    let start : Pass = record { cfg = cfg; count = 0 } in
    let b =
      bind-eq-ok (map_state (λ s. s.cfg) (create_strcts cfg.sq start)) (λ c. resolve_strcts c.sq c)
        h in
    let s = map_state-eq-ok (λ s. s.cfg) (create_strcts cfg.sq start) b.1 in
    create_strcts-acyclic cfg.sq start s.0 s.1 p m

-- Every request of the configuration was resolved, which gave `linked`, and no structure of
-- `linked` refers to itself by any chain of references.
pub record Accepted (cfg : Config) : Type 0 where
  pub linked : Config
  pub resolved : Resolved cfg linked
  pub acyclic : (p : ℕ) → In p linked.sq → ¬ Reaches (graph linked) p p
  pub not_empty : cfg.sq ≢ []

close_strcts-Accepted :
    (ps : List ℕ) (cfg cfg' : Config) → close_strcts ps cfg ≡ ok cfg' → ps ≡ cfg.sq → Accepted cfg
unfolding close_strcts
close_strcts-Accepted [] cfg cfg' h e = absurd (fail-ne-ok h)
close_strcts-Accepted (p ∷ ps) cfg cfg' h e =
    let c = bind-eq-ok (linker_resolve cfg >>= linker_aliases) close_checked h in
    let a = bind-eq-ok (linker_resolve cfg) linker_aliases c.1 in
    record {
      linked = a.0;
      resolved = (linker_resolve-Resolved cfg a.0).0.0 a.1;
      acyclic = linker_aliases-acyclic a.0 c.0 a.2;
      not_empty = λ n. cc;
    }

-- A configuration that ort_parse_close accepts has structures, all of its requests are resolved,
-- and no structure then refers to itself by any chain of references.
pub ort_parse_close-Accepted : (cfg cfg' : Config) → ort_parse_close cfg ≡ ok cfg' → Accepted cfg
unfolding ort_parse_close
ort_parse_close-Accepted cfg cfg' h = close_strcts-Accepted cfg.sq cfg cfg' h refl
