-- ===== src/Linker/Order/Reffind.antt =====
-- What check_reffind finds: null references below a structure.
use openradtool.Base.{
  ℕ, zero, suc, ◌≡◌, ◌↔◌, ◌⊎◌, inl, inr, refl, sym, ap, ◌∙◌, Bool, true, false, ◌||◌, some,
  some_inj, List, [], ◌∷◌, In, Bool-cases, arith,
}
use openradtool.Model.{Config}
use openradtool.Model.Outcome.{Outcome, ok}
use openradtool.Linker.Graph.{graph, IsEdge, Avoids, is_struct, target_parent}
use openradtool.Linker.Order.{source_null, reffind_fields, check_reffind}

module _ (cfg : Config) where
  -- Every field of type struct has its source and target, as linker_resolve leaves them.
  abbrev pub Linked : Type 0
  Linked =
      (f : ℕ)
      → is_struct (cfg.field f).type ≡ true
      → (b : Bool) × (source_null cfg f ≡ some b) × (q : ℕ) × (target_parent (graph cfg) f ≡ some q)

  -- A field of `p` of type struct may be null, or the structure behind it has such a field, or is
  -- flagged.
  pub data HasNullRef : ℕ → Type 0 where
    flagged : {p : ℕ} → (cfg.strct p).has_nullrefs ≡ true → HasNullRef p
    null_source :
        {p q : ℕ} (f : ℕ) → IsEdge (graph cfg) p f q → source_null cfg f ≡ some true → HasNullRef p
    behind : {p q : ℕ} (f : ℕ) → IsEdge (graph cfg) p f q → HasNullRef q → HasNullRef p

  record FoundIn (p : ℕ) (fs : List ℕ) : Type 0 where
    f : ℕ
    q : ℕ
    mem : In f fs
    edge : IsEdge (graph cfg) p f q
    null : (source_null cfg f ≡ some true) ⊎ HasNullRef q

  -- The answer `b` of a run decides `P`.
  record Decides (m : Outcome Bool) (P : Type 0) : Type 0 where
    b : Bool
    runs : m ≡ ok b
    sound : b ≡ true → P
    complete : P → b ≡ true

  FoundIn-cons : (p x : ℕ) (fs : List ℕ) → FoundIn p fs → FoundIn p (x ∷ fs)
  FoundIn-cons p x fs r = record { f = r.f; q = r.q; mem = inr r.mem; edge = r.edge; null = r.null }

  module _ (linked : Linked) (p : ℕ) (call : ℕ → Outcome Bool)
      (decided : (f q : ℕ) → IsEdge (graph cfg) p f q → Decides (call q) (HasNullRef q)) where
    reffind_fields-Decides :
        (fs : List ℕ)
        → ((f : ℕ) → In f fs → In f (cfg.strct p).fq)
        → Decides (reffind_fields cfg call fs) (FoundIn p fs)
    unfolding reffind_fields
    reffind_fields-Decides [] sub = record {
      b = false;
      runs = refl;
      sound = λ e. cc;
      complete = λ r. absurd r.mem;
    }
    reffind_fields-Decides (x ∷ fs) sub =
        let rest = reffind_fields-Decides fs (λ f m. sub f (inr m)) in
        elim (Bool-cases (is_struct (cfg.field x).type)) [
          | inl s ↦
              let (n, sn, q, tq) = linked x s in
              let e : IsEdge (graph cfg) p x q = record {
                mem = sub x (inl refl);
                type = s;
                target = tq;
              } in
              let d = decided x q e in
              record {
                b = n || d.b || rest.b;
                runs = ground (arith, d.runs, rest.runs);
                sound = λ t. elim (Bool-cases n) [
                  | inl y ↦ record {
                    f = x;
                    q = q;
                    mem = inl refl;
                    edge = e;
                    null = inl (sn ∙ ap some y);
                  }
                  | inr y ↦ elim (Bool-cases d.b) [
                    | inl z ↦ record {
                      f = x;
                      q = q;
                      mem = inl refl;
                      edge = e;
                      null = inr (d.sound z);
                    }
                    | inr z ↦ FoundIn-cons p x fs (rest.sound (ground arith))
                  ]
                ];
                complete = λ r. elim r.mem [
                  | inr m ↦
                      let t =
                        rest.complete
                          (record { f = r.f; q = r.q; mem = m; edge = r.edge; null = r.null }) in
                      ground (arith, t)
                  | inl m ↦ elim r.null [
                    | inl y ↦
                        let t : n ≡ true = some_inj (sym sn ∙ (rw m at y)) in ground (arith, t)
                    | inr y ↦
                        let same : r.q ≡ q = some_inj (sym (rw m at r.edge.target) ∙ tq) in
                        let t = d.complete (rw same at y) in ground (arith, t)
                  ]
                ];
              }
          | inr s ↦ record {
            b = rest.b;
            runs = rw s rest.runs;
            sound = λ e. FoundIn-cons p x fs (rest.sound e);
            complete = λ r. elim r.mem [
              | inl e ↦ cc (rw e at r.edge.type, s)
              | inr m ↦
                  rest.complete (record { f = r.f; q = r.q; mem = m; edge = r.edge; null = r.null })
            ];
          }
        ]

  FoundIn-HasNullRef : (p : ℕ) → FoundIn p (cfg.strct p).fq → HasNullRef p
  FoundIn-HasNullRef p r = elim r.null [
    | inl y ↦ null_source r.f r.edge y
    | inr y ↦ behind r.f r.edge y
  ]

  HasNullRef-cases :
      {p : ℕ} → HasNullRef p → ((cfg.strct p).has_nullrefs ≡ true) ⊎ FoundIn p (cfg.strct p).fq
  HasNullRef-cases (flagged e) = inl e
  HasNullRef-cases (null_source {q = q} f e n) =
      inr (record { f = f; q = q; mem = e.mem; edge = e; null = inl n })
  HasNullRef-cases (behind {q = q} f e h) =
      inr (record { f = f; q = q; mem = e.mem; edge = e; null = inr h })

  check_reffind-Decides :
      (linked : Linked) (orig n p : ℕ)
      → Avoids (graph cfg) orig n p
      → Decides (check_reffind n cfg p) (HasNullRef p)
  unfolding check_reffind Avoids
  check_reffind-Decides linked orig zero p a = absurd a
  check_reffind-Decides linked orig (suc n) p a =
      let decided = λ (f q : ℕ) (e : IsEdge (graph cfg) p f q).
        check_reffind-Decides linked orig n q (a f q e).1 in
      let loop =
        reffind_fields-Decides linked p (check_reffind n cfg) decided (cfg.strct p).fq (λ f m. m) in
      elim (Bool-cases (cfg.strct p).has_nullrefs) [
        | inl y ↦ record {
          b = true;
          runs = ground arith;
          sound = λ _. flagged y;
          complete = λ _. refl;
        }
        | inr y ↦ record {
          b = loop.b;
          runs = ground (arith, loop.runs);
          sound = λ e. FoundIn-HasNullRef p (loop.sound e);
          complete = λ h. elim (HasNullRef-cases h) [ inl z ↦ cc | inr r ↦ loop.complete r ];
        }
      ]

  -- Where references are linked and have no cycle through `orig`, check_reffind returns within the
  -- fuel that the walk for the aliases needed, and it returns 1 exactly if a field of type struct of
  -- `p`, or of a structure that `p` refers to by a chain, may be null, or such a structure is flagged.
  pub check_reffind_iff :
      (linked : Linked) (orig n p : ℕ)
      → Avoids (graph cfg) orig n p
      → (b : Bool) × (check_reffind n cfg p ≡ ok b) × ((b ≡ true) ↔ HasNullRef p)
  check_reffind_iff linked orig n p a =
      let d = check_reffind-Decides linked orig n p a in (d.b, d.runs, (d.sound, d.complete))
