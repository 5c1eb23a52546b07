-- ===== src/Linker/Resolve/Passes/Fails.antt =====
-- When a pass of linker_resolve fails.
use mathlib.Core.Path.{subst}
use openradtool.Base.{
  ℕ, suc, ◌+◌, ◌-◌, ◌≡◌, ◌≢◌, ◌↔◌, ◌⊎◌, inl, inr, refl, sym, ap, false, List, [], ◌∷◌, ◌==◌,
  Bool-cases, arith,
}
use openradtool.Model.{Resolve, Config}
use openradtool.Model.Outcome.{
  Outcome, ok, fail, fault, out_of_fuel, bind-eq-ok, ok-injective, fail-injective, fail-ne-ok,
  fault-ne-ok, Outcome-cases,
}
use openradtool.Linker.Resolve.Find.{Tally, finish}
use openradtool.Linker.Resolve.Passes.{add_result, run_pass, finish_pass, pass}

-- The requests run one after another, each in the configuration that the one before leaves, and `n`
-- of them fail.
pub data Tallied (step : Resolve → Config → Outcome Config)
    : Config → List Resolve → ℕ → Config → Type 0 where
  tallied : {cfg : Config} → Tallied step cfg [] 0 cfg
  succeeds :
      {r : Resolve} {rs : List Resolve} {n : ℕ} {a b c : Config}
      → step r a ≡ ok b
      → Tallied step b rs n c
      → Tallied step a (r ∷ rs) n c
  fails :
      {r : Resolve} {rs : List Resolve} {n : ℕ} {a b c : Config}
      → step r a ≡ fail b
      → Tallied step b rs n c
      → Tallied step a (r ∷ rs) (suc n) c

module _ (step : Resolve → Config → Outcome Config) where
  add_result-cases :
      (t u : Tally) (m : Outcome Config)
      → add_result t m ≡ ok u
      → ((m ≡ ok u.cfg) × (u.errs ≡ t.errs)) ⊎ ((m ≡ fail u.cfg) × (u.errs ≡ t.errs + 1))
  unfolding add_result
  add_result-cases t u (ok cfg) h =
      let e = ok-injective h in inl (ap (λ x. ok x.cfg) e, ap (λ x. x.errs) (sym e))
  add_result-cases t u (fail cfg) h =
      let e = ok-injective h in inr (ap (λ x. fail x.cfg) e, ap (λ x. x.errs) (sym e))
  add_result-cases t u fault h = absurd (fault-ne-ok h)
  add_result-cases t u out_of_fuel h = cc

  run_pass-Tallied :
      (rs : List Resolve) (t u : Tally)
      → run_pass step rs t ≡ ok u
      → (n : ℕ) × (u.errs ≡ t.errs + n) × Tallied step t.cfg rs n u.cfg
  unfolding run_pass
  run_pass-Tallied [] t u h =
      let k = ok-injective h in
      (0, omega (arith, ap (λ x. x.errs) k), subst (λ x. Tallied step t.cfg [] 0 x.cfg) k tallied)
  run_pass-Tallied (r ∷ rs) t u h =
      let b = bind-eq-ok (add_result t (step r t.cfg)) (run_pass step rs) h in
      let rest = run_pass-Tallied rs b.0 u b.2 in
      elim (add_result-cases t b.0 (step r t.cfg) b.1) [
        | inl (e, k) ↦ (rest.0, omega (arith, rest.1, k), succeeds e rest.2)
        | inr (e, k) ↦ (suc rest.0, omega (arith, rest.1, k), fails e rest.2)
      ]

  run_pass-tally :
      (rs : List Resolve) (t : Tally) (n : ℕ) (cfg : Config)
      → Tallied step t.cfg rs n cfg
      → (u : Tally) × (run_pass step rs t ≡ ok u) × (u.cfg ≡ cfg) × (u.errs ≡ t.errs + n)
  unfolding run_pass add_result
  run_pass-tally _ t _ _ tallied = (t, refl, refl, omega arith)
  run_pass-tally _ t n cfg (succeeds {rs = rs} {b = b} e s) =
      let i = run_pass-tally rs (record { cfg = b; errs = t.errs }) n cfg s in
      (i.0, rw e i.1, i.2, i.3)
  run_pass-tally _ t _ cfg (fails {rs = rs} {n = n} {b = b} e s) =
      let i = run_pass-tally rs (record { cfg = b; errs = t.errs + 1 }) n cfg s in
      (i.0, rw e i.1, i.2, omega (arith, i.3))

  finish_pass-eq-fail :
      (t cfg : Config) (m : Outcome Tally) (ran : (u : Tally) → m ≢ fail u)
      → finish_pass m ≡ fail cfg
      → (u : Tally) × (m ≡ ok u) × (n : ℕ) × (u.errs ≡ suc n) × (u.cfg ≡ cfg)
  unfolding finish_pass finish
  finish_pass-eq-fail t cfg (ok u) ran h = elim (Bool-cases (u.errs == 0)) [
    | inl e ↦ absurd (fail-ne-ok (sym (rw e at h)))
    | inr e ↦ (u, refl, u.errs - 1, ground arith, fail-injective (rw e at h))
  ]
  finish_pass-eq-fail t cfg (fail u) ran h = absurd (ran u refl)
  finish_pass-eq-fail t cfg fault ran h = cc
  finish_pass-eq-fail t cfg out_of_fuel ran h = cc

  run_pass-ne-fail : (rs : List Resolve) (t u : Tally) → run_pass step rs t ≢ fail u
  unfolding run_pass add_result
  run_pass-ne-fail [] t u h = cc
  run_pass-ne-fail (r ∷ rs) t u h = elim (Outcome-cases (step r t.cfg)) [
    | inl (a, e) ↦ run_pass-ne-fail rs (record { cfg = a; errs = t.errs }) u (rw e at h)
    | inr (inl (a, e)) ↦ run_pass-ne-fail rs (record { cfg = a; errs = t.errs + 1 }) u (rw e at h)
    | inr (inr (inl e)) ↦ let k = rw e at h in cc k
    | inr (inr (inr e)) ↦ let k = rw e at h in cc k
  ]

  -- A pass fails exactly if it runs through all of its requests and some of them fail.
  pub pass_fail_iff :
      (cfg cfg' : Config)
      → (pass step cfg ≡ fail cfg') ↔ ((n : ℕ) × Tallied step cfg cfg.requests (suc n) cfg')
  unfolding pass finish_pass finish
  pass_fail_iff cfg cfg' =
      let t : Tally = record { cfg = cfg; errs = 0 } in
      (
        (λ h.
            let f =
              finish_pass-eq-fail cfg cfg' (run_pass step cfg.requests t)
                (run_pass-ne-fail cfg.requests t) h in
            let s = run_pass-Tallied cfg.requests t f.0 f.1 in
            let e : s.0 ≡ suc f.2 = omega (arith, s.1, f.3) in
            (
              f.2,
              subst (λ c. Tallied step cfg cfg.requests (suc f.2) c) f.4
                  (subst (λ k. Tallied step cfg cfg.requests k f.0.cfg) e s.2),
            )),
        (λ p.
            let i = run_pass-tally cfg.requests t (suc p.0) cfg' p.1 in
            let some_errs : (i.0.errs == 0) ≡ false = ground (arith, i.3) in
            rw (i.1, some_errs, i.2)),
      )
