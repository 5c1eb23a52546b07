-- ===== src/Linker/Resolve/Passes/Laws.antt =====
-- When a pass of linker_resolve, and linker_resolve as a whole, succeeds and when it fails.
use openradtool.Base.{ℕ, suc, ◌≡◌, ◌↔◌, inl, inr, refl, sym, ap, ◌∙◌, List, [], ◌∷◌, arith}
use openradtool.Model.{Resolve, Config}
use openradtool.Model.Outcome.{
  Outcome, ok, fail, fault, out_of_fuel, ◌>>=◌, bind-eq-ok, bind-eq-fail, ok-injective, fail-ne-ok,
  fault-ne-ok,
}
use openradtool.Linker.Resolve.Find.{Tally, finish, finish-eq-ok}
use openradtool.Linker.Resolve.Passes.Fails.{Tallied, pass_fail_iff}
use openradtool.Linker.Resolve.Passes.{
  add_result, run_pass, finish_pass, pass, linker_resolve, first_pass, second_pass, third_pass,
}

-- The requests succeed one after another, each in the configuration that the one before leaves.
pub data Steps (step : Resolve → Config → Outcome Config)
    : Config → List Resolve → Config → Type 0 where
  done : {cfg : Config} → Steps step cfg [] cfg
  next :
      {r : Resolve} {rs : List Resolve} {a b c : Config}
      → step r a ≡ ok b
      → Steps step b rs c
      → Steps step a (r ∷ rs) c

fuel-ne-ok : {t : Tally} → out_of_fuel ≡ ok t → ⊥
fuel-ne-ok h = cc

module _ (step : Resolve → Config → Outcome Config) where
  -- How one request went, read from the tally behind it.
  add_result-eq-ok :
      (t u : Tally) (m : Outcome Config) → add_result t m ≡ ok u → u.errs ≡ t.errs → m ≡ ok u.cfg
  unfolding add_result
  add_result-eq-ok t u (ok cfg) h e = ap (λ x. ok x) (ap (λ x. x.cfg) (ok-injective h))
  add_result-eq-ok t u (fail cfg) h e =
      absurd (let k = ap (λ x. x.errs) (ok-injective h) in omega (arith, k, e))
  add_result-eq-ok t u fault h e = absurd (fault-ne-ok h)
  add_result-eq-ok t u out_of_fuel h e = absurd (fuel-ne-ok h)

  add_result-grows :
      (t u : Tally) (m : Outcome Config) → add_result t m ≡ ok u → u.errs ≡ 0 → t.errs ≡ 0
  unfolding add_result
  add_result-grows t u (ok cfg) h e = ap (λ x. x.errs) (ok-injective h) ∙ e
  add_result-grows t u (fail cfg) h e =
      absurd (let k = ap (λ x. x.errs) (ok-injective h) in omega (arith, k, e))
  add_result-grows t u fault h e = absurd (fault-ne-ok h)
  add_result-grows t u out_of_fuel h e = absurd (fuel-ne-ok h)

  run_pass_sound :
      (rs : List Resolve) (t u : Tally)
      → run_pass step rs t ≡ ok u
      → u.errs ≡ 0
      → (t.errs ≡ 0) × Steps step t.cfg rs u.cfg
  unfolding run_pass
  run_pass_sound [] t u h e = let k = ok-injective h in (ap (λ x. x.errs) k ∙ e, rw (← k) done)
  run_pass_sound (r ∷ rs) t u h e =
      let b = bind-eq-ok (add_result t (step r t.cfg)) (run_pass step rs) h in
      let rest = run_pass_sound rs b.0 u b.2 e in
      let zero_errs = add_result-grows t b.0 (step r t.cfg) b.1 rest.0 in
      (zero_errs, next (add_result-eq-ok t b.0 (step r t.cfg) b.1 (rest.0 ∙ sym zero_errs)) rest.1)

  run_pass_complete :
      (rs : List Resolve) (t : Tally) (cfg : Config)
      → Steps step t.cfg rs cfg
      → run_pass step rs t ≡ ok (record { cfg = cfg; errs = t.errs })
  unfolding run_pass add_result
  run_pass_complete _ t _ done = refl
  run_pass_complete _ t cfg (next {r = r} {rs = rs} {b = b} e s) =
      rw e (run_pass_complete rs (record { cfg = b; errs = t.errs }) cfg s)

  finish_pass-eq-ok :
      (m : Outcome Tally) (cfg : Config)
      → finish_pass m ≡ ok cfg
      → (u : Tally) × (m ≡ ok u) × (u.errs ≡ 0) × (u.cfg ≡ cfg)
  unfolding finish_pass
  finish_pass-eq-ok (ok u) cfg h = let e = finish-eq-ok u cfg h in (u, refl, e.0, e.1)
  finish_pass-eq-ok (fail u) cfg h = absurd (fail-ne-ok h)
  finish_pass-eq-ok fault cfg h = absurd (fault-ne-ok h)
  finish_pass-eq-ok out_of_fuel cfg h = cc

  -- A pass succeeds exactly if all of its requests succeed one after another, and it leaves what the
  -- last one leaves.
  pub pass_iff : (cfg cfg' : Config) → (pass step cfg ≡ ok cfg') ↔ Steps step cfg cfg.requests cfg'
  unfolding pass finish_pass finish
  pass_iff cfg cfg' = (
    (λ h.
        let f =
          finish_pass-eq-ok (run_pass step cfg.requests (record { cfg = cfg; errs = 0 })) cfg' h in
        let s = run_pass_sound cfg.requests (record { cfg = cfg; errs = 0 }) f.0 f.1 f.2 in
        rw f.3 at s.1),
    (λ s. rw (run_pass_complete cfg.requests (record { cfg = cfg; errs = 0 }) cfg' s)),
  )

-- A successful linker_resolve is three passes in which every request succeeds.
pub record Resolved (cfg cfg' : Config) : Type 0 where
  pub a : Config
  pub b : Config
  pub first : Steps first_pass cfg cfg.requests a
  pub second : Steps second_pass a a.requests b
  pub third : Steps third_pass b b.requests cfg'

-- A pass that does not succeed has a request that fails, and it leaves what the last request leaves.
pub data Stopped (cfg cfg' : Config) : Type 0 where
  stopped_first : (n : ℕ) → Tallied first_pass cfg cfg.requests (suc n) cfg' → Stopped cfg cfg'
  stopped_second :
      (a : Config) (n : ℕ)
      → Steps first_pass cfg cfg.requests a
      → Tallied second_pass a a.requests (suc n) cfg'
      → Stopped cfg cfg'
  stopped_third :
      (a b : Config) (n : ℕ)
      → Steps first_pass cfg cfg.requests a
      → Steps second_pass a a.requests b
      → Tallied third_pass b b.requests (suc n) cfg'
      → Stopped cfg cfg'

linker_resolve-ok : (cfg cfg' : Config) → (linker_resolve cfg ≡ ok cfg') ↔ Resolved cfg cfg'
unfolding linker_resolve
linker_resolve-ok cfg cfg' = (
  (λ h.
      let t = bind-eq-ok (pass first_pass cfg >>= pass second_pass) (pass third_pass) h in
      let s = bind-eq-ok (pass first_pass cfg) (pass second_pass) t.1 in
      record {
        a = s.0;
        b = t.0;
        first = (pass_iff first_pass cfg s.0).0 s.1;
        second = (pass_iff second_pass s.0 t.0).0 s.2;
        third = (pass_iff third_pass t.0 cfg').0 t.2;
      }),
  (λ r. rw (
    (pass_iff first_pass cfg r.a).1 r.first,
    (pass_iff second_pass r.a r.b).1 r.second,
    (pass_iff third_pass r.b cfg').1 r.third,
  )),
)

linker_resolve-fail : (cfg cfg' : Config) → (linker_resolve cfg ≡ fail cfg') ↔ Stopped cfg cfg'
unfolding linker_resolve
linker_resolve-fail cfg cfg' = (to, from)
  where
    to : linker_resolve cfg ≡ fail cfg' → Stopped cfg cfg'
    to h = elim (bind-eq-fail (pass first_pass cfg >>= pass second_pass) (pass third_pass) h) [
      | inr (b, e, k) ↦
          let s = bind-eq-ok (pass first_pass cfg) (pass second_pass) e in
          let t = (pass_fail_iff third_pass b cfg').0 k in
          stopped_third s.0 b t.0 ((pass_iff first_pass cfg s.0).0 s.1)
            ((pass_iff second_pass s.0 b).0 s.2) t.1
      | inl k ↦ elim (bind-eq-fail (pass first_pass cfg) (pass second_pass) k) [
        | inr (a, e, k') ↦
            let t = (pass_fail_iff second_pass a cfg').0 k' in
            stopped_second a t.0 ((pass_iff first_pass cfg a).0 e) t.1
        | inl k' ↦ let t = (pass_fail_iff first_pass cfg cfg').0 k' in stopped_first t.0 t.1
      ]
    ]

    from : Stopped cfg cfg' → linker_resolve cfg ≡ fail cfg'
    from (stopped_first n t) = rw ((pass_fail_iff first_pass cfg cfg').1 (n, t))
    from (stopped_second a n s t) =
        rw ((pass_iff first_pass cfg a).1 s, (pass_fail_iff second_pass a cfg').1 (n, t))
    from (stopped_third a b n s s' t) = rw (
      (pass_iff first_pass cfg a).1 s,
      (pass_iff second_pass a b).1 s',
      (pass_fail_iff third_pass b cfg').1 (n, t),
    )

-- linker_resolve succeeds exactly if every request of each of the three passes does, in order. It
-- fails exactly if one of the passes, before which every request of each earlier pass succeeds, has
-- requests that fail: that pass goes through all of its requests, and what it leaves is the result,
-- so that no later pass runs.
pub linker_resolve-Resolved :
    (cfg cfg' : Config)
    → ((linker_resolve cfg ≡ ok cfg') ↔ Resolved cfg cfg')
      × ((linker_resolve cfg ≡ fail cfg') ↔ Stopped cfg cfg')
linker_resolve-Resolved cfg cfg' = (linker_resolve-ok cfg cfg', linker_resolve-fail cfg cfg')
