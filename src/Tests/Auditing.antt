-- ===== src/Tests/Auditing.antt =====
-- The theorems on the audit, applied to the small configuration.
use openradtool.Base.{
  ◌≡◌, ◌≢◌, inl, inr, refl, sym, ◌∙◌, true, some, some_inj, List, [], ◌∷◌, codes, In,
}
use mathlib.Core.Path.{subst}
use openradtool.Model.{Role, top, Config}
use openradtool.Model.Outcome.{out_of_fuel}
use openradtool.Linker.Aliases.{walk_fuel}
use openradtool.Linker.Graph.{graph, Avoids}
use openradtool.Audit.Run.{Audit, result_strct, ort_audit}
use openradtool.Audit.Run.Laws.{operations, allowed, ort_audit-allowed}
use openradtool.Audit.Run.Reach.{reached, Sound, ort_audit-Sound}
use openradtool.Audit.Run.Ends.{NoCycles, ort_audit-ends}
use openradtool.Tests.{whole, here, searches, after, is_ok, after-is_ok}
use openradtool.Tests.Linking.{whole-Avoids}

abbrev guest : Role
guest = top 0 (codes "guest") here

-- The guest may search.
abbrev audited : Config
audited = record whole { search = λ s. record (searches s) { rolemap = some 0 } }

abbrev entries : List Audit
entries = after [] (ort_audit walk_fuel guest audited)

-- The search reaches the user and, from there, the company.
entries-reached :
    (is_ok (ort_audit walk_fuel guest audited) ≡ true) × (reached entries ≡ 1 ∷ 0 ∷ [])
unfolding ort_audit reached walk_fuel
entries-reached = (refl, refl)

ort_audit-allowed_example : operations entries ≡ allowed audited guest audited.sq
ort_audit-allowed_example =
    ort_audit-allowed walk_fuel guest audited entries
      (after-is_ok [] (ort_audit walk_fuel guest audited) entries-reached.0)

ort_audit-Sound_example : Sound entries
ort_audit-Sound_example =
    ort_audit-Sound walk_fuel guest audited entries
      (after-is_ok [] (ort_audit walk_fuel guest audited) entries-reached.0)

audited-NoCycles : NoCycles audited walk_fuel audited.sq
unfolding result_strct
audited-NoCycles p s q (inl e) m r = absurd (subst (λ x. In s (audited.strct x).sq) e m)
audited-NoCycles p s q (inr (inl e)) m r = elim (subst (λ x. In s (audited.strct x).sq) e m) [
  | inl first ↦
      let same : some p ≡ some q = subst (λ x. result_strct audited p x ≡ some q) first r in
      subst (λ x. Avoids (graph audited) x walk_fuel x) (sym e ∙ some_inj same) whole-Avoids
  | inr end ↦ absurd end
]
audited-NoCycles p s q (inr (inr end)) m r = absurd end

ort_audit-ends_example : ort_audit walk_fuel guest audited ≢ out_of_fuel
ort_audit-ends_example = ort_audit-ends walk_fuel guest audited audited-NoCycles
