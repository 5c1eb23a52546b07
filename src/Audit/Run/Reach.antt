-- ===== src/Audit/Run/Reach.antt =====
-- The reachable entries in the audit of a role.
use mathlib.Core.Path.{subst}
use mathlib.Core.List.{append-nil}
use openradtool.Base.{
  ℕ, inl, inr, ◌≡◌, refl, sym, ap, ◌∙◌, Bool, true, false, not, ◌||◌, none, List, [], ◌∷◌, ◌++◌,
  ◌==◌, Bool-cases, if_cases, Option-cases, All, All-append, In, In-append_cases, Distinct, arith,
  ==_iff,
}
use openradtool.Model.{Role, Config}
use openradtool.Model.Outcome.{ok, Returns, returns_ok, Returns-ok, Returns-if}
use openradtool.Audit.{rolemap_has}
use openradtool.Audit.Run.{
  Auditpaths, Audit, audit_insert, audit_update, audit_query, audit_reachable, has_reach, new_reach,
  push_path, with_reach, visit, add_insert, add_updates, result_strct, add_searches, audit_strct,
  audit_strcts, ort_audit,
}
use openradtool.Audit.Run.Laws.{Returns-bind, Returns-into, follow-keeps}

-- The structures of the reachable entries.
unfoldable pub reached : List Audit → List ℕ
reached [] = []
reached (audit_reachable a ∷ aq) = a.st ∷ reached aq
reached (_ ∷ aq) = reached aq

unfoldable pub any_exported : List Auditpaths → Bool
any_exported [] = false
any_exported (p ∷ ps) = p.exported || any_exported ps

-- A reachable entry is exported if and only if one of its paths is.
abbrev pub Consistent : Audit → Type 0
Consistent (audit_reachable a) = a.exported ≡ any_exported a.srs
Consistent (audit_insert _) = Unit
Consistent (audit_update _) = Unit
Consistent (audit_query _) = Unit

pub record Sound (aq : List Audit) : Type 0 where
  pub once : Distinct (reached aq)
  pub exported : All Consistent aq

any_exported-snoc :
    (ps : List Auditpaths) (p : Auditpaths)
    → any_exported (ps ++ p ∷ []) ≡ any_exported ps || p.exported
unfolding any_exported
any_exported-snoc [] p = ground arith
any_exported-snoc (q ∷ ps) p = ground (arith, any_exported-snoc ps p)

reached-with_reach :
    (st : ℕ) (p : Auditpaths) (aq : List Audit) → reached (with_reach st p aq) ≡ reached aq
unfolding reached with_reach push_path
reached-with_reach st p [] = refl
reached-with_reach st p (audit_reachable a ∷ aq) =
    if_cases (λ x. reached x ≡ a.st ∷ reached aq) (a.st == st) (λ e. refl)
      (λ e. ap (a.st ∷◌) (reached-with_reach st p aq))
reached-with_reach st p (audit_insert x ∷ aq) = reached-with_reach st p aq
reached-with_reach st p (audit_update x ∷ aq) = reached-with_reach st p aq
reached-with_reach st p (audit_query x ∷ aq) = reached-with_reach st p aq

-- Entries without a structure are consistent behind it, whether its entry was there or is new.
with_reach-Consistent :
    (st : ℕ) (p : Auditpaths) (aq : List Audit)
    → All Consistent aq
    → All Consistent (with_reach st p aq)
unfolding with_reach push_path
with_reach-Consistent st p [] h = tt
with_reach-Consistent st p (audit_reachable a ∷ aq) h =
    if_cases (All Consistent) (a.st == st)
      (λ e. (ap (◌|| p.exported) h.0 ∙ sym (any_exported-snoc a.srs p), h.1))
      (λ e. (h.0, with_reach-Consistent st p aq h.1))
with_reach-Consistent st p (audit_insert x ∷ aq) h = (tt, with_reach-Consistent st p aq h.1)
with_reach-Consistent st p (audit_update x ∷ aq) h = (tt, with_reach-Consistent st p aq h.1)
with_reach-Consistent st p (audit_query x ∷ aq) h = (tt, with_reach-Consistent st p aq h.1)

with_reach-new :
    (cfg : Config) (r : Role) (st : ℕ) (p : Auditpaths) (aq : List Audit)
    → All Consistent aq
    → has_reach st aq ≡ false
    → All Consistent (with_reach st p (aq ++ audit_reachable (new_reach cfg r st p.exported) ∷ []))
unfolding with_reach push_path has_reach new_reach any_exported
with_reach-new cfg r st p [] h n =
    let same : (st == st) ≡ true = ground arith in rw same (ground arith, tt)
with_reach-new cfg r st p (audit_reachable a ∷ aq) h n =
    let other : (a.st == st) ≡ false = ground (arith, n) in
    let rest : has_reach st aq ≡ false = ground (arith, n) in
    rw other (h.0, with_reach-new cfg r st p aq h.1 rest)
with_reach-new cfg r st p (audit_insert x ∷ aq) h n = (tt, with_reach-new cfg r st p aq h.1 n)
with_reach-new cfg r st p (audit_update x ∷ aq) h n = (tt, with_reach-new cfg r st p aq h.1 n)
with_reach-new cfg r st p (audit_query x ∷ aq) h n = (tt, with_reach-new cfg r st p aq h.1 n)

has_reach-In : (st : ℕ) (aq : List Audit) → has_reach st aq ≡ false → ¬ In st (reached aq)
unfolding has_reach reached
has_reach-In st [] n m = m
has_reach-In st (audit_reachable a ∷ aq) n (inl e) = ground (arith, n, ==_iff a.st st, e)
has_reach-In st (audit_reachable a ∷ aq) n (inr m) = has_reach-In st aq (ground (arith, n)) m
has_reach-In st (audit_insert x ∷ aq) n m = has_reach-In st aq n m
has_reach-In st (audit_update x ∷ aq) n m = has_reach-In st aq n m
has_reach-In st (audit_query x ∷ aq) n m = has_reach-In st aq n m

Distinct-snoc : (xs : List ℕ) (y : ℕ) → Distinct xs → ¬ In y xs → Distinct (xs ++ y ∷ [])
Distinct-snoc [] y h n = (λ z m. absurd m, tt)
Distinct-snoc (x ∷ xs) y h n = (
  λ z m. elim (In-append_cases z xs (y ∷ []) m) [
    | inl l ↦ h.0 z l
    | inr (inl e) ↦ λ same. n (inl (sym e ∙ sym same))
    | inr (inr end) ↦ absurd end
  ],
  Distinct-snoc xs y h.1 (λ m. n (inr m)),
)

reached-append : (xs ys : List Audit) → reached (xs ++ ys) ≡ reached xs ++ reached ys
unfolding reached
reached-append [] ys = refl
reached-append (audit_reachable a ∷ xs) ys = ap (a.st ∷◌) (reached-append xs ys)
reached-append (audit_insert x ∷ xs) ys = reached-append xs ys
reached-append (audit_update x ∷ xs) ys = reached-append xs ys
reached-append (audit_query x ∷ xs) ys = reached-append xs ys

visit-Sound :
    (cfg : Config) (r : Role) (st : ℕ) (p : Auditpaths) (aq : List Audit)
    → Sound aq
    → Sound (visit cfg r st p aq)
unfolding visit new_reach reached
visit-Sound cfg r st p aq h = elim (Bool-cases (has_reach st aq)) [
  | inl e ↦ rw (e) (record {
    once = subst Distinct (sym (reached-with_reach st p aq)) h.once;
    exported = with_reach-Consistent st p aq h.exported;
  })
  | inr e ↦
      let new = audit_reachable (new_reach cfg r st p.exported) in
      let all = reached-with_reach st p (aq ++ new ∷ []) ∙ reached-append aq (new ∷ []) in
      rw (e) (record {
        once =
            subst Distinct (sym all) (Distinct-snoc (reached aq) st h.once (has_reach-In st aq e));
        exported = with_reach-new cfg r st p aq h.exported e;
      })
]

-- An operation is appended.
push-Sound :
    (aq : List Audit) (x : Audit)
    → reached (x ∷ []) ≡ []
    → Consistent x
    → Sound aq
    → Sound (aq ++ x ∷ [])
push-Sound aq x e c h = record {
  once =
      subst Distinct
        (sym (reached-append aq (x ∷ []) ∙ ap (reached aq ++◌) e ∙ append-nil (reached aq))) h.once;
  exported = All-append Consistent aq (x ∷ []) h.exported (c, tt);
}

add_insert-Sound :
    (cfg : Config) (r : Role) (st : ℕ) (aq : List Audit) → Sound aq → Sound (add_insert cfg r st aq)
unfolding add_insert reached
add_insert-Sound cfg r st aq h = elim (Option-cases (cfg.strct st).ins) [
  | inl e ↦ rw (e, add_insert) h
  | inr (i, e) ↦
      rw (e, add_insert)
        (if_cases Sound (rolemap_has cfg i.rolemap r)
          (λ k. push-Sound aq (audit_insert st) refl tt h) (λ k. h))
]

add_updates-Sound :
    (cfg : Config) (r : Role) (us : List ℕ) (aq : List Audit)
    → Sound aq
    → Sound (add_updates cfg r us aq)
unfolding add_updates reached
add_updates-Sound cfg r [] aq h = h
add_updates-Sound cfg r (u ∷ us) aq h = add_updates-Sound cfg r us _ (
    if_cases Sound (rolemap_has cfg (cfg.update u).rolemap r)
      (λ k. push-Sound aq (audit_update u) refl tt h) (λ k. h))

add_searches-Sound :
    (n : ℕ) (cfg : Config) (r : Role) (st : ℕ) (exported : Bool) (ss : List ℕ) (aq : List Audit)
    → Sound aq
    → Returns Sound (λ _. Unit) (add_searches n cfg r st exported ss aq)
unfolding add_searches reached
add_searches-Sound n cfg r st exported [] aq h = returns_ok aq h
add_searches-Sound n cfg r st exported (s ∷ ss) aq h =
    Returns-if (not (rolemap_has cfg (cfg.search s).rolemap r))
      (λ e. add_searches-Sound n cfg r st exported ss aq h)
      λ e.
        Returns-bind _ _
          (Returns-into (result_strct cfg st s) _ (λ p.
            follow-keeps cfg r Sound (visit-Sound cfg r) n s p exported none
              (aq ++ audit_query s ∷ []) (push-Sound aq (audit_query s) refl tt h)))
          (λ a k. add_searches-Sound n cfg r st exported ss a k)

audit_strcts-Sound :
    (n : ℕ) (cfg : Config) (r : Role) (ps : List ℕ) (aq : List Audit)
    → Sound aq
    → Returns Sound (λ _. Unit) (audit_strcts n cfg r ps aq)
unfolding audit_strcts audit_strct
audit_strcts-Sound n cfg r [] aq h = returns_ok aq h
audit_strcts-Sound n cfg r (p ∷ ps) aq h =
    Returns-bind _ _
      (add_searches-Sound n cfg r p _ (cfg.strct p).sq _ (
        add_updates-Sound cfg r (cfg.strct p).dq _
          (add_updates-Sound cfg r (cfg.strct p).uq _ (add_insert-Sound cfg r p aq h))))
      (λ a k. audit_strcts-Sound n cfg r ps a k)

-- In the audit of a role, no structure has two reachable entries, and a reachable entry is exported
-- if and only if one of the paths to it is.
pub ort_audit-Sound :
    (n : ℕ) (r : Role) (cfg : Config) (aq : List Audit) → ort_audit n r cfg ≡ ok aq → Sound aq
unfolding ort_audit reached
ort_audit-Sound n r cfg aq h =
    let start : Sound [] = record { once = tt; exported = tt } in
    Returns-ok (audit_strcts n cfg r cfg.sq []) (audit_strcts-Sound n cfg r cfg.sq [] start) h
