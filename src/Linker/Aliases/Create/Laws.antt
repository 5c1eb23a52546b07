-- ===== src/Linker/Aliases/Create/Laws.antt =====
-- What a walk that succeeds shows: no recursive reference, and aliases named in order.
use native.Mathlib.Nat.{zero-add, suc-add}
use mathlib.Core.List.{append-nil, append_assoc, map-append}
use openradtool.Base.{
  ℕ, zero, suc, ◌+◌, ◌-◌, ◌<◌, ◌≡◌, ◌≢◌, ◌∙◌, refl, sym, ap, Bool, true, false, Option, none, some,
  List, [], ◌∷◌, ◌++◌, ◌⊎◌, inl, inr, In, map, Bytes, Option-cases, arith,
}
use openradtool.Model.{Alias}
use openradtool.Model.Outcome.{ok, out_of_fuel, bind-eq-ok, bind-eq-out_of_fuel}
use openradtool.Linker.Graph.{Graph, Avoids, is_struct, target_parent}
use openradtool.Linker.Aliases.Name.{alias_limit, alias_name}
use openradtool.Linker.Aliases.Create.{
  Walk, Call, new_alias, push_alias, create_field, create_fields, linker_aliases_create,
}

-- The aliases from the `n`-th on, `k` of them.
abbrev pub alias_range : ℕ → ℕ → List (Option Bytes)
alias_range n zero = []
alias_range n (suc k) = some (alias_name n) ∷ alias_range (n + 1) k

pub alias_range-append :
    (n m k l : ℕ) → m ≡ n + k → alias_range n k ++ alias_range m l ≡ alias_range n (k + l)
alias_range-append n m zero l e = let e' : m ≡ n = omega arith in rw (e', zero-add)
alias_range-append n m (suc k) l e =
    rw suc-add (ap (◌∷◌ (some (alias_name n))) (alias_range-append (n + 1) m k l (omega arith)))

abbrev pub strings : List Alias → List (Option Bytes)
strings as_ = map (λ a. a.alias) as_

-- `w'` has `count` aliases more than `w`, which stand behind those of `w` and are named in order.
pub record Extends (w w' : Walk) : Type 0 where
  pub count : ℕ
  pub offs : w'.offs ≡ w.offs + count
  pub aq : strings w'.aq ≡ strings w.aq ++ alias_range w.offs count

Extends-refl : (w : Walk) → Extends w w
Extends-refl w = record { count = 0; offs = omega arith; aq = sym (append-nil (strings w.aq)) }

Extends-trans : {u v w : Walk} → Extends u v → Extends v w → Extends u w
Extends-trans {u} {v} {w} a b = record {
  count = a.count + b.count;
  offs = omega arith;
  aq =
      b.aq
      ∙ ap (λ t. t ++ alias_range v.offs b.count) a.aq
      ∙ append_assoc (strings u.aq) (alias_range u.offs a.count) (alias_range v.offs b.count)
      ∙ ap (◌++◌ (strings u.aq)) (alias_range-append u.offs v.offs a.count b.count a.offs);
}

module _ (g : Graph) (orig : ℕ) where
  -- One field of type struct: if it succeeds, the structure behind it is not `orig`, and the
  -- recursive call succeeded behind one new alias.
  create_field-ok :
      (rec : Call g orig) (prior : Option Alias) (f q : ℕ) (w w' : Walk)
      → create_field g orig rec prior f w ≡ ok w'
      → is_struct (g.field f).type ≡ true
      → target_parent g f ≡ some q
      → (q ≢ orig)
        × (w.offs < alias_limit)
        × (rec q
              (some (new_alias g orig prior f w.offs))
              (record (push_alias g orig w (new_alias g orig prior f w.offs)) { offs = w.offs + 1 })
            ≡ ok w')
  unfolding create_field
  create_field-ok rec prior f q w w' h s t = ground arith

  Extends-push :
      (w : Walk) (prior : Option Alias) (f : ℕ)
      → Extends w
          (record (push_alias g orig w (new_alias g orig prior f w.offs)) { offs = w.offs + 1 })
  unfolding new_alias
  Extends-push w prior f = record { count = 1; offs = refl; aq = map-append _ w.aq _ }

  -- A field of another type is skipped; for one of type struct the call returned.
  create_field-cases :
      (rec : Call g orig) (prior : Option Alias) (f : ℕ) (w w' : Walk)
      → create_field g orig rec prior f w ≡ ok w'
      → (w ≡ w') ⊎ ((q : ℕ) × (is_struct (g.field f).type ≡ true) × (target_parent g f ≡ some q))
  unfolding create_field
  create_field-cases rec prior f w w' h =
      go (is_struct (g.field f).type) (target_parent g f) refl refl
    where
      go :
          (b : Bool) (t : Option ℕ)
          → is_struct (g.field f).type ≡ b
          → target_parent g f ≡ t
          → (w ≡ w')
            ⊎ ((q : ℕ) × (is_struct (g.field f).type ≡ true) × (target_parent g f ≡ some q))
      go false t e k = inl (ground arith)
      go true none e k = inl (ground arith)
      go true (some q) e k = inr (q, e, k)

  module _ (rec : Call g orig)
      (extends : (q : ℕ) (a : Option Alias) (v v' : Walk) → rec q a v ≡ ok v' → Extends v v') where
    create_field-Extends :
        (prior : Option Alias) (f : ℕ) (w w' : Walk)
        → create_field g orig rec prior f w ≡ ok w'
        → Extends w w'
    create_field-Extends prior f w w' h = elim (create_field-cases rec prior f w w' h) [
      | inl e ↦ rw (← e) (Extends-refl w)
      | inr (q, s, t) ↦
          let (_, _, r) = create_field-ok rec prior f q w w' h s t in
          Extends-trans (Extends-push w prior f) (extends q _ _ w' r)
    ]

    create_fields-Extends :
        (prior : Option Alias) (fs : List ℕ) (w w' : Walk)
        → create_fields g orig rec prior fs w ≡ ok w'
        → Extends w w'
    unfolding create_fields
    create_fields-Extends prior [] w w' h = let e : w ≡ w' = cc in rw (← e) (Extends-refl w)
    create_fields-Extends prior (f ∷ fs) w w' h =
        let (v, a, b) =
          bind-eq-ok (create_field g orig rec prior f w) (λ v. create_fields g orig rec prior fs v)
            h in
        Extends-trans (create_field-Extends prior f w v a) (create_fields-Extends prior fs v w' b)

  create_fields-targets :
      (rec : Call g orig) (P : ℕ → Type 0)
      (sound : (q : ℕ) (a : Option Alias) (v v' : Walk) → rec q a v ≡ ok v' → P q)
      (prior : Option Alias) (fs : List ℕ) (w w' : Walk)
      → create_fields g orig rec prior fs w ≡ ok w'
      → (f q : ℕ) → In f fs
      → is_struct (g.field f).type ≡ true
      → target_parent g f ≡ some q
      → (q ≢ orig) × P q
  unfolding create_fields
  create_fields-targets rec P sound prior [] w w' h f q m s t = absurd m
  create_fields-targets rec P sound prior (x ∷ fs) w w' h f q m s t =
      let (v, a, b) =
        bind-eq-ok (create_field g orig rec prior x w) (λ v. create_fields g orig rec prior fs v)
          h in
      elim m [
        | inl e ↦
            let (ne, _, r) = create_field-ok rec prior f q w v (rw e a) s t in (ne, sound q _ _ v r)
        | inr m' ↦ create_fields-targets rec P sound prior fs v w' b f q m' s t
      ]

  -- A walk that succeeds names the new aliases in order.
  pub linker_aliases_create-Extends :
      (n p : ℕ) (prior : Option Alias) (w w' : Walk)
      → linker_aliases_create g orig n p prior w ≡ ok w'
      → Extends w w'
  unfolding linker_aliases_create
  linker_aliases_create-Extends zero p prior w w' h = cc
  linker_aliases_create-Extends (suc n) p prior w w' h =
      create_fields-Extends (linker_aliases_create g orig n) (linker_aliases_create-Extends n) prior
        (g.fq p) w w' h

  pub linker_aliases_create-Avoids :
      (n p : ℕ) (prior : Option Alias) (w w' : Walk)
      → linker_aliases_create g orig n p prior w ≡ ok w'
      → Avoids g orig n p
  unfolding linker_aliases_create Avoids
  linker_aliases_create-Avoids zero p prior w w' h = cc
  linker_aliases_create-Avoids (suc n) p prior w w' h = λ f q e.
      create_fields-targets (linker_aliases_create g orig n) (Avoids g orig n)
        (linker_aliases_create-Avoids n) prior (g.fq p) w w' h f q e.mem e.type e.target

  create_field-fuel :
      (rec : Call g orig) (n : ℕ)
      → ((q : ℕ) (a : Option Alias) (v : Walk) → alias_limit - v.offs < n → rec q a v ≢ out_of_fuel)
      → (prior : Option Alias) (f : ℕ) (w : Walk) → alias_limit - w.offs < suc n
      → create_field g orig rec prior f w ≢ out_of_fuel
  unfolding create_field
  create_field-fuel rec n enough prior f w h e =
      let a = new_alias g orig prior f w.offs in
      elim (Option-cases (target_parent g f)) [
        | inl t ↦ ground arith
        | inr (q, t) ↦
            ground (arith, enough q (some a) (record (push_alias g orig w a) { offs = w.offs + 1 }))
      ]

  create_fields-fuel :
      (rec : Call g orig) (n : ℕ)
      → ((q : ℕ) (a : Option Alias) (v v' : Walk) → rec q a v ≡ ok v' → Extends v v')
      → ((q : ℕ) (a : Option Alias) (v : Walk) → alias_limit - v.offs < n → rec q a v ≢ out_of_fuel)
      → (prior : Option Alias) (fs : List ℕ) (w : Walk) → alias_limit - w.offs < suc n
      → create_fields g orig rec prior fs w ≢ out_of_fuel
  unfolding create_fields
  create_fields-fuel rec n extends enough prior [] w h e = cc
  create_fields-fuel rec n extends enough prior (f ∷ fs) w h e =
      elim (bind-eq-out_of_fuel (create_field g orig rec prior f w)
        (λ v. create_fields g orig rec prior fs v) e) [
          | inl x ↦ create_field-fuel rec n enough prior f w h x
          | inr (v, x, y) ↦
              let more = create_field-Extends rec extends prior f w v x in
              create_fields-fuel rec n extends enough prior fs v (omega (arith, more.offs)) y
        ]

  -- The limit on aliases ends every walk, recursive references that miss `orig` included.
  pub linker_aliases_create-ne-out_of_fuel :
      (n p : ℕ) (prior : Option Alias) (w : Walk)
      → alias_limit - w.offs < n
      → linker_aliases_create g orig n p prior w ≢ out_of_fuel
  unfolding linker_aliases_create
  linker_aliases_create-ne-out_of_fuel zero p prior w h e = absurd (omega arith)
  linker_aliases_create-ne-out_of_fuel (suc n) p prior w h e =
      create_fields-fuel (linker_aliases_create g orig n) n (linker_aliases_create-Extends n)
        (linker_aliases_create-ne-out_of_fuel n) prior (g.fq p) w h e
