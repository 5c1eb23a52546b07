-- ===== src/Parser/Enum/Items.antt =====
-- The items of an enumeration, as parse_enum_item leaves them, before values are assigned.
use mathlib.Core.Path.{subst}
use openradtool.Base.{
  ℕ, zero, suc, inl, inr, ◌≡◌, refl, sym, ap, ◌∙◌, Bool, true, false, not, ◌&&◌, ◌||◌, List, [],
  ◌∷◌, ◌++◌, Bytes, codes, lower, to_lower, strcaseeq, Bool-cases, Option-cases, All, Pairwise,
  Pairwise-snoc, All-append, arith,
}
use openradtool.Model.{Eitem}
use openradtool.Model.Outcome.{
  Returns, returns_ok, returns_fail, returns_none, Returns-if, Returns-return,
}
use openradtool.Parser.State.{Libc, stops, is_ident, string_of, integer_of}
use openradtool.Parser.Lexer.{parse_next}
use openradtool.Parser.Labels.{parse_comment}
use openradtool.Parser.Labels.Fails.{stops-parse_errx, parse_comment-fails}
use openradtool.Parser.Assign.{int_eq}
use openradtool.Parser.Item.{
  ItemState, is_extreme, has_value, item_attribute, item_attributes, item_end, item_value,
  parse_enum_item,
}
use openradtool.Parser.Enum.{has_item}

to_lower-to_lower : (c : ℕ) → to_lower (to_lower c) ≡ to_lower c
unfolding to_lower
to_lower-to_lower c = ground arith

-- The case of a name does not matter to strcasecmp.
pub strcaseeq-lower : (a b : Bytes) → strcaseeq a (lower b) ≡ strcaseeq a b
unfolding strcaseeq lower
strcaseeq-lower [] [] = refl
strcaseeq-lower [] (y ∷ b) = refl
strcaseeq-lower (x ∷ a) [] = refl
strcaseeq-lower (x ∷ a) (y ∷ b) = rw (to_lower-to_lower y, strcaseeq-lower a b) refl

abbrev pub NamesApart : Eitem → Eitem → Type 0
NamesApart x y = strcaseeq x.name y.name ≡ false

-- The values are different, if neither is to be assigned.
abbrev pub ValuesApart : Eitem → Eitem → Type 0
ValuesApart x y = (not x.auto && not y.auto && int_eq y.value x.value) ≡ false

-- A value that is given is neither INT64_MAX nor INT64_MIN.
abbrev pub Moderate : Eitem → Type 0
Moderate x = (not x.auto && is_extreme x.value) ≡ false

unfoldable pub any_auto : List Eitem → Bool
any_auto [] = false
any_auto (x ∷ xs) = x.auto || any_auto xs

pub any_auto-snoc : (xs : List Eitem) (y : Eitem) → any_auto (xs ++ y ∷ []) ≡ any_auto xs || y.auto
unfolding any_auto
any_auto-snoc [] y = ground arith
any_auto-snoc (x ∷ xs) y = ground (arith, any_auto-snoc xs y)

-- The item can stand behind `others`.
pub record Fits (others : List Eitem) (name : Bytes) (i : Eitem) : Type 0 where
  pub name_is : i.name ≡ lower name
  pub apart : All (λ x. ValuesApart x i) others
  pub moderate : Moderate i

pub record Wellformed (es : List Eitem) : Type 0 where
  pub names : Pairwise NamesApart es
  pub values : Pairwise ValuesApart es
  pub moderate : All Moderate es

-- The two items have the same name and value.
record Alike (i j : Eitem) : Type 0 where
  item : j ≡ record i { doc = j.doc; labels = j.labels }

has_value-apart :
    (es : List Eitem) (i : Eitem) → has_value i.value es ≡ false → All (λ x. ValuesApart x i) es
unfolding has_value
has_value-apart [] i h = tt
has_value-apart (x ∷ es) i h = (ground (arith, h), has_value-apart es i (ground (arith, h)))

auto-apart : (es : List Eitem) (i : Eitem) → i.auto ≡ true → All (λ x. ValuesApart x i) es
auto-apart [] i h = tt
auto-apart (x ∷ es) i h = (ground (arith, h), auto-apart es i h)

has_item-apart :
    (es : List Eitem) (i : Eitem) (name : Bytes)
    → i.name ≡ lower name
    → has_item es name ≡ false
    → All (λ x. NamesApart x i) es
unfolding has_item
has_item-apart [] i name e h = tt
has_item-apart (x ∷ es) i name e h = (
  ap (strcaseeq x.name) e ∙ strcaseeq-lower x.name name ∙ ground (arith, h),
  has_item-apart es i name e (ground (arith, h)),
)

pub Wellformed-snoc :
    (es : List Eitem) (i : Eitem) (name : Bytes)
    → Wellformed es
    → Fits es name i
    → has_item es name ≡ false
    → Wellformed (es ++ i ∷ [])
Wellformed-snoc es i name w f h = record {
  names = Pairwise-snoc NamesApart es i w.names (has_item-apart es i name f.name_is h);
  values = Pairwise-snoc ValuesApart es i w.values f.apart;
  moderate = All-append Moderate es (i ∷ []) w.moderate (f.moderate, tt);
}

module _ (lib : Libc) where
  item_attribute-Alike : (s : ItemState) → Alike s.item (item_attribute lib s).state.item
  unfolding item_attribute
  item_attribute-Alike s =
      elim (Bool-cases (strcaseeq (string_of s.parse.last) (codes "comment"))) [
        | inl e ↦ elim (Bool-cases (parse_comment lib s.parse s.item.doc).success) [
          | inl f ↦ rw (e, f) (record { item = refl })
          | inr f ↦ rw (e, f) (record { item = refl })
        ]
        | inr e ↦ elim (Bool-cases (strcaseeq (string_of s.parse.last) (codes "jslabel"))) [
          | inl f ↦ rw (e, f) (record { item = refl })
          | inr f ↦ rw (e, f) (record { item = refl })
        ]
      ]

  item_attribute-stops :
      (s : ItemState)
      → (item_attribute lib s).go ≡ false
      → stops (item_attribute lib s).state.parse.last ≡ true
  unfolding item_attribute
  item_attribute-stops s h = ground (arith, parse_comment-fails lib s.parse s.item.doc)

  Alike-trans : {i j k : Eitem} → Alike i j → Alike j k → Alike i k
  Alike-trans {k = k} h l =
      let swap : Eitem → Eitem = λ x. record x { doc = k.doc; labels = k.labels } in
      record { item = l.item ∙ ap swap h.item }

  item_attributes-Alike :
      (n : ℕ) (i : Eitem) (s : ItemState)
      → Alike i s.item
      → Returns (λ t. Alike i t.item) (λ t. stops t.parse.last ≡ true) (item_attributes lib n s)
  unfolding item_attributes
  item_attributes-Alike zero i s h = returns_none
  item_attributes-Alike (suc n) i s h =
      let r = item_attribute lib s in
      Returns-if (not (stops s.parse.last) && is_ident s.parse.last)
        (λ e.
          Returns-if r.go
            (λ f. item_attributes-Alike n i r.state (Alike-trans h (item_attribute-Alike s)))
            (λ f. returns_fail _ (item_attribute-stops s f)))
        (λ e. returns_ok s h)

  Fits-Alike :
      (others : List Eitem) (name : Bytes) (i j : Eitem)
      → Alike i j
      → Fits others name i
      → Fits others name j
  Fits-Alike others name i j a f =
      subst (Fits others name) (sym a.item)
        (record { name_is = f.name_is; apart = f.apart; moderate = f.moderate })

  -- The value: a new item that is accepted fits.
  item_value-Fits :
      (others : List Eitem) (name : Bytes) (s : ItemState)
      → s.item.name ≡ lower name
      → s.item.auto ≡ false
      → Returns
          (λ t. Fits others name t.item)
          (λ t. stops t.parse.last ≡ true)
          (item_value lib others s)
  unfolding item_value
  item_value-Fits others name s e given =
      let p = parse_next lib s.parse in
      elim (Option-cases (integer_of p.last)) [
        | inl auto ↦
            rw (auto, item_value)
              (returns_ok _ (record {
                name_is = e;
                apart = auto-apart others (record s.item { auto = true }) refl;
                moderate = refl;
              }))
        | inr (v, number) ↦
            rw (number, item_value)
              (Returns-if (is_extreme v)
                (λ f. returns_fail _ (stops-parse_errx p "enum item value too big or small"))
                λ f.
                  Returns-if (has_value v others)
                    (λ g. returns_fail _ (stops-parse_errx p "duplicate enum item value"))
                    (λ g. returns_ok _ (record {
                      name_is = e;
                      apart = has_value-apart others (record s.item { value = v }) g;
                      moderate = ground (arith, f);
                    })))
      ]

  item_end-item : (s : ItemState) → (item_end lib s).item ≡ s.item
  unfolding item_end
  item_end-item s = ground arith

  pub parse_enum_item-Fits :
      (n : ℕ) (others : List Eitem) (name : Bytes) (s : ItemState)
      → s.item.name ≡ lower name
      → s.item.auto ≡ false
      → Returns
          (λ t. Fits others name t.item)
          (λ t. stops t.parse.last ≡ true)
          (parse_enum_item lib n others s)
  unfolding parse_enum_item
  parse_enum_item-Fits n others name s e given =
      Returns-return _ _ _ (item_value-Fits others name s e given)
        (λ s1 f1.
          Returns-return _ _ _ (item_attributes-Alike n s1.item s1 (record { item = refl }))
            (λ s2 a2. returns_ok _ (
              subst (Fits others name) (sym (item_end-item s2))
                (Fits-Alike others name s1.item s2.item a2 f1)))
            (λ s2 h2. returns_fail s2 h2))
        (λ s1 h1. returns_fail s1 h1)
