-- ===== src/Parser/Bitfield/Items.antt =====
-- The items of a bitfield, as parse_bitidx_item leaves them.
use mathlib.Core.Path.{subst}
use openradtool.Base.{
  pos, negsuc, ℤ, ◌<◌, ℕ, zero, suc, inl, inr, ◌⊎◌, ◌≡◌, refl, sym, ap, ◌∙◌, true, false, List, [],
  ◌∷◌, ◌++◌, Bytes, codes, lower, strcaseeq, Bool-cases, Option-cases, All, All-append, Pairwise,
  Pairwise-snoc, arith,
}
use openradtool.Model.{Bitidx}
use openradtool.Model.Outcome.{
  Returns, returns_ok, returns_fail, returns_none, Returns-if, Returns-return,
}
use openradtool.Parser.State.{Libc, stops, is_ident, string_of, integer_of}
use openradtool.Parser.Lexer.{parse_next}
use openradtool.Parser.Labels.Fails.{stops-parse_errx}
use openradtool.Parser.Assign.{int_eq}
use openradtool.Parser.Enum.Items.{strcaseeq-lower}
use openradtool.Parser.Bitfield.{
  BitState, BitfState, out_of_range, has_bit, has_bit_name, bit_attribute, bit_attributes, bit_end,
  bit_value, parse_bitidx_item,
}

abbrev pub BitNamesApart : Bitidx → Bitidx → Type 0
BitNamesApart x y = strcaseeq x.name y.name ≡ false

abbrev pub BitsApart : Bitidx → Bitidx → Type 0
BitsApart x y = int_eq y.value x.value ≡ false

-- The index is one of a 64-bit integer.
abbrev pub InRange : Bitidx → Type 0
InRange x = (n : ℕ) × (x.value ≡ pos n) × (n < 64)

in_range : (v : ℤ) → out_of_range v ≡ false → (n : ℕ) × (v ≡ pos n) × (n < 64)
unfolding out_of_range
in_range (pos n) h = (n, refl, ground (arith, h))
in_range (negsuc n) h = cc

-- The item can stand behind `others`.
pub record Fits (others : List Bitidx) (name : Bytes) (i : Bitidx) : Type 0 where
  pub name_is : i.name ≡ lower name
  pub apart : All (λ x. BitsApart x i) others
  pub range : InRange i

pub record Wellformed (bq : List Bitidx) : Type 0 where
  pub names : Pairwise BitNamesApart bq
  pub values : Pairwise BitsApart bq
  pub range : All InRange bq

-- The two items have the same name and index.
record Alike (i j : Bitidx) : Type 0 where
  item : j ≡ record i { doc = j.doc; labels = j.labels }

Alike-trans : {i j k : Bitidx} → Alike i j → Alike j k → Alike i k
Alike-trans {k = k} h l =
    let swap : Bitidx → Bitidx = λ x. record x { doc = k.doc; labels = k.labels } in
    record { item = l.item ∙ ap swap h.item }

Fits-Alike :
    (others : List Bitidx) (name : Bytes) (i j : Bitidx)
    → Alike i j
    → Fits others name i
    → Fits others name j
Fits-Alike others name i j a f =
    subst (Fits others name) (sym a.item)
      (record { name_is = f.name_is; apart = f.apart; range = f.range })

has_bit-apart :
    (bq : List Bitidx) (i : Bitidx) → has_bit i.value bq ≡ false → All (λ x. BitsApart x i) bq
unfolding has_bit
has_bit-apart [] i h = tt
has_bit-apart (x ∷ bq) i h = (ground (arith, h), has_bit-apart bq i (ground (arith, h)))

has_bit_name-apart :
    (bq : List Bitidx) (i : Bitidx) (name : Bytes)
    → i.name ≡ lower name
    → has_bit_name bq name ≡ false
    → All (λ x. BitNamesApart x i) bq
unfolding has_bit_name
has_bit_name-apart [] i name e h = tt
has_bit_name-apart (x ∷ bq) i name e h = (
  ap (strcaseeq x.name) e ∙ strcaseeq-lower x.name name ∙ ground (arith, h),
  has_bit_name-apart bq i name e (ground (arith, h)),
)

pub Wellformed-snoc :
    (bq : List Bitidx) (i : Bitidx) (name : Bytes)
    → Wellformed bq
    → Fits bq name i
    → has_bit_name bq name ≡ false
    → Wellformed (bq ++ i ∷ [])
Wellformed-snoc bq i name w f h = record {
  names = Pairwise-snoc BitNamesApart bq i w.names (has_bit_name-apart bq i name f.name_is h);
  values = Pairwise-snoc BitsApart bq i w.values f.apart;
  range = All-append InRange bq (i ∷ []) w.range (f.range, tt);
}

abbrev pub Stopped : BitfState → Type 0
Stopped s = stops s.parse.last ≡ true

-- The state between two clauses: the items so far are well-formed, unless the parse has stopped.
abbrev pub Reading : BitfState → Type 0
Reading s = Stopped s ⊎ Wellformed s.bitf.bq

pub go_on : (s : BitfState) → Reading s → stops s.parse.last ≡ false → Wellformed s.bitf.bq
go_on s (inl stop) h = cc
go_on s (inr d) h = d

module _ (lib : Libc) where
  bit_attribute-Alike : (s : BitState) → Alike s.item (bit_attribute lib s).item
  unfolding bit_attribute
  bit_attribute-Alike s = elim (Bool-cases (strcaseeq (string_of s.parse.last) (codes "comment"))) [
    | inl e ↦ rw e (record { item = refl })
    | inr e ↦ elim (Bool-cases (strcaseeq (string_of s.parse.last) (codes "jslabel"))) [
      | inl f ↦ rw (e, f) (record { item = refl })
      | inr f ↦ rw (e, f) (record { item = refl })
    ]
  ]

  bit_attributes-Alike :
      (n : ℕ) (i : Bitidx) (s : BitState)
      → Alike i s.item
      → Returns (λ t. Alike i t.item) (λ t. stops t.parse.last ≡ true) (bit_attributes lib n s)
  unfolding bit_attributes
  bit_attributes-Alike zero i s h = returns_none
  bit_attributes-Alike (suc n) i s h =
      let s1 = record s { parse = parse_next lib s.parse } in
      let h1 : Alike i s1.item = record { item = h.item } in
      Returns-if (stops s.parse.last) (λ e. returns_ok s h)
        λ e.
          Returns-if (is_ident s1.parse.last)
            (λ f.
              bit_attributes-Alike n i (bit_attribute lib s1)
                (Alike-trans h1 (bit_attribute-Alike s1)))
            (λ f. returns_ok s1 h1)

  bit_value-Fits :
      (others : List Bitidx) (name : Bytes) (s : BitState)
      → s.item.name ≡ lower name
      → Returns
          (λ t. Fits others name t.item)
          (λ t. stops t.parse.last ≡ true)
          (bit_value lib others s)
  unfolding bit_value
  bit_value-Fits others name s e =
      let p = parse_next lib s.parse in
      elim (Option-cases (integer_of p.last)) [
        | inl other ↦
            rw (other, bit_value) (returns_fail _ (stops-parse_errx p "expected item value"))
        | inr (v, number) ↦
            rw (number, bit_value)
              (Returns-if (out_of_range v)
                (λ f. returns_fail _ (stops-parse_errx p "bit index out of range"))
                λ f.
                  Returns-if (has_bit v others)
                    (λ g. returns_fail _ (stops-parse_errx p "duplicate item value"))
                    (λ g. returns_ok _ (record {
                      name_is = e;
                      apart = has_bit-apart others (record s.item { value = v }) g;
                      range = in_range v f;
                    })))
      ]

  bit_end-item : (s : BitState) → (bit_end lib s).item ≡ s.item
  unfolding bit_end
  bit_end-item s = ground arith

  pub parse_bitidx_item-Fits :
      (n : ℕ) (others : List Bitidx) (name : Bytes) (s : BitState)
      → s.item.name ≡ lower name
      → Returns
          (λ t. Fits others name t.item)
          (λ t. stops t.parse.last ≡ true)
          (parse_bitidx_item lib n others s)
  unfolding parse_bitidx_item
  parse_bitidx_item-Fits n others name s e =
      Returns-return _ _ _ (bit_value-Fits others name s e)
        (λ s1 f1.
          Returns-return _ _ _ (bit_attributes-Alike n s1.item s1 (record { item = refl }))
            (λ s2 a2. returns_ok _ (
              subst (Fits others name) (sym (bit_end-item s2))
                (Fits-Alike others name s1.item s2.item a2 f1)))
            (λ s2 h2. returns_fail s2 h2))
        (λ s1 h1. returns_fail s1 h1)
