-- ===== src/Parser/Enum.antt =====
-- parser_enum.c: enumerations. An item and its enumeration are values that are read to the end and
-- stored then; no function between reads them from the store.
pub mod Ends
pub mod Items
pub mod Clauses
pub mod Values
pub mod Assignment
pub mod Whole
pub mod Laws
use openradtool.Base.{
  ℕ, zero, suc, ◌+◌, ◌-◌, ◌^◌, Bool, true, false, not, ◌&&◌, ◌||◌, Option, none, some, List, [],
  ◌∷◌, ◌++◌, ◌==◌, ltb, if◌then◌else◌, Bytes, codes, lower, strcaseeq, ℤ, pos, negsuc,
}
use openradtool.Model.{Label, Eitem, Enm}
use openradtool.Model.Store.{write}
use openradtool.Model.Outcome.{Outcome, ok, fail, fault, out_of_fuel, on_return}
use openradtool.Parser.State.{
  Libc, Parse, stops, is_lbrace, is_rbrace, is_ident, is_semicolon, string_of, integer_of,
  parse_errx, parse_point,
}
use openradtool.Parser.Lexer.{parse_next}
use openradtool.Parser.Names.{parse_check_badidents, parse_check_dupetoplevel}
use openradtool.Parser.Labels.{Labelled, parse_comment, parse_label, parse_labels}
use openradtool.Parser.Assign.{
  int64_max, int_eq, int_gt, greatest, successor, Assigned, assign_below, assign_all, found_value,
  assign_again,
}
use openradtool.Parser.Item.{
  is_extreme, has_value, ItemState, ItemRound, new_item, item_attribute, item_attributes, item_end,
  item_value, parse_enum_item,
}

unfoldable pub has_item : List Eitem → Bytes → Bool
has_item [] s = false
has_item (ei ∷ es) s = strcaseeq ei.name s || has_item es s

pub record EnumState : Type 0 where
  pub parse : Parse
  pub enm : Enm
  pub hasauto : Bool

-- The items with the values of parse_enum_data, and the message if they do not suffice.
unfoldable pub assign_checked : EnumState → Outcome EnumState
unfolding greatest successor assign_below parse_errx
assign_checked s = elim (successor (greatest s.enm.eq (negsuc int64_max))) [
  | none ↦ fault
  | some m ↦
      let a = assign_below m s.enm.eq in
      let s' = record s { enm = record s.enm { eq = a.items } } in
      if a.within
      then ok s'
      else fail (record s' {
        parse = parse_errx s.parse "integer overflow when assigning dynamic enum value";
      })
]

abbrev pub no_items : List Eitem → Bool
no_items [] = true
no_items (_ ∷ _) = false

-- The end of an enumeration, whose last token is read: the semicolon, and that there is an item.
unfoldable pub close_enum : EnumState → Parse → EnumState
unfolding parse_errx
close_enum s p =
    if not (is_semicolon p.last)
    then record s { parse = parse_errx p "expected semicolon" }
    else if no_items s.enm.eq
    then record s { parse = parse_errx p "no items in enum" }
    else record s { parse = p }

abbrev pub new_enum : Parse → Enm
new_enum p = record {
  name = lower (string_of p.last);
  doc = none;
  pos = parse_point p;
  labels_null = [];
  eq = [];
}

module _ (lib : Libc) where
  unfoldable pub parse_enum_label : ℕ → Parse → List Label → Outcome Labelled
  unfolding parse_labels
  parse_enum_label n p q = parse_labels lib n p q

  -- An item of `s` is appended, however it was read.
  unfoldable pub push_item : EnumState → ItemState → EnumState
  push_item s i = record {
    parse = i.parse;
    enm = record s.enm { eq = s.enm.eq ++ i.item ∷ [] };
    hasauto = s.hasauto || i.item.auto;
  }

  -- Behind the word "item".
  unfoldable pub enum_item : ℕ → EnumState → Outcome EnumState
  unfolding parse_next parse_errx parse_check_badidents has_item parse_enum_item push_item
  enum_item n s =
      let p = parse_next lib s.parse in
      let c = parse_check_badidents p (string_of p.last) in
      if not (is_ident p.last)
      then fail (record s { parse = parse_errx p "expected enum item name" })
      else if not c.success
      then fail (record s { parse = c.parse })
      else if strcaseeq (string_of p.last) (codes "format")
      then fail (record s { parse = parse_errx p "cannot use reserved name" })
      else if has_item s.enm.eq (string_of p.last)
      then fail (record s { parse = parse_errx p "duplicate enum item name" })
      else on_return (parse_enum_item lib n s.enm.eq (record { parse = p; item = new_item p }))
          (λ i. ok (push_item s i)) (λ i. ok (push_item s i))

  -- One round of the loop of parse_enum_data, behind the token that is not a right brace; `fail` is
  -- its return.
  unfoldable pub enum_clause : ℕ → EnumState → Outcome EnumState
  unfolding parse_errx parse_comment parse_next parse_enum_label enum_item
  enum_clause n s =
      let next = string_of s.parse.last in
      let c = parse_comment lib s.parse s.enm.doc in
      let p = parse_next lib c.parse in
      let commented = record s { enm = record s.enm { doc = c.doc } } in
      if not (is_ident s.parse.last)
      then fail (record s { parse = parse_errx s.parse "expected enum attribute" })
      else if strcaseeq next (codes "comment")
      then (if not c.success
          then fail (record commented { parse = c.parse })
          else if not (is_semicolon p.last)
          then fail (record commented { parse = parse_errx p "expected semicolon" })
          else ok (record commented { parse = p }))
      else if strcaseeq next (codes "isnull")
      then on_return (parse_enum_label n s.parse s.enm.labels_null)
          (λ l. ok (record s { parse = l.parse; enm = record s.enm { labels_null = l.labels } }))
          (λ l. fail (record s { parse = l.parse; enm = record s.enm { labels_null = l.labels } }))
      else if not (strcaseeq next (codes "item"))
      then fail (record s { parse = parse_errx s.parse "unknown enum attribute" })
      else enum_item n s

  unfoldable pub enum_clauses : ℕ → EnumState → Outcome EnumState
  unfolding parse_next enum_clause
  enum_clauses zero s = out_of_fuel
  enum_clauses (suc n) s =
      let s1 = record s { parse = parse_next lib s.parse } in
      if stops s.parse.last
      then ok s
      else if is_rbrace s1.parse.last
      then ok s1
      else on_return (enum_clause n s1) (λ s2. enum_clauses n s2) (λ s2. fail s2)

  -- Behind the values.
  unfoldable pub enum_end : EnumState → EnumState
  unfolding parse_next close_enum
  enum_end s = if stops s.parse.last then s else close_enum s (parse_next lib s.parse)

  unfoldable pub parse_enum_data : ℕ → Parse → Enm → Outcome EnumState
  unfolding parse_next parse_errx enum_clauses assign_checked enum_end
  parse_enum_data n p e =
      let p1 = parse_next lib p in
      let s : EnumState = record { parse = p1; enm = e; hasauto = false } in
      if not (is_lbrace p1.last)
      then fail (record s { parse = parse_errx p1 "expected left brace" })
      else on_return (enum_clauses n s)
          (λ s1.
            on_return (if s1.hasauto then assign_checked s1 else ok s1) (λ s2. ok (enum_end s2))
              (λ s2. fail s2))
          (λ s1. fail s1)

  -- The enumeration at the address `a` behind its data.
  unfoldable pub finish_enum : ℕ → EnumState → Outcome Parse
  unfolding assign_again
  finish_enum a s =
      let p = s.parse in
      elim (assign_again s.enm.eq) [
        | none ↦ fault
        | some es ↦
            ok (record p {
              cfg = record p.cfg { enm = write p.cfg.enm a (record s.enm { eq = es }) };
            })
      ]

  -- `parse_enum` behind the tests of the name.
  unfoldable pub open_enum : ℕ → Parse → Outcome Parse
  unfolding parse_enum_data finish_enum
  open_enum n p =
      let a = p.cfg.next_enm in
      let e = new_enum p in
      let cfg = record p.cfg {
        eq = p.cfg.eq ++ a ∷ [];
        enm = write p.cfg.enm a e;
        next_enm = a + 1;
      } in
      on_return (parse_enum_data n (record p { cfg = cfg }) e) (λ s. finish_enum a s)
        (λ s. finish_enum a s)

  -- `fail`: parse_enum returns before there is an enumeration.
  unfoldable pub parse_enum : ℕ → Parse → Outcome Parse
  unfolding parse_next parse_errx parse_check_dupetoplevel parse_check_badidents open_enum
  parse_enum n p =
      let p1 = parse_next lib p in
      let name = string_of p1.last in
      let dupe = parse_check_dupetoplevel p1 name in
      let bad = parse_check_badidents p1 name in
      if not (is_ident p1.last)
      then fail (parse_errx p1 "expected enum name")
      else if not dupe.success
      then fail dupe.parse
      else if not bad.success
      then fail bad.parse
      else open_enum n p1
