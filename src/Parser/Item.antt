-- ===== src/Parser/Item.antt =====
-- parser_enum.c: the items of an enumeration.
use openradtool.Base.{
  ℕ, zero, suc, Bool, true, false, not, ◌&&◌, ◌||◌, none, some, List, [], ◌∷◌, if◌then◌else◌, codes,
  lower, strcaseeq, ℤ, pos, negsuc,
}
use openradtool.Model.{Eitem}
use openradtool.Model.Outcome.{Outcome, ok, fail, out_of_fuel, on_return}
use openradtool.Parser.State.{
  Libc, Parse, stops, is_ident, is_semicolon, string_of, integer_of, parse_errx, parse_point,
}
use openradtool.Parser.Lexer.{parse_next}
use openradtool.Parser.Labels.{parse_comment, parse_label}
use openradtool.Parser.Assign.{int64_max, int_eq}

-- `v == INT64_MAX || v == INT64_MIN`
unfoldable pub is_extreme : ℤ → Bool
is_extreme v = int_eq v (pos int64_max) || int_eq v (negsuc int64_max)

-- Some item has the value, and not by assignment.
unfoldable pub has_value : ℤ → List Eitem → Bool
has_value v [] = false
has_value v (ei ∷ es) = not ei.auto && int_eq v ei.value || has_value v es

pub record ItemState : Type 0 where
  pub parse : Parse
  pub item : Eitem

-- One round of the loop over attributes; `go`: it goes on.
pub record ItemRound : Type 0 where
  pub state : ItemState
  pub go : Bool

abbrev pub new_item : Parse → Eitem
new_item p = record {
  name = lower (string_of p.last);
  value = pos 0;
  doc = none;
  labels = [];
  pos = parse_point p;
  auto = false;
}

module _ (lib : Libc) where
  -- An attribute of an item, whose name is read already.
  unfoldable pub item_attribute : ItemState → ItemRound
  unfolding parse_comment parse_label parse_next parse_errx
  item_attribute s =
      let next = string_of s.parse.last in
      let c = parse_comment lib s.parse s.item.doc in
      let l = parse_label lib s.parse s.item.labels in
      let ei = s.item in
      if strcaseeq next (codes "comment")
      then (if c.success
          then record {
            state = record { parse = parse_next lib c.parse; item = record ei { doc = c.doc } };
            go = true;
          }
          else record {
            state = record { parse = c.parse; item = record ei { doc = c.doc } };
            go = false;
          })
      else if strcaseeq next (codes "jslabel")
      then record {
        state = record { parse = parse_next lib l.parse; item = record ei { labels = l.labels } };
        go = true;
      }
      else record {
        state = record { parse = parse_errx s.parse "unknown enum item attribute"; item = ei };
        go = true;
      }

  unfoldable pub item_attributes : ℕ → ItemState → Outcome ItemState
  unfolding item_attribute
  item_attributes zero s = out_of_fuel
  item_attributes (suc n) s =
      let r = item_attribute s in
      let rest = item_attributes n r.state in
      if not (stops s.parse.last) && is_ident s.parse.last
      then (if r.go then rest else fail r.state)
      else ok s

  unfoldable pub item_end : ItemState → ItemState
  unfolding parse_errx
  item_end s =
      if not (stops s.parse.last) && not (is_semicolon s.parse.last)
      then record s { parse = parse_errx s.parse "expected semicolon" }
      else s

  -- The value of an item: `fail` where it is refused. `others` are the items before it.
  unfoldable pub item_value : List Eitem → ItemState → Outcome ItemState
  unfolding parse_next parse_errx is_extreme has_value
  item_value others s =
      let p = parse_next lib s.parse in
      elim (integer_of p.last) [
        | none ↦ ok (record { parse = p; item = record s.item { auto = true } })
        | some v ↦
            let ei = record s.item { value = v } in
            if is_extreme v
            then fail
                (record { parse = parse_errx p "enum item value too big or small"; item = ei })
            else if has_value v others
            then fail (record { parse = parse_errx p "duplicate enum item value"; item = ei })
            else ok (record { parse = parse_next lib p; item = ei })
      ]

  unfoldable pub parse_enum_item : ℕ → List Eitem → ItemState → Outcome ItemState
  unfolding item_value item_attributes item_end
  parse_enum_item n others s =
      on_return (item_value others s)
        (λ s1. on_return (item_attributes n s1) (λ s2. ok (item_end s2)) (λ s2. fail s2))
        (λ s1. fail s1)
