-- ===== src/Tests/Linking.antt =====
-- Runs of the linker on the configuration of Tests.
use openradtool.Linker.Resolve.Passes.{linker_resolve}
use openradtool.Linker.Resolve.Passes.Laws.{Resolved, Stopped, linker_resolve-Resolved}
use openradtool.Linker.Close.{ort_parse_close}
use openradtool.Linker.Close.Laws.{Accepted, ort_parse_close-Accepted}
use openradtool.Linker.Aliases.{
  create_strcts, create_strct, walk_fuel, put_walk, resolve_strcts, resolve_searches,
}
use openradtool.Linker.Aliases.Create.{linker_aliases_create}
use openradtool.Linker.Aliases.Resolve.{
  linker_aliases_resolve, unique_flag, any_unique_term, resolve_each, resolve_alias, resolve_option,
  same_pointer, is_equal, find_alias, check_search_unique, any_covered, all_covered, has_equality,
}
use openradtool.Linker.Checks.Unique.{
  compare_with, same_size, alike, normalise, sort_nrefs, insert_nref, nref_gt, same_fields,
  has_field, check_clauses,
}
use openradtool.Linker.Checks.Searchtype.{
  bad_like, hashed, check_terms, bad_like_term, bad_password_term, bad_password, bad_bit,
  bad_bit_term, hashed_term, never_null_term, is_unary, is_password, is_text_type, is_count,
  is_search, is_given, warn_search, compare_columns,
}
use openradtool.Linker.Order.{
  source_null, annotate_all, annotate, each_target, mark, parse_cmp_gt, sort_strcts, insert_strct,
  insert_heads, order_strcts, check_reffind, reffind_fields, mark_nullrefs,
}
use openradtool.Linker.Resolve.Chain.{resolve_field_chain}
use openradtool.Linker.Resolve.Find.{same_type, find_field}
use openradtool.Linker.Resolve.Updates.{unlike_field, hashed_field, struct_field}
use openradtool.Linker.Graph.{is_struct, target_parent}
use openradtool.Linker.Checks.{warn_at, error_at}
use openradtool.Model.{Config}
use openradtool.Base.{
  ◌≡◌, refl, ap, true, ◌∷◌, [], strcaseeq, to_lower, strgt, ℕ, ◌≢◌, ◌≤◌, ◌↔◌, ◌+◌, some, none,
  codes, In, Distinct, inl, inr, length, arith,
}
use openradtool.Model.Outcome.{fail, Outcome, ok, out_of_fuel}
use openradtool.Linker.Graph.{graph, Reaches, Avoids}
use openradtool.Linker.Aliases.{Pass}
use openradtool.Linker.Aliases.Create.Laws.{alias_range}
use openradtool.Linker.Aliases.Laws.{
  create_strcts-acyclic, create_strcts-ne-out_of_fuel, create_strcts-Avoids, create_strcts-strings,
  create_strcts-Distinct, all_strings,
}
use openradtool.Linker.Order.Marks.{Annotated}
use openradtool.Linker.Order.Annotate.{annotate-ends}
use openradtool.Linker.Resolve.Passes.{pass, first_pass}
use openradtool.Linker.Resolve.Passes.Laws.{Steps, pass_iff}
use openradtool.Linker.Resolve.Chain.{Chained}
use openradtool.Linker.Resolve.Chain.Laws.{IsChain, resolve_field_chain-Leads}
use openradtool.Linker.Resolve.Refs.{resolve_field_foreign}
use openradtool.Linker.Resolve.Refs.Laws.{Foreign, resolve_field_foreign_sound}
use openradtool.Linker.Resolve.Updates.{resolve_up_const, resolve_up_mod}
use openradtool.Linker.Resolve.Updates.Laws
use openradtool.Linker.Resolve.Rolemaps.{resolve_struct_rolemap_field}
use openradtool.Linker.Resolve.Rolemaps.Prefix.{
  Prefix, roles_of, resolve_struct_rolemap_field-Prefix,
}
use openradtool.Linker.Resolve.Post.{resolve_struct_rolemap_post_cover}
use openradtool.Linker.Resolve.Post.Laws.{Covered, resolve_struct_rolemap_post_cover-covers}
use openradtool.Tests.{whole, here, parsed, after, is_ok, after-is_ok}

abbrev linked : Config
linked = after parsed (linker_resolve parsed)

linker_resolve-parsed : is_ok (linker_resolve parsed) ≡ true
unfolding linker_resolve strcaseeq to_lower same_type unlike_field bad_like hashed_field hashed
    struct_field is_struct resolve_field_chain source_null target_parent
linker_resolve-parsed = refl

linker_resolve-Resolved_example :
    ((linker_resolve parsed ≡ ok linked) ↔ Resolved parsed linked)
    × ((linker_resolve parsed ≡ fail linked) ↔ Stopped parsed linked)
linker_resolve-Resolved_example = linker_resolve-Resolved parsed linked

ort_parse_close-parsed : is_ok (ort_parse_close parsed) ≡ true
unfolding ort_parse_close create_strcts create_strct walk_fuel put_walk resolve_strcts
    resolve_searches linker_aliases_create linker_aliases_resolve unique_flag any_unique_term
    resolve_each resolve_alias resolve_option same_pointer is_equal find_alias check_search_unique
    any_covered all_covered has_equality compare_with same_size alike normalise sort_nrefs
    insert_nref nref_gt same_fields has_field check_clauses bad_like hashed check_terms
    bad_like_term bad_password_term bad_password bad_bit bad_bit_term hashed_term never_null_term
    is_unary is_password is_text_type is_count is_search is_given warn_search compare_columns
    source_null annotate_all annotate each_target mark parse_cmp_gt sort_strcts insert_strct
    insert_heads order_strcts check_reffind reffind_fields mark_nullrefs resolve_field_chain
    same_type unlike_field hashed_field struct_field is_struct target_parent strcaseeq to_lower
    strgt warn_at error_at
ort_parse_close-parsed = refl

ort_parse_close-Accepted_example : Accepted parsed
ort_parse_close-Accepted_example =
    ort_parse_close-Accepted parsed (after parsed (ort_parse_close parsed))
      (after-is_ok parsed (ort_parse_close parsed) ort_parse_close-parsed)

pass_iff_example :
    (pass first_pass parsed ≡ ok linked) ↔ Steps first_pass parsed parsed.requests linked
pass_iff_example = pass_iff first_pass parsed linked

-- The chain `company.name` from `user`.
abbrev chained : Outcome Chained
chained = resolve_field_chain whole here (codes "company" ∷ codes "name" ∷ []) 1

abbrev unchained : Chained
unchained = record { cfg = whole; chain = []; field = none }

chained-is_ok : is_ok chained ≡ true
unfolding resolve_field_chain find_field strcaseeq to_lower is_struct source_null target_parent
chained-is_ok = refl

resolve_field_chain-Leads_example :
    IsChain whole 1 (codes "company" ∷ codes "name" ∷ []) (after unchained chained)
resolve_field_chain-Leads_example =
    resolve_field_chain-Leads whole here (codes "company" ∷ codes "name" ∷ []) 1
      (after unchained chained) (after-is_ok unchained chained chained-is_ok)

abbrev foreign : Outcome Config
foreign = resolve_field_foreign 2 (codes "company") (codes "id") parsed

foreign-is_ok : is_ok foreign ≡ true
unfolding resolve_field_foreign strcaseeq to_lower same_type
foreign-is_ok = refl

resolve_field_foreign_sound_example :
    Foreign parsed 2
      (codes "company")
      (codes "id")
      (record { target = none; source = some 2; parent = 2 })
      (after parsed foreign)
resolve_field_foreign_sound_example =
    resolve_field_foreign_sound parsed 2 (codes "company") (codes "id")
      (record { target = none; source = some 2; parent = 2 }) (after parsed foreign) refl refl
      (after-is_ok parsed foreign foreign-is_ok)

resolve_up_const_iff_example :
    ((cfg : Config) × (resolve_up_const 0 (codes "email") parsed ≡ ok cfg))
    ↔ Laws.Names parsed 0 (codes "email") (λ f. Laws.Constrains (parsed.uref 0).op f.type)
resolve_up_const_iff_example = Laws.resolve_up_const_iff 0 (codes "email") parsed refl

resolve_up_mod_iff_example :
    ((cfg : Config) × (resolve_up_mod 1 (codes "cid") parsed ≡ ok cfg))
    ↔ Laws.Names parsed 1 (codes "cid") (λ f. Laws.Modifies (parsed.uref 1).mod_type f.type)
resolve_up_mod_iff_example = Laws.resolve_up_mod_iff 1 (codes "cid") parsed refl

-- Map 1 is for guests and admins; the field 4 has map 0, for guests.
resolve_struct_rolemap_field-Prefix_example :
    Prefix (roles_of parsed (parsed.rolemap 1).rq) (roles_of parsed (parsed.rolemap 0).rq) (
      roles_of
        (resolve_struct_rolemap_field 1 4 parsed)
        ((resolve_struct_rolemap_field 1 4 parsed).rolemap 0).rq)
resolve_struct_rolemap_field-Prefix_example =
    resolve_struct_rolemap_field-Prefix parsed 1 4 0 refl (omega arith, (omega arith, tt))
      (omega arith, tt)

resolve_struct_rolemap_post_cover-covers_example :
    Covered 0 1 parsed (resolve_struct_rolemap_post_cover 0 1 parsed)
resolve_struct_rolemap_post_cover-covers_example =
    resolve_struct_rolemap_post_cover-covers 0 1 parsed (omega arith, (omega arith, tt))
      (omega arith, tt)

abbrev first : Pass
first = record { cfg = whole; count = 0 }

abbrev strcts_pass : Outcome Pass
strcts_pass = create_strcts (0 ∷ 1 ∷ []) first

strcts_pass-is_ok : is_ok strcts_pass ≡ true
unfolding create_strcts create_strct linker_aliases_create walk_fuel put_walk is_struct
    target_parent
strcts_pass-is_ok = refl

strcts_pass-eq : strcts_pass ≡ ok (after first strcts_pass)
strcts_pass-eq = after-is_ok first strcts_pass strcts_pass-is_ok

create_strcts-acyclic_example : ¬ Reaches (graph whole) 1 1
create_strcts-acyclic_example =
    create_strcts-acyclic (0 ∷ 1 ∷ []) first (after first strcts_pass) strcts_pass-eq 1
      (inr (inl refl))

create_strcts-ne-out_of_fuel_example : strcts_pass ≢ out_of_fuel
create_strcts-ne-out_of_fuel_example = create_strcts-ne-out_of_fuel (0 ∷ 1 ∷ []) first

both-Distinct : Distinct {A = ℕ} (0 ∷ 1 ∷ [])
both-Distinct = (λ y m. ground arith, (λ y m. absurd m, tt))

no_aliases : (p : ℕ) → In p (0 ∷ 1 ∷ []) → (whole.strct p).aq ≡ []
no_aliases p (inl e) = ap (λ q. (whole.strct q).aq) e
no_aliases p (inr (inl e)) = ap (λ q. (whole.strct q).aq) e
no_aliases p (inr (inr m)) = absurd m

few_aliases : length (all_strings (after first strcts_pass).cfg (0 ∷ 1 ∷ [])) ≤ 4134
unfolding create_strcts create_strct linker_aliases_create walk_fuel put_walk is_struct
    target_parent
few_aliases = omega arith

create_strcts-strings_example :
    (k : ℕ) × ((after first strcts_pass).count ≡ 0 + k)
    × (all_strings (after first strcts_pass).cfg (0 ∷ 1 ∷ []) ≡ alias_range 0 k)
create_strcts-strings_example =
    create_strcts-strings (0 ∷ 1 ∷ []) first (after first strcts_pass) both-Distinct no_aliases
      strcts_pass-eq

create_strcts-Distinct_example : Distinct (all_strings (after first strcts_pass).cfg (0 ∷ 1 ∷ []))
create_strcts-Distinct_example =
    create_strcts-Distinct (0 ∷ 1 ∷ []) whole (after first strcts_pass) both-Distinct no_aliases
      strcts_pass-eq few_aliases

pub whole-Avoids : Avoids (graph whole) 1 walk_fuel 1
whole-Avoids =
    create_strcts-Avoids (0 ∷ 1 ∷ []) first (after first strcts_pass) strcts_pass-eq 1
      (inr (inl refl))

annotate-ends_example :
    (annotate walk_fuel 1 1 1 whole ≢ out_of_fuel)
    × ((cfg : Config) → annotate walk_fuel 1 1 1 whole ≡ ok cfg → Annotated 1 1 1 whole cfg)
annotate-ends_example = annotate-ends 1 walk_fuel 1 1 1 whole whole-Avoids
