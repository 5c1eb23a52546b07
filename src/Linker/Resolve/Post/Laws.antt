-- ===== src/Linker/Resolve/Post/Laws.antt =====
-- resolve_struct_rolemap_post_cover: the destination gets every role of the source.
use openradtool.Base.{ℕ, ◌≡◌, inl, inr, List, [], ◌∷◌, if◌then◌else◌, In, All-at, Bool-cases}
use openradtool.Model.{Config}
use openradtool.Linker.Resolve.Rolemaps.{has_role, append_rref}
use openradtool.Linker.Resolve.Rolemaps.Laws.{
  Exist, Holds, has_role-Holds, Grows, Grows-refl, Grows-trans, append_rref-Grows, Holds-Grows,
  append_rref-Holds, Exist-grow, append_rref-Exist,
}
use openradtool.Linker.Resolve.Post.{add_all, resolve_struct_rolemap_post_cover}

-- One turn of the loop.
abbrev turn : ℕ → ℕ → Config → Config
turn dst r cfg =
    if has_role cfg (cfg.rref r) (cfg.rolemap dst).rq then cfg else append_rref dst (cfg.rref r) cfg

record Turn (dst r : ℕ) (cfg cfg' : Config) : Type 0 where
  grows : Grows dst cfg cfg'
  exist : Exist cfg' (cfg'.rolemap dst).rq
  holds : Holds cfg' (cfg.rref r).role (cfg'.rolemap dst).rq

Turn-turn :
    (dst r : ℕ) (cfg : Config) → Exist cfg (cfg.rolemap dst).rq → Turn dst r cfg (turn dst r cfg)
Turn-turn dst r cfg x = elim (Bool-cases (has_role cfg (cfg.rref r) (cfg.rolemap dst).rq)) [
  | inl e ↦ rw e (record {
    grows = Grows-refl dst cfg;
    exist = x;
    holds = has_role-Holds cfg (cfg.rref r) (cfg.rolemap dst).rq x e;
  })
  | inr e ↦ rw e (record {
    grows = append_rref-Grows dst (cfg.rref r) cfg;
    exist = append_rref-Exist dst (cfg.rref r) cfg x;
    holds = append_rref-Holds dst (cfg.rref r) cfg;
  })
]

-- The destination of `cfg'` has the roles that the references `rs` have in `cfg`.
record Covers (dst : ℕ) (rs : List ℕ) (cfg cfg' : Config) : Type 0 where
  grows : Grows dst cfg cfg'
  covers : (r : ℕ) → In r rs → Holds cfg' (cfg.rref r).role (cfg'.rolemap dst).rq

add_all-Covers :
    (dst : ℕ) (rs : List ℕ) (cfg : Config)
    → Exist cfg rs
    → Exist cfg (cfg.rolemap dst).rq
    → Covers dst rs cfg (add_all dst rs cfg)
unfolding add_all
add_all-Covers dst [] cfg e x = record { grows = Grows-refl dst cfg; covers = λ r m. absurd m }
add_all-Covers dst (r ∷ rs) cfg e x =
    let t = Turn-turn dst r cfg x in
    let next = turn dst r cfg in
    let rest = add_all-Covers dst rs next (Exist-grow cfg next rs t.grows.next e.1) t.exist in
    record {
      grows = Grows-trans dst cfg next (add_all dst rs next) t.grows rest.grows;
      covers = λ y m. elim m [
        | inl same ↦
            rw same
              (Holds-Grows dst next (add_all dst rs next) (cfg.rref r).role rest.grows t.holds)
        | inr later ↦ rw (t.grows.kept y (All-at _ rs y e.1 later)) at (rest.covers y later)
      ];
    }

-- The map `dst` has every role that `src` had, and has lost none of its references, which are as
-- they were.
pub record Covered (dst src : ℕ) (cfg cfg' : Config) : Type 0 where
  pub gained :
      (r : ℕ) → In r (cfg.rolemap src).rq → Holds cfg' (cfg.rref r).role (cfg'.rolemap dst).rq
  pub kept :
      (r : ℕ) → In r (cfg.rolemap dst).rq → In r (cfg'.rolemap dst).rq × (cfg'.rref r ≡ cfg.rref r)

-- If the references of both maps exist, then afterwards the destination has every role that the
-- source had, and it has lost none of its own references, which keep their roles.
pub resolve_struct_rolemap_post_cover-covers :
    (dst src : ℕ) (cfg : Config)
    → Exist cfg (cfg.rolemap src).rq
    → Exist cfg (cfg.rolemap dst).rq
    → Covered dst src cfg (resolve_struct_rolemap_post_cover dst src cfg)
unfolding resolve_struct_rolemap_post_cover
resolve_struct_rolemap_post_cover-covers dst src cfg e x =
    let c = add_all-Covers dst (cfg.rolemap src).rq cfg e x in
    record {
      gained = c.covers;
      kept = λ r m. (c.grows.queue r m, c.grows.kept r (All-at _ (cfg.rolemap dst).rq r x m));
    }
