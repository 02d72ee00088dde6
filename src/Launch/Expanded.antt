-- ===== src/Launch/Expanded.antt =====
-- `Expand` of pkgs/la/launch/src/launch.cc on the texts of a record.
use corepkgs_v.Prelude.{
  ◌≡◌, refl, List, [], ◌∷◌, ◌++◌, arith, Bytes, codes, Lacks, starts_with, All,
}
use corepkgs_v.Text.{replace_all}
use corepkgs_v.Text.Replace.{Replaced, hit, miss}
use corepkgs_v.Text.Replace.Back.{Replaced-front, replace_all_unique}
use corepkgs_v.Launch.{Context, expand}

pub data Place : Type 0 where
  root_place store_place self_place argv0_place : Place

-- A text of a record: what is to be filled in, and what stands between.
pub data Piece : Type 0 where
  place : Place → Piece
  plain : Bytes → Piece

abbrev pub key_of : Place → Bytes
key_of root_place = codes "{root}"
key_of store_place = codes "{store}"
key_of self_place = codes "{self}"
key_of argv0_place = codes "{argv0}"

abbrev pub value_of : Context → Place → Bytes
value_of ctx root_place = ctx.root
value_of ctx store_place = ctx.store
value_of ctx self_place = ctx.self
value_of ctx argv0_place = ctx.argv0

unfoldable pub fill : (Place → Bytes) → List Piece → Bytes
fill f [] = []
fill f (place p ∷ pieces) = f p ++ fill f pieces
fill f (plain text ∷ pieces) = text ++ fill f pieces

-- No '{' stands between.
abbrev pub IsPlain : Piece → Type 0
IsPlain (place p) = Unit
IsPlain (plain text) = Lacks b'{' text

-- One replacement at all places at once.
fill-Replaced :
    (k into : Bytes) (f g : Place → Bytes) (pieces : List Piece)
    → ((p : Place) (s t : Bytes)
        → Replaced (b'{' ∷ k) into s t
        → Replaced (b'{' ∷ k) into (f p ++ s) (g p ++ t))
    → All IsPlain pieces
    → Replaced (b'{' ∷ k) into (fill f pieces) (fill g pieces)
unfolding fill
fill-Replaced k into f g [] each h = Replaced.stop
fill-Replaced k into f g (place p ∷ pieces) each h =
    each p _ _ (fill-Replaced k into f g pieces each h.1)
fill-Replaced k into f g (plain text ∷ pieces) each h =
    Replaced-front b'{' k into text h.0 (fill-Replaced k into f g pieces each h.1)

-- What stands at the places behind each replacement.
abbrev filled_1 : Context → Place → Bytes
filled_1 ctx root_place = ctx.root
filled_1 ctx store_place = codes "{store}"
filled_1 ctx self_place = codes "{self}"
filled_1 ctx argv0_place = codes "{argv0}"

abbrev filled_2 : Context → Place → Bytes
filled_2 ctx root_place = ctx.root
filled_2 ctx store_place = ctx.store
filled_2 ctx self_place = codes "{self}"
filled_2 ctx argv0_place = codes "{argv0}"

abbrev filled_3 : Context → Place → Bytes
filled_3 ctx root_place = ctx.root
filled_3 ctx store_place = ctx.store
filled_3 ctx self_place = ctx.self
filled_3 ctx argv0_place = codes "{argv0}"

module _ (ctx : Context) (safe : (p : Place) → Lacks b'{' (value_of ctx p)) where
  step_root :
      (p : Place) (s t : Bytes)
      → Replaced (codes "{root}") ctx.root s t
      → Replaced (codes "{root}") ctx.root (key_of p ++ s) (filled_1 ctx p ++ t)
  unfolding starts_with
  step_root root_place s t r = hit refl refl r
  step_root store_place s t r =
      miss refl (Replaced-front b'{' (codes "root}") ctx.root (codes "store}") (omega arith) r)
  step_root self_place s t r =
      miss refl (Replaced-front b'{' (codes "root}") ctx.root (codes "self}") (omega arith) r)
  step_root argv0_place s t r =
      miss refl (Replaced-front b'{' (codes "root}") ctx.root (codes "argv0}") (omega arith) r)

  step_store :
      (p : Place) (s t : Bytes)
      → Replaced (codes "{store}") ctx.store s t
      → Replaced (codes "{store}") ctx.store (filled_1 ctx p ++ s) (filled_2 ctx p ++ t)
  unfolding starts_with
  step_store root_place s t r =
      Replaced-front b'{' (codes "store}") ctx.store ctx.root (safe root_place) r
  step_store store_place s t r = hit refl refl r
  step_store self_place s t r =
      miss refl (Replaced-front b'{' (codes "store}") ctx.store (codes "self}") (omega arith) r)
  step_store argv0_place s t r =
      miss refl (Replaced-front b'{' (codes "store}") ctx.store (codes "argv0}") (omega arith) r)

  step_self :
      (p : Place) (s t : Bytes)
      → Replaced (codes "{self}") ctx.self s t
      → Replaced (codes "{self}") ctx.self (filled_2 ctx p ++ s) (filled_3 ctx p ++ t)
  unfolding starts_with
  step_self root_place s t r =
      Replaced-front b'{' (codes "self}") ctx.self ctx.root (safe root_place) r
  step_self store_place s t r =
      Replaced-front b'{' (codes "self}") ctx.self ctx.store (safe store_place) r
  step_self self_place s t r = hit refl refl r
  step_self argv0_place s t r =
      miss refl (Replaced-front b'{' (codes "self}") ctx.self (codes "argv0}") (omega arith) r)

  step_argv0 :
      (p : Place) (s t : Bytes)
      → Replaced (codes "{argv0}") ctx.argv0 s t
      → Replaced (codes "{argv0}") ctx.argv0 (filled_3 ctx p ++ s) (value_of ctx p ++ t)
  unfolding starts_with
  step_argv0 root_place s t r =
      Replaced-front b'{' (codes "argv0}") ctx.argv0 ctx.root (safe root_place) r
  step_argv0 store_place s t r =
      Replaced-front b'{' (codes "argv0}") ctx.argv0 ctx.store (safe store_place) r
  step_argv0 self_place s t r =
      Replaced-front b'{' (codes "argv0}") ctx.argv0 ctx.self (safe self_place) r
  step_argv0 argv0_place s t r = hit refl refl r

  filled :
      (k into : Bytes) (f g : Place → Bytes) (pieces : List Piece)
      → ((p : Place) (s t : Bytes)
          → Replaced (b'{' ∷ k) into s t
          → Replaced (b'{' ∷ k) into (f p ++ s) (g p ++ t))
      → All IsPlain pieces
      → replace_all (fill f pieces) (b'{' ∷ k) into ≡ fill g pieces
  filled k into f g pieces each h =
      replace_all_unique (b'{' ∷ k) into (λ e. cc e) _ (fill-Replaced k into f g pieces each h)

  -- A text of a record is expanded by filling in all its places at once, whichever stand in it and how
  -- often. No '{' stands between them or in the values.
  pub expand-fill :
      (pieces : List Piece)
      → All IsPlain pieces
      → expand ctx (fill key_of pieces) ≡ fill (value_of ctx) pieces
  unfolding expand
  expand-fill pieces h =
      rw
        (
          filled (codes "root}") ctx.root key_of (filled_1 ctx) pieces step_root h,
          filled (codes "store}") ctx.store (filled_1 ctx) (filled_2 ctx) pieces step_store h,
          filled (codes "self}") ctx.self (filled_2 ctx) (filled_3 ctx) pieces step_self h,
          filled (codes "argv0}") ctx.argv0 (filled_3 ctx) (value_of ctx) pieces step_argv0 h,
        )
        refl
