-- ===== src/Launch.antt =====
-- pkgs/la/launch/src/launch.cc: the program behind every script and wrapped binary. It finds out as which program it
-- was started, reads that program's record and runs what it describes. JSON is parsed by a library: a
-- record is a value of `Json`.
pub mod Invoked
pub mod Followed
pub mod Expanded
pub mod Env
pub mod Applied
pub mod CommandLine
pub mod Quoted
pub mod Main
use corepkgs_v.Prelude.{
  ℕ, zero, suc, ◌+◌, ◌-◌, ◌*◌, ◌/◌, ◌%◌, ◌^◌, ◌≤◌, ◌<◌, min, max, ◌≡◌, ◌≢◌, refl, sym, ap, ◌∙◌, ◌⊎◌,
  ◌↔◌, inl, inr, Bool, true, false, not, ◌&&◌, ◌||◌, Option, none, some, List, [], ◌∷◌, ◌++◌, map,
  append_assoc, append-nil, arith, ltb, leb, ◌==◌, if◌then◌else◌, ==_iff, Bool-cases, or_false,
  Option-cases, Bytes, codes, Lacks, IsBytes, equal, equal_iff, starts_with, starts_with-append,
  eq_of_starts_with, ends_with, find, find_byte, find_byte-first, find_byte-cases, first_unique,
  has, contains, find-append, length, take, drop, get_elem?, replicate, any, all, All, All-append,
  length-append, take-append-drop, take-append, drop-append, take_all, drop-append_length,
  take-append_length, length-take, length-drop, length-replicate,
}
use corepkgs_v.Text.{replace_all}

-- `Die`: the launcher says what went wrong with what and exits with 127.
pub data Try {ℓ} (A : Type ℓ) : Type ℓ where
  done : A → Try A
  die : Bytes → Bytes → Try A

infixl 5 ◌>>=◌
abbrev pub ◌>>=◌ {ℓ κ} : {A : Type ℓ} {B : Type κ} → Try A → (A → Try B) → Try B
done a >>= f = f a
die what arg >>= f = die what arg

-- What nlohmann::json makes of a text. The members of an object are in the order of their names.
mutual
  pub data Json : Type 0 where
    string : Bytes → Json
    array : Elements → Json
    object : Members → Json
    other : Json

  pub data Elements : Type 0 where
    no_element : Elements
    element : Json → Elements → Elements

  pub data Members : Type 0 where
    no_member : Members
    member : Bytes → Json → Members → Members

-- `contains` and `at`
unfoldable pub lookup : Bytes → Members → Option Json
lookup name no_member = none
lookup name (member n value members) =
    let rest = lookup name members in if equal n name then some value else rest

-- `Str`
unfoldable pub str : Json → Bytes → Try Bytes
str (string text) what = done text
str _ what = die (codes "not a string in record") what

-- `struct Context`
pub record Context : Type 0 where
  pub root : Bytes
  pub store : Bytes
  pub self : Bytes
  pub argv0 : Bytes

-- `Expand`: a loop like that of ReplaceAll for each place, in this order.
unfoldable pub expand : Context → Bytes → Bytes
expand ctx text =
    let rooted = replace_all text (codes "{root}") ctx.root in
    let stored = replace_all rooted (codes "{store}") ctx.store in
    let named = replace_all stored (codes "{self}") ctx.self in
    replace_all named (codes "{argv0}") ctx.argv0

unfoldable pub expand_elements : Context → Elements → Try (List Bytes)
unfolding expand
expand_elements ctx no_element = done []
expand_elements ctx (element value elements) = do
  text ← str value (codes "list element")
  texts ← expand_elements ctx elements
  done (expand ctx text ∷ texts)

-- `StringList`
unfoldable pub string_list : Context → Json → Try (List Bytes)
unfolding expand_elements expand
string_list ctx (string text) = done (expand ctx text ∷ [])
string_list ctx (array elements) = expand_elements ctx elements
string_list ctx _ = die (codes "env value must be string or array") []

-- `Join`
unfoldable pub join : Bytes → List Bytes → Bytes
join sep [] = []
join sep (part ∷ []) = part
join sep (part ∷ next ∷ parts) = part ++ (sep ++ join sep (next ∷ parts))
