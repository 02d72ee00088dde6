-- ===== src/FilePath.antt =====
-- The lexical part of `std::filesystem::path` on POSIX, as far as jig calls it: no file is touched.
use corepkgs_v.Prelude.{
  ◌-◌, Bool, true, false, not, ◌&&◌, ◌||◌, Option, none, some, List, [], ◌∷◌, ◌++◌, ◌==◌,
  if◌then◌else◌, Bytes, codes, equal, starts_with, ends_with, length, take,
}
use mathlib.Core.List.{reverse}
use corepkgs_v.Text.{split, join}

-- What a path's elements have come to: the kept names, the last one first, and whether a separator
-- stands behind them.
pub record Elements : Type 0 where
  pub kept : List Bytes
  pub trailing : Bool

abbrev is_dot : Bytes → Bool
is_dot name = equal name (codes ".")

abbrev is_dot_dot : Bytes → Bool
is_dot_dot name = equal name (codes "..")

-- ".." takes the name before it away; at the root it is dropped.
dot_dot : Bool → List Bytes → Elements
dot_dot absolute [] =
    if absolute
    then record { kept = []; trailing = true }
    else record { kept = codes ".." ∷ []; trailing = false }
dot_dot absolute (name ∷ kept) =
    if is_dot_dot name
    then record { kept = codes ".." ∷ name ∷ kept; trailing = false }
    else record { kept = kept; trailing = true }

element : Bool → Elements → Bytes → Elements
unfolding dot_dot
element absolute e name =
    if is_dot name
    then record { kept = e.kept; trailing = true }
    else if is_dot_dot name
    then dot_dot absolute e.kept
    else record { kept = name ∷ e.kept; trailing = false }

pub elements : Bool → List Bytes → Elements → Elements
unfolding element
elements absolute [] e = e
elements absolute (name ∷ names) e = elements absolute names (element absolute e name)

-- A separator stays behind a last name, but not behind "..".
ending : Elements → Bytes
ending e = elim e.kept [
  | [] ↦ []
  | name ∷ rest ↦ if e.trailing && not (is_dot_dot name) then codes "/" else []
]

-- `lexically_normal`
unfoldable pub lexically_normal : Bytes → Bytes
unfolding elements ending split join equal starts_with ends_with
lexically_normal [] = []
lexically_normal (c ∷ s) =
    let absolute = c == b'/' in
    let e = elements absolute (split (c ∷ s) b'/' false) (record { kept = []; trailing = false }) in
    let e' = if ends_with (c ∷ s) (codes "/") then record e { trailing = true } else e in
    let text =
      (if absolute then codes "/" else []) ++ (join (reverse e'.kept) (codes "/") ++ ending e') in
    elim text [ [] ↦ codes "." | d ∷ t ↦ d ∷ t ]

-- What stands before the last separator, and the name behind it.
cut_last : Bytes → Option (Bytes × Bytes)
cut_last [] = none
cut_last (c ∷ s) = elim (cut_last s) [
  | some (dir, name) ↦ some (c ∷ dir, name)
  | none ↦ if c == b'/' then some ([], s) else none
]

-- `filename`
unfoldable pub filename : Bytes → Bytes
unfolding cut_last
filename path = elim (cut_last path) [ none ↦ path | some (dir, name) ↦ name ]

-- `parent_path`, for a path without a run of separators
unfoldable pub parent_path : Bytes → Bytes
unfolding cut_last
parent_path path = elim (cut_last path) [
  | none ↦ []
  | some (dir, name) ↦ elim dir [ [] ↦ codes "/" | c ∷ s ↦ c ∷ s ]
]

-- The last dot of a name and what follows, unless the dot is the first byte.
cut_dot : Bytes → Option (Bytes × Bytes)
cut_dot [] = none
cut_dot (c ∷ s) = elim (cut_dot s) [
  | some (stem, ext) ↦ some (c ∷ stem, ext)
  | none ↦ if c == b'.' then some ([], c ∷ s) else none
]

-- A name as its stem and its extension.
unfoldable pub stem_extension : Bytes → Bytes × Bytes
unfolding cut_dot
stem_extension name = elim (cut_dot name) [
  | none ↦ (name, [])
  | some (stem, ext) ↦
      if equal name (codes "..")
      then (name, [])
      else elim stem [ [] ↦ (name, []) | c ∷ s ↦ (c ∷ s, ext) ]
]

-- `extension`
abbrev pub extension : Bytes → Bytes
extension path = (stem_extension (filename path)).1

-- `stem`
abbrev pub stem : Bytes → Bytes
stem path = (stem_extension (filename path)).0

-- `replace_extension`
unfoldable pub replace_extension : Bytes → Bytes → Bytes
replace_extension path ext = take (length path - length (extension path)) path ++ ext

-- `dir / name`: an absolute name replaces, and no second separator is added.
unfoldable pub append : Bytes → Bytes → Bytes
append dir name = if starts_with name (codes "/") then name else elim dir [
  | [] ↦ name
  | c ∷ s ↦ if ends_with (c ∷ s) (codes "/") then (c ∷ s) ++ name else (c ∷ s) ++ (b'/' ∷ name)
]

same_names : List Bytes → List Bytes → Bool
same_names [] [] = true
same_names (a ∷ as') (b ∷ bs) = equal a b && same_names as' bs
same_names _ _ = false

-- `==` of two paths: element by element, so runs of separators do not count.
unfoldable pub same : Bytes → Bytes → Bool
unfolding same_names split equal starts_with ends_with
same a b =
    let names = same_names (split a b'/' false) (split b b'/' false) in
    let roots =
      equal (take 1 a) (codes "/") && equal (take 1 b) (codes "/")
      || not (equal (take 1 a) (codes "/")) && not (equal (take 1 b) (codes "/")) in
    let ends =
      ends_with a (codes "/") && ends_with b (codes "/")
      || not (ends_with a (codes "/")) && not (ends_with b (codes "/")) in
    names && roots && ends
