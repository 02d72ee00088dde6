-- ===== src/Manifest/Depfile.antt =====
-- `ParseDepfile` of pkgs/ji/jig/src/manifest.cc: the prerequisites of the first rule of a make-style
-- depfile.
use corepkgs_v.Prelude.{
  ℕ, Bool, true, false, not, ◌&&◌, ◌||◌, List, [], ◌∷◌, ◌++◌, ◌==◌, if◌then◌else◌, Bytes, codes,
  equal, ends_with,
}

-- The variables of the loop.
pub record Deps : Type 0 where
  pub deps : List Bytes
  pub token : Bytes
  pub after_colon : Bool

-- `token.back() == ':'`
abbrev ends_in_colon : Bytes → Bool
ends_in_colon token = ends_with token (codes ":")

-- The lambda `flush`
unfoldable pub flush : Deps → Deps
unfolding ends_with equal
flush d = elim d.token [
  | [] ↦ d
  | c ∷ t ↦
      if d.after_colon
      then record { deps = d.deps ++ d.token ∷ []; token = []; after_colon = true }
      else record { deps = d.deps; token = []; after_colon = ends_in_colon d.token }
]

abbrev push_token : Deps → ℕ → Deps
push_token d c = record d { token = d.token ++ c ∷ [] }

-- The branches of the loop that take one byte, with the byte that follows it.
unfoldable pub dep_byte : Deps → ℕ → ℕ → Deps
unfolding flush
dep_byte d cur next =
    if cur == b'\n' || cur == b' ' || cur == b'\t'
    then flush d
    else if cur == b':' && not d.after_colon && (next == b' ' || next == b'\n' || next == b'\\')
    then record { deps = d.deps; token = []; after_colon = true }
    else push_token d cur

-- The first rule ends at a newline behind its colon.
abbrev rule_ends : Deps → ℕ → Bool
rule_ends d cur = cur == b'\n' && d.after_colon

-- The loop. At the last byte `next` reads as a newline.
unfoldable pub dep_loop : Deps → Bytes → Deps
unfolding dep_byte
dep_loop d [] = d
dep_loop d (cur ∷ []) = if cur == b'\\' then d else dep_byte d cur b'\n'
dep_loop d (cur ∷ next ∷ s) =
    let joined = dep_loop d s in
    let blank = dep_loop (push_token d b' ') s in
    let more = dep_loop (dep_byte d cur next) (next ∷ s) in
    if cur == b'\\' && next == b'\n'
    then joined
    else if cur == b'\\' && next == b' '
    then blank
    else if rule_ends (dep_byte d cur next) cur
    then dep_byte d cur next
    else more

-- `ParseDepfile`
unfoldable pub parse_depfile : Bytes → List Bytes
unfolding dep_loop
parse_depfile text =
    (flush (dep_loop (record { deps = []; token = []; after_colon = false }) text)).deps
