-- ===== src/Rustc/DepInfo.antt =====
-- `ParseDepInfo` of pkgs/ji/jig/src/rustc_mode.cc: the files that rustc wrote and read.
use corepkgs_v.Prelude.{
  false, none, some, List, [], ◌∷◌, ◌++◌, map, if◌then◌else◌, Bytes, codes, starts_with, find,
}
use corepkgs_v.Text.{split}
use corepkgs_v.FilePath.{append, lexically_normal}
use corepkgs_v.Manifest.Depfile.{parse_depfile}

pub record DepInfo : Type 0 where
  pub outputs : List Bytes
  pub inputs : List Bytes

-- `std::filesystem::absolute` and `lexically_normal`, in the directory that the process runs in.
unfoldable pub absolute_normal : Bytes → Bytes → Bytes
absolute_normal cwd path = lexically_normal (append cwd path)

-- The loop body on a line: a comment and a rule with nothing behind its colon are passed over; the
-- inputs are those of the first rule that has any.
unfoldable pub add_rule : Bytes → DepInfo → Bytes → DepInfo
unfolding find starts_with absolute_normal
add_rule cwd info line = elim (find (codes ": ") line) [
  | none ↦ info
  | some (output, at) ↦
      let inputs' : List Bytes = elim info.inputs [
        | [] ↦ map (absolute_normal cwd) (parse_depfile line)
        | i ∷ is ↦ i ∷ is
      ] in
      if starts_with line (codes "#")
      then info
      else record { outputs = info.outputs ++ output ∷ []; inputs = inputs' }
]

unfoldable pub add_rules : Bytes → List Bytes → DepInfo → DepInfo
unfolding add_rule
add_rules cwd [] info = info
add_rules cwd (line ∷ lines) info = add_rules cwd lines (add_rule cwd info line)

-- `ParseDepInfo`
unfoldable pub parse_dep_info : Bytes → Bytes → DepInfo
unfolding add_rules
parse_dep_info cwd text =
    add_rules cwd (split text b'\n' false) (record { outputs = []; inputs = [] })
