-- ===== src/Cc/Served.antt =====
-- What `Replay` of pkgs/ji/jig/src/cc_mode.cc leaves behind.
use corepkgs_v.Prelude.{
  ℕ, ◌≡◌, ◌≢◌, refl, ◌∙◌, inl, inr, Bool, true, false, none, some, [], ◌∷◌, ◌++◌, arith, ltb, ◌==◌,
  if◌then◌else◌, Bool-cases, Option-cases, Bytes, codes, Lacks, equal, starts_with, find, find_byte,
  length,
}
use corepkgs_v.Store.{Store, lookup, insert_or_assign}
use corepkgs_v.Store.Maps.{lookup-insert_or_assign, lookup-insert_or_assign_other}
use corepkgs_v.Store.Resolve.{resolve_all}
use corepkgs_v.Cc.Invocation.{Invocation, is_empty}
use corepkgs_v.Cc.Result.{CachedResult, links}
use corepkgs_v.Cc.Replay.{World, retarget_depfile, replay_object, replay_depfile, replay}

find_colon :
    (old rest : Bytes)
    → Lacks b':' old
    → find (codes ": ") (old ++ (codes ": " ++ rest)) ≡ some (old, codes ": " ++ rest)
unfolding find starts_with
find_colon [] rest h = refl
find_colon (c ∷ old) rest h = ground (arith, find_colon old rest h.1)

not_newline : (c : ℕ) → c ≢ b'\n' → (c == b'\n') ≡ false
not_newline c h = ground arith

-- The first newline of a text that begins with a line's part stands behind that part.
newline_behind :
    (old rest : Bytes)
    → Lacks b'\n' old
    → (elim (find_byte b'\n' (old ++ (b':' ∷ rest))) [
      | none ↦ true
      | some (line, at) ↦ ltb (length old) (length line)
    ])
      ≡ true
unfolding find_byte
newline_behind [] rest h = elim (Option-cases (find_byte b'\n' rest)) [
  | inl e ↦ rw (e, find_byte) refl
  | inr (p, e) ↦ rw (e, find_byte) (ground arith)
]
newline_behind (c ∷ old) rest h = elim (Option-cases (find_byte b'\n' (old ++ (b':' ∷ rest)))) [
  | inl e ↦ simp (find_byte, e, not_newline c h.0)
  | inr (p, e) ↦
      let behind : ltb (length old) (length p.0) ≡ true = simp e at (newline_behind old rest h.1) in
      simp (find_byte, e, not_newline c h.0) (ground (arith, behind))
]

-- A depfile that begins with a rule whose target holds no ':' and no newline gets the target of the
-- later run, and is unchanged behind it.
pub retarget_depfile-rule :
    (old rest : Bytes) (inv : Invocation)
    → Lacks b':' old
    → Lacks b'\n' old
    → retarget_depfile (old ++ (codes ": " ++ rest)) inv
      ≡ (if is_empty inv.depfile_target then inv.output else inv.depfile_target)
        ++ (codes ": " ++ rest)
unfolding retarget_depfile
retarget_depfile-rule old rest inv hc hn =
    simp (retarget_depfile, find_colon old rest hc, newline_behind old (b' ' ∷ rest) hn)

module _ (can_write : Bytes → Bool) (message : Bytes) (s : Store) (result : CachedResult)
    (inv : Invocation) (w : World) where
  -- A replay of an object and a depfile that can both be written returns the cached status, leaves
  -- the object at the output and the depfile, resolved and retargeted, at its own other path, and
  -- prints the cached diagnostics. The command line does not ask for the text on standard output.
  pub replay_lem :
      (text dep : Bytes)
      → inv.to_stdout ≡ false
      → can_write inv.output ≡ true
      → can_write inv.depfile ≡ true
      → result.object ≡ some text
      → result.depfile ≡ some dep
      → equal inv.depfile inv.output ≡ false
      → let (status, after) = replay can_write message s result inv w in
        (status ≡ result.status)
        × (lookup inv.output after.files ≡ some text)
        × (lookup inv.depfile after.files ≡ some (retarget_depfile (resolve_all s dep) inv))
        × (after.stderr_text ≡ w.stderr_text ++ result.stderr_text)
  unfolding replay replay_object replay_depfile
  replay_lem text dep no_stdout writes writes_depfile has_object has_depfile apart =
      elim (Bool-cases (links inv)) [
        | inl l ↦
            simp
              (
                replay, replay_object, replay_depfile, no_stdout, writes, writes_depfile,
                has_object, has_depfile, l,
              )
              rest
        | inr l ↦
            simp
              (
                replay, replay_object, replay_depfile, no_stdout, writes, writes_depfile,
                has_object, has_depfile, l,
              )
              rest
      ]
    where
      depfile : Bytes
      depfile = retarget_depfile (resolve_all s dep) inv

      rest :
          (result.status ≡ result.status)
          × (lookup inv.output (
                insert_or_assign inv.depfile
                  (retarget_depfile (resolve_all s dep) inv)
                  (insert_or_assign inv.output text w.files))
              ≡ some text)
          × (lookup inv.depfile (
                insert_or_assign inv.depfile
                  (retarget_depfile (resolve_all s dep) inv)
                  (insert_or_assign inv.output text w.files))
              ≡ some (retarget_depfile (resolve_all s dep) inv))
          × (w.stderr_text ++ result.stderr_text ≡ w.stderr_text ++ result.stderr_text)
      rest = (
        refl,
        lookup-insert_or_assign_other inv.output inv.depfile _ _ apart
            ∙ lookup-insert_or_assign inv.output text w.files,
        lookup-insert_or_assign inv.depfile _ _,
        refl,
      )

  -- A replay of an object that cannot be written returns 1 and changes no file.
  pub replay-unwritable :
      (text : Bytes)
      → inv.to_stdout ≡ false
      → can_write inv.output ≡ false
      → result.object ≡ some text
      → let (status, after) = replay can_write message s result inv w in
        (status ≡ 1) × (after.files ≡ w.files)
  unfolding replay replay_object
  replay-unwritable text no_stdout fails has_object =
      simp (replay, replay_object, no_stdout, fails, has_object) (refl, refl)
