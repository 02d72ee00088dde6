-- ===== src/Cc/Replay.antt =====
-- `Replay` of pkgs/ji/jig/src/cc_mode.cc, and what the run of a command line without the cache is called.
-- `can_write` tells which calls of WriteFile succeed, `message` is the text of the error.
use corepkgs_v.Prelude.{
  ℕ, Bool, true, false, not, Option, none, some, List, [], ◌∷◌, ◌++◌, ltb, if◌then◌else◌, Bytes,
  codes, equal, find, find_byte, length,
}
use corepkgs_v.Store.{Store, insert_or_assign}
use corepkgs_v.Store.Resolve.{resolve_all}
use corepkgs_v.Manifest.{or_empty}
use corepkgs_v.Cc.Invocation.{Invocation, is_empty}
use corepkgs_v.Cc.Result.{
  CachedResult, links, Outcome, k_plain_query, k_plain_compile, k_plain_link, k_plain_no_source,
  k_plain_no_socket,
}

-- What the caller of jig sees: files, which of them were made executable, and the two streams.
pub record World : Type 0 where
  pub files : List (Bytes × Bytes)
  pub executable : List Bytes
  pub stdout : Bytes
  pub stderr_text : Bytes

unfoldable pub remove : Bytes → List (Bytes × Bytes) → List (Bytes × Bytes)
unfolding equal
remove path [] = []
remove path ((p, text) ∷ files) =
    let rest = remove path files in if equal p path then rest else (p, text) ∷ rest

-- `ForwardStdout`
unfoldable pub forward_stdout : Invocation → Option Bytes → World → World
unfolding remove
forward_stdout inv text w =
    if inv.to_stdout
    then record w { files = remove inv.output w.files; stdout = w.stdout ++ or_empty text }
    else w

-- `RetargetDepfile`: the target of the first rule becomes this run's.
unfoldable pub retarget_depfile : Bytes → Invocation → Bytes
unfolding find find_byte equal
retarget_depfile text inv =
    let target = if is_empty inv.depfile_target then inv.output else inv.depfile_target in
    elim (find (codes ": ") text) [
      | none ↦ text
      | some (before, at) ↦
          let in_line : Bool = elim (find_byte b'\n' text) [
            | none ↦ true
            | some (line, rest) ↦ ltb (length before) (length line)
          ] in
          if in_line then target ++ at else text
    ]

module _ (can_write : Bytes → Bool) (message : Bytes) where
  abbrev pub cannot_write : Bytes → World → World
  cannot_write path w = record w {
    stderr_text =
        w.stderr_text
        ++ (codes "jig: cannot write " ++ (path ++ (codes ": " ++ (message ++ b'\n' ∷ []))));
  }

  abbrev pub written : Bytes → Bytes → World → World
  written path text w = record w { files = insert_or_assign path text w.files }

  -- The object: true if it could be written or there is none to write.
  unfoldable pub replay_object : CachedResult → Invocation → World → Bool × World
  unfolding forward_stdout
  replay_object result inv w =
      let in_file : Bool × World = elim result.object [
        | none ↦ (true, w)
        | some text ↦
            let done = written inv.output text w in
            if not (can_write inv.output)
            then (false, cannot_write inv.output w)
            else if links inv
            then (true, record done { executable = inv.output ∷ done.executable })
            else (true, done)
      ] in
      if inv.to_stdout then (true, forward_stdout inv result.object w) else in_file

  unfoldable pub replay_depfile : Store → CachedResult → Invocation → World → Bool × World
  unfolding resolve_all retarget_depfile
  replay_depfile s result inv w = elim result.depfile [
    | none ↦ (true, w)
    | some text ↦
        if can_write inv.depfile
        then (true, written inv.depfile (retarget_depfile (resolve_all s text) inv) w)
        else (false, cannot_write inv.depfile w)
  ]

  abbrev pub print_stderr : CachedResult → World → World
  print_stderr result w = record w { stderr_text = w.stderr_text ++ result.stderr_text }

  -- `Replay`
  unfoldable pub replay : Store → CachedResult → Invocation → World → ℕ × World
  replay s result inv w =
      let (object_done, w1) = replay_object result inv w in
      let (depfile_done, w2) = replay_depfile s result inv w1 in
      if not object_done
      then (1, w1)
      else if not depfile_done
      then (1, w2)
      else (result.status, print_stderr result w2)

-- The outcome that `RunUncached` logs.
unfoldable pub uncached_outcome : Invocation → Bool → Outcome
uncached_outcome inv has_primary =
    if inv.query
    then k_plain_query
    else if not inv.cacheable
    then (if inv.compile_only then k_plain_compile else k_plain_link)
    else if not has_primary
    then k_plain_no_source
    else k_plain_no_socket
