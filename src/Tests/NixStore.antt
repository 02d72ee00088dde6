-- ===== src/Tests/NixStore.antt =====
-- pkgs/ji/jig/src/nix_store_mode.cc
use corepkgs_v.Prelude.{
  ℕ, zero, suc, ◌<◌, ◌≡◌, refl, true, none, some, List, [], ◌∷◌, ◌++◌, arith, Bytes, codes, length,
  All,
}
use corepkgs_v.NixStore.{
  Daemon, Step, word, wire_string, read_string, stderr_last, stderr_next, stderr_error,
}
use corepkgs_v.NixStore.Drained.{drain_loop_enough}
use corepkgs_v.NixStore.Session.{
  drain_loop, worker_magic_2, protocol_version, features, handshake, drain_stderr, add_request,
  add_to_store,
}
use corepkgs_v.NixStore.Added.{PathInfo, IsInfo, answer, add_to_store_lem}

abbrev told : PathInfo
told = record {
  path = codes "/nix/store/a-x.drv";
  deriver = [];
  hash = codes "sha256:0";
  references = codes "/nix/store/b-y" ∷ [];
  time = 1;
  size = 300;
  ultimate = 0;
  signatures = [];
  ca = codes "text:sha256:0";
}

told-IsInfo : IsInfo told
told-IsInfo = record {
  path = ground arith;
  deriver = ground arith;
  hash = ground arith;
  references = (ground arith, (ground arith, tt));
  time = ground arith;
  size = ground arith;
  ultimate = ground arith;
  signatures = (ground arith, tt);
  ca = ground arith;
}

abbrev name : Bytes
name = codes "x.drv"

abbrev method : Bytes
method = codes "text:sha256"

abbrev references : List Bytes
references = codes "/nix/store/b-y" ∷ codes "/nix/store/a-x" ∷ []

abbrev contents : Bytes
contents = codes "Derive()"

abbrev request : Bytes
request = add_request name method references contents

abbrev ones : ℕ → List ℕ
ones zero = []
ones (suc n) = 1 ∷ ones n

ones_enough : (n : ℕ) → All (λ k. 0 < k) (ones n) × (length (ones n) ≡ n)
ones_enough zero = (tt, ground arith)
ones_enough (suc n) = ((omega arith, (ones_enough n).0), ground (arith, (ones_enough n).1))

-- A socket that takes a byte at each write.
abbrev slow : Daemon
slow = record {
  input = answer told ++ (b'n' ∷ []);
  out = [];
  accepts = ones (length request);
  written = [];
  printed = [];
}

add_to_store_lem_example :
    let (path, after) = add_to_store name method references contents slow in
    (path ≡ some (codes "/nix/store/a-x.drv"))
    × (after.written ≡ request)
    × (after.input ≡ b'n' ∷ [])
    × (after.out ≡ [])
add_to_store_lem_example =
    add_to_store_lem told told-IsInfo name method contents references slow (b'n' ∷ [])
      (ones_enough (length request)).0 (ground (arith, (ones_enough (length request)).1)) refl

-- The words and strings of the handshake, with a daemon of this version.
abbrev greeting : Daemon
greeting = record {
  input =
      word worker_magic_2
      ++ (word protocol_version
          ++ (word 0 ++ (wire_string (codes "2.30") ++ (word 1 ++ (word stderr_last ++ [])))));
  out = [];
  accepts = 300 ∷ 300 ∷ 300 ∷ [];
  written = [];
  printed = [];
}

greeted : (handshake greeting).0 ≡ some true
unfolding handshake corepkgs_v.NixStore.flush corepkgs_v.CacheClient.send_loop
    corepkgs_v.NixStore.word_bytes corepkgs_v.NixStore.read_word corepkgs_v.NixStore.read_bytes
    corepkgs_v.NixStore.word_value corepkgs_v.NixStore.wire_strings corepkgs_v.NixStore.skip_strings
    corepkgs_v.NixStore.skip_loop read_string corepkgs_v.NixStore.read_text drain_stderr
    corepkgs_v.NixStore.Session.drain_loop
greeted = refl

-- An older daemon.
outdated :
    (handshake (record greeting { input = word worker_magic_2 ++ word 293 })).1.printed
    ≡ codes "jig nix-store: daemon protocol 293 too old" ∷ []
unfolding handshake corepkgs_v.NixStore.flush corepkgs_v.CacheClient.send_loop
    corepkgs_v.NixStore.word_bytes corepkgs_v.NixStore.read_word corepkgs_v.NixStore.read_bytes
    corepkgs_v.NixStore.word_value corepkgs_v.Text.print_uint
outdated = refl

-- A line of the log, and an error.
failed :
    drain_stderr (record greeting {
      input =
          word stderr_next
          ++ (wire_string (codes "building")
              ++ (word stderr_error
                  ++ (wire_string (codes "Error")
                      ++ (word 0 ++ (wire_string [] ++ wire_string (codes "no space"))))));
    })
    ≡ (
      none,
      record greeting {
        input = [];
        printed = codes "building" ∷ codes "nix-daemon: no space" ∷ [];
      },
    )
unfolding drain_stderr corepkgs_v.NixStore.Session.drain_loop corepkgs_v.NixStore.read_word
    corepkgs_v.NixStore.read_bytes corepkgs_v.NixStore.word_bytes corepkgs_v.NixStore.word_value
    corepkgs_v.NixStore.Session.log_message read_string corepkgs_v.NixStore.read_text
    corepkgs_v.NixStore.Session.print_error
failed = refl

-- A line of the log, and the end.
abbrev chatty : Daemon
chatty = record greeting {
  input = word stderr_next ++ (wire_string (codes "hi") ++ word stderr_last);
}

drain_loop_enough_example : drain_loop 40 chatty ≡ drain_loop 50 chatty
unfolding corepkgs_v.NixStore.word_bytes
drain_loop_enough_example = drain_loop_enough 40 50 chatty (ground arith) (ground arith)
