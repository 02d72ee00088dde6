-- ===== src/Tests/NixPaths.antt =====
-- Hashes, paths and derivations of pkgs/ji/jig/src/nix_store_mode.cc
use corepkgs_v.Prelude.{◌≡◌, refl, true, none, some, List, [], ◌∷◌, Bytes, codes, equal, drop}
use corepkgs_v.Text.{hex_encode}
use corepkgs_v.NixStore.Sha256.{sha256}
use corepkgs_v.Store.{is_hashed, is_store_path}
use corepkgs_v.NixStore.{Daemon}
use corepkgs_v.NixStore.Path.{nix32, make_store_path, fixed_output_path}
use corepkgs_v.NixStore.Named.{make_store_path-is_store_path}
use corepkgs_v.NixStore.Derived.{read_derivation, in_order, derivation_to_aterm_lem}
use corepkgs_v.NixStore.Mode.{Setting, run_nix_store_mode}
use corepkgs_v.NixStore.Offline.{Untouched, run_nix_store_mode_offline}
use corepkgs_v.NixStore.Aterm.{Derivation, File, derivation_to_aterm}

abc :
    hex_encode (sha256 (codes "abc"))
    ≡ codes "ba7816bf8f01cfea414140de5dae2223b00361a396177a9cb410ff61f20015ad"
unfolding hex_encode sha256 corepkgs_v.NixStore.Sha256.spell_words
    corepkgs_v.NixStore.Sha256.big_endian corepkgs_v.NixStore.Sha256.compress_blocks
    corepkgs_v.NixStore.Sha256.tail_blocks corepkgs_v.NixStore.Sha256.compress_block
    corepkgs_v.NixStore.Sha256.rounds corepkgs_v.NixStore.Sha256.schedule_loop
    corepkgs_v.NixStore.Sha256.first_words corepkgs_v.NixStore.Sha256.round
abc = refl

abc32 : nix32 (sha256 (codes "abc")) ≡ codes "1b8m03r63zqhnjf7l5wnldhh7c134ap5vpj0850ymkq1iyzicy5s"
unfolding nix32 corepkgs_v.NixStore.Path.nix32_loop sha256 corepkgs_v.NixStore.Sha256.spell_words
    corepkgs_v.NixStore.Sha256.big_endian corepkgs_v.NixStore.Sha256.compress_blocks
    corepkgs_v.NixStore.Sha256.tail_blocks corepkgs_v.NixStore.Sha256.compress_block
    corepkgs_v.NixStore.Sha256.rounds corepkgs_v.NixStore.Sha256.schedule_loop
    corepkgs_v.NixStore.Sha256.first_words corepkgs_v.NixStore.Sha256.round
abc32 = refl

named :
    fixed_output_path
      (codes "/nix/store")
      (codes "e")
      (codes "sha256")
      (codes "e3b0c44298fc1c149afbf4c8996fb92427ae41e4649b934ca495991b7852b855")
    ≡ codes "/nix/store/3hc40wwijh4im7g2i31nk75qappbjw9i-e"
unfolding fixed_output_path corepkgs_v.NixStore.Path.make_store_path nix32
    corepkgs_v.NixStore.Path.nix32_loop corepkgs_v.NixStore.Path.compress_hash
    corepkgs_v.NixStore.Path.fold_loop sha256 corepkgs_v.NixStore.Sha256.spell_words
    corepkgs_v.NixStore.Sha256.big_endian corepkgs_v.NixStore.Path.xor_at
    corepkgs_v.NixStore.Sha256.compress_blocks corepkgs_v.NixStore.Sha256.tail_blocks hex_encode
    corepkgs_v.NixStore.Sha256.compress_block corepkgs_v.NixStore.Sha256.rounds
    corepkgs_v.NixStore.Sha256.schedule_loop corepkgs_v.NixStore.Sha256.first_words
    corepkgs_v.NixStore.Sha256.round
named = refl

abbrev example : Derivation
example = record {
  outputs = (codes "out", record { path = []; hash_algo = codes "r:sha256"; hash = [] }) ∷ [];
  input_drvs = (codes "/d.drv", codes "out" ∷ codes "dev" ∷ []) ∷ [];
  input_srcs = codes "/s2" ∷ codes "/s1" ∷ [];
  system = codes "x86_64-linux";
  builder = codes "/b";
  args = codes "-c" ∷ codes "echo \"hi\"\n" ∷ [];
  env =
      (codes "b", some (codes "1"))
      ∷ (codes "out", some (codes "/o"))
      ∷ (codes "a", some (codes "2"))
      ∷ [];
}

written :
    derivation_to_aterm (some example)
    ≡ codes
        "Derive([(\"out\",\"\",\"r:sha256\",\"\")],[(\"/d.drv\",[\"dev\",\"out\"])],[\"/s1\",\"/s2\"],\"x86_64-linux\",\"/b\",[\"-c\",\"echo \\\"hi\\\"\\n\"],[(\"a\",\"2\"),(\"b\",\"1\"),(\"out\",\"/o\")])"
unfolding derivation_to_aterm corepkgs_v.NixStore.Aterm.fill_env corepkgs_v.NixStore.Aterm.render
    corepkgs_v.NixStore.Aterm.list corepkgs_v.NixStore.Aterm.fill_map
    corepkgs_v.NixStore.Aterm.emplace_in_order corepkgs_v.NixStore.Aterm.render_output
    corepkgs_v.NixStore.Aterm.quote corepkgs_v.NixStore.Aterm.quote_loop
    corepkgs_v.NixStore.Aterm.quote_byte corepkgs_v.NixStore.Aterm.list_loop
    corepkgs_v.NixStore.Aterm.sort_names corepkgs_v.NixStore.Aterm.render_input
    corepkgs_v.Rustc.Key.sort corepkgs_v.NixStore.Aterm.render_variable
written = refl

make_store_path-is_store_path_example :
    let path = make_store_path (codes "/nix/store") (codes "text") (codes "hi") (codes "e-1.txt") in
    (is_store_path (codes "/nix/store") path ≡ true)
    × (is_hashed (drop 11 path) ≡ true)
    × (drop 44 path ≡ codes "e-1.txt")
make_store_path-is_store_path_example =
    make_store_path-is_store_path (codes "/nix/store") (codes "text") (codes "hi") (codes "e-1.txt")

abbrev variables : List (Bytes × Bytes)
variables = (codes "a", codes "2") ∷ (codes "b", codes "1") ∷ (codes "out", codes "/o") ∷ []

derivation_to_aterm_lem_example :
    read_derivation (derivation_to_aterm (some example)) ≡ some (in_order example variables, [])
unfolding corepkgs_v.NixStore.Aterm.fill_env corepkgs_v.NixStore.Aterm.emplace_in_order
    corepkgs_v.Rustc.Key.less
derivation_to_aterm_lem_example = derivation_to_aterm_lem example variables refl

abbrev file : File
file = record {
  name = codes "e";
  url = codes "https://e";
  algo = codes "sha256";
  hex = codes "e3";
  sri = codes "sha256-e3";
}

abbrev setting : Setting
setting = record {
  nix_remote = codes "unix:///d";
  offline_env = codes "1";
  store_dir = codes "/nix/store";
  reachable = λ path. true;
  stdin = codes "[]";
  parse_derivation = λ text. none;
  parse_files = λ text. some (file ∷ []);
  dump = λ result. codes "[..]";
}

abbrev idle : Daemon
idle = record { input = codes "in"; out = []; accepts = []; written = codes "w"; printed = [] }

run_nix_store_mode_offline_example :
    Untouched idle
      (run_nix_store_mode setting (codes "submit" ∷ codes "/d" ∷ codes "out" ∷ []) idle).1
unfolding equal
run_nix_store_mode_offline_example =
    run_nix_store_mode_offline setting refl idle (codes "submit" ∷ codes "/d" ∷ codes "out" ∷ [])
