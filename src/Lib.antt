-- ===== src/Lib.antt =====
-- Verification library for the C++ programs of this package set: jig, the compiler cache in front of clang
-- and rustc, launch, which starts wrapped programs, and jsem, which shares a host's build slots with ghc.
--
-- A compile goes through jig as follows. RunCcMode (pkgs/ji/jig/src/cc_mode.cc) classifies the command
-- line (Cc.Options, Cc.Invocation), hashes what it says and its source into a request key (Keys), and
-- asks the daemon for the manifest under that key (Manifest). The manifest lists the inputs of an
-- earlier run with their identities; if each is as it was, its hash is the result key, and the entries
-- under that key are what the run left (Cc.Result: Lookup). Otherwise the compiler runs, and what it
-- read and wrote is stored (CompileAndStore). Names of store files are masked in keys and in stored
-- bytes, and are put back on replay (Store). A run, cached or not, gets the command line that
-- BuildDriverArgs makes (Driver). The mode for rustc does the same with one key and with the outputs of a
-- crate in one packed entry (Rustc). The mode for Go serves puts and gets of `go build` (GoCache). All of
-- them talk to the daemon through the cache client (CacheClient). `jig nix-store` adds texts and
-- derivations to the nix store, through nix's daemon (NixStore). The wrapped programs of the set are
-- started by launch, which reads a record beside the program (Launch).
--
-- The files, each on top of the ones before it:
--   Prelude     numbers, Boolean tests, lists and byte strings that all parts share
--   Text        base.cc: splitting, replacing, numbers, response files
--   Keys        keys.h and the Hasher of base.cc; BLAKE3 is an argument
--   FilePath    the lexical part of std::filesystem::path that the sources use
--   Store       store.cc: masking, resolving and the identity of an input
--   Manifest    manifest.cc: depfiles (Manifest.Depfile), manifests and their validation
--   Daemon      what is assumed of jigd
--   CacheClient cache_client.cc: the connection to jigd, its requests and the packing of values
--   Cc          cc_mode.cc: options, classification, keys, lookup, replay and store
--   Driver      driver.cc: the command line of the real compiler
--   Rustc       rustc_mode.cc: the command line, dep-info, the packed entry, the key and the run
--   DirMode     dir_mode.cc: the listing of a directory's snapshot and its restoring
--   GoCache     gocache_mode.cc: base64 and the requests
--   Image       BinaryImage of fixup_mode.h and fixup_mode.cc
--   Broker      pkgs/js/jsem/src/broker.cc: tokens between the daemon's slots and ghc's semaphore
--   Launch      pkgs/la/launch/src/launch.cc: the record, the environment and the command line
--   NixStore    nix_store_mode.cc: SHA-256, store paths, derivations, nix's daemon protocol and the verbs
--   Tests       runs at concrete inputs
-- A definition has the name of its function in lower case (ParseInvocation is parse_invocation); a
-- loop is a function of its own with the suffix _loop, and a part of a branch has a name of its own.
--
-- Strings are lists of numbers, read as bytes; std::string::find and its kin are functions by clauses on
-- them. A function that reads a file, the environment or the daemon takes the answer, or a function that
-- gives it, as an argument: the record Files is what the manifest code asks of the file system, and the
-- record CacheServer is jigd, with what the proofs assume of GET and PUT: that an entry is there once it
-- was put (jigd may refuse or evict one, and a run is then a miss). A socket is the list of what its reads
-- give and the list of how much its writes take; zstd is a record with what it promises. Maps of the
-- source are association lists. Loops that move a position through a string run on fuel, the length of the
-- string or one more: each round moves forward by one byte at least. The loop over arguments runs on their
-- number, since each round takes one argument at least, and the request loop of GoCache on the length of
-- the input and one more. The reader of packed files runs on the length of the packed bytes, since each
-- file has a head; the loop over the messages of nix's daemon on the length of what it sends, since each
-- message has eight bytes; the search for a launcher on kMaxHops, the bound of the source. The number
-- printer runs on the number, since it divides.
--
-- Not modelled: system calls themselves (sockets, processes, files and logs are arguments here) and the
-- parsing and printing of JSON, which a library does; the choice of the compiler in RunCcMode, the ELF
-- and Mach-O passes of fixup (elf_fixup.cc, macho_fixup.cc), the choice of the mode (main.cc of jig and of
-- jsem) and the start-up code of other packages, which runs on raw memory.
pub mod Prelude
pub mod Text
pub mod Keys
pub mod FilePath
pub mod Store
pub mod Manifest
pub mod Daemon
pub mod GoCache
pub mod Image
pub mod Broker
pub mod Launch
pub mod CacheClient
pub mod Rustc
pub mod NixStore
pub mod Cc
pub mod Driver
pub mod DirMode
pub mod Tests
