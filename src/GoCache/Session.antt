-- ===== src/GoCache/Session.antt =====
-- The requests of pkgs/ji/jig/src/gocache_mode.cc. Standard input is the rest of its bytes, standard
-- output the lines printed; `can_write` tells which calls of WriteFile succeed.
use corepkgs_v.Prelude.{
  ℕ, zero, suc, ◌-◌, ◌^◌, Bool, true, false, ◌&&◌, ◌||◌, Option, none, some, List, [], ◌∷◌, ◌++◌,
  ltb, leb, ◌==◌, if◌then◌else◌, Bytes, codes, equal, starts_with, ends_with, find, find_byte,
  length, take, drop,
}
use corepkgs_v.Text.{parse_uint, print_uint, hex_encode}
use corepkgs_v.FilePath.{append}
use corepkgs_v.Keys.{go_action, go_output, slot_key}
use corepkgs_v.Daemon.{CacheServer}
use corepkgs_v.Store.{lookup, insert_or_assign}
use corepkgs_v.GoCache.{base64_encode, base64_decode}

-- `LineReader::Next`: the line and the input behind it.
unfoldable pub next_line : Bytes → Option (Bytes × Bytes)
unfolding find_byte
next_line input = elim (find_byte b'\n' input) [
  | some (line, at) ↦ some (line, drop 1 at)
  | none ↦ elim input [ [] ↦ none | c ∷ rest ↦ some (c ∷ rest, []) ]
]

unfoldable pub until_delimiter : Bytes → Bytes
until_delimiter [] = []
until_delimiter (c ∷ s) = if c == b',' || c == b'}' then [] else c ∷ until_delimiter s

-- What stands behind the key: a string up to its quote, anything else up to ',' or '}'.
unfoldable pub field_value : Bytes → Bytes
unfolding until_delimiter find_byte
field_value [] = []
field_value (c ∷ s) =
    if c == b'"'
    then (elim (find_byte b'"' s) [ none ↦ [] | some (value, at) ↦ value ])
    else until_delimiter (c ∷ s)

abbrev pub pattern_of : Bytes → Bytes
pattern_of name = b'"' ∷ (name ++ codes "\":")

-- `JsonField`
unfoldable pub json_field : Bytes → Bytes → Bytes
unfolding find field_value
json_field line name = elim (find (pattern_of name) line) [
  | none ↦ []
  | some (before, at) ↦ field_value (drop (length (pattern_of name)) at)
]

-- `JsonInt`: the 64 bits of the number, 0 if there is none.
unfoldable pub json_int : Bytes → Bytes → ℕ
unfolding json_field parse_uint
json_int line name = elim (parse_uint 10 (json_field line name)) [ none ↦ 0 | some n ↦ n ]

-- A number of 64 bits printed as a signed one.
unfoldable pub print_int : ℕ → Bytes
unfolding print_uint
print_int n = if ltb n (2 ^ 63) then print_uint 10 n else b'-' ∷ print_uint 10 (2 ^ 64 - n)

-- `struct GoSession` with what it works on.
pub record GoSession (S : Type 0) : Type 0 where
  pub server : S
  pub live : Bool
  pub dir : Bytes
  pub disk : List (Bytes × Bytes)
  pub input : Bytes
  pub printed : List Bytes

abbrev pub miss_line : ℕ → Bytes
miss_line id = codes "{\"ID\":" ++ (print_int id ++ codes ",\"Miss\":true}")

abbrev pub hit_line : ℕ → Bytes → ℕ → Bytes → Bytes
hit_line id output_id size path =
    codes "{\"ID\":"
    ++ (print_int id
        ++ (codes ",\"OutputID\":\""
            ++ (base64_encode output_id
                ++ (codes "\",\"Size\":"
                    ++ (print_uint 10 size
                        ++ (codes ",\"DiskPath\":\"" ++ (path ++ codes "\"}")))))))

abbrev pub stored_line : ℕ → Bytes → Bytes
stored_line id path =
    codes "{\"ID\":" ++ (print_int id ++ (codes ",\"DiskPath\":\"" ++ (path ++ codes "\"}")))

abbrev pub torn_line : ℕ → ℕ → ℕ → Bytes
torn_line id got size =
    codes "{\"ID\":"
    ++ (print_int id
        ++ (codes ",\"Err\":\"body: got "
            ++ (print_uint 10 got ++ (codes " of " ++ (print_int size ++ codes " bytes\"}")))))

-- The loop over blank lines: the first line that is not empty, nothing at the end of the input.
unfoldable pub read_body : ℕ → Bytes → Bytes × Bytes
unfolding next_line
read_body zero input = ([], input)
read_body (suc f) input = elim (next_line input) [
  | none ↦ ([], [])
  | some (line, rest) ↦ elim line [ [] ↦ read_body f rest | c ∷ s ↦ (c ∷ s, rest) ]
]

-- The bytes of a body line: nothing unless it is a JSON string.
unfoldable pub body_of : Bytes → Bytes
unfolding starts_with ends_with base64_decode
body_of line =
    if leb 2 (length line) && starts_with line (codes "\"") && ends_with line (codes "\"")
    then base64_decode (take (length line - 2) (drop 1 line))
    else []

module _ {S : Type 0} (server : CacheServer S) (can_write : Bytes → Bool) where
  abbrev pub print_line : GoSession S → Bytes → GoSession S
  print_line s line = record s { printed = s.printed ++ line ∷ [] }

  -- `WriteFile`
  unfoldable pub write_file : Bytes → Bytes → GoSession S → GoSession S
  unfolding insert_or_assign
  write_file path body s =
      if can_write path then record s { disk = insert_or_assign path body s.disk } else s

  abbrev pub disk_path : GoSession S → Bytes → Bytes
  disk_path s output_id = append s.dir (hex_encode output_id)

  -- The end of `HandleGet`, once both answers are there.
  unfoldable pub answer_hit : GoSession S → ℕ → Bytes → Bytes → GoSession S
  unfolding write_file lookup
  answer_hit s id output_id body =
      let path = disk_path s output_id in
      let written : GoSession S = elim (lookup path s.disk) [
        | some there ↦ s
        | none ↦ write_file path body s
      ] in
      print_line written (hit_line id output_id (length body) path)

  -- `HandleGet`
  unfoldable pub handle_get : GoSession S → ℕ → Bytes → GoSession S
  handle_get s id action =
      let miss = print_line s (miss_line id) in
      elim (if s.live then server.get s.server (slot_key (go_action action)) else none) [
        | none ↦ miss
        | some output_id ↦
            elim (server.get s.server (slot_key (go_output (hex_encode output_id)))) [
              | none ↦ miss
              | some body ↦ answer_hit s id output_id body
            ]
      ]

  -- The end of `HandlePut`, once the body is there.
  unfoldable pub store_output : GoSession S → ℕ → Bytes → Bytes → Bytes → GoSession S
  store_output s id action output_id body =
      let written = write_file (disk_path s output_id) body s in
      let st = server.put written.server (slot_key (go_output (hex_encode output_id))) body in
      let stored =
        if s.live
        then record written { server = server.put st (slot_key (go_action action)) output_id }
        else written in
      print_line stored (stored_line id (disk_path s output_id))

  -- `HandlePut`; a size of 2^63 and above is a negative one.
  unfoldable pub handle_put : GoSession S → ℕ → Bytes → Bytes → GoSession S
  handle_put s id action req =
      let output_id = base64_decode (json_field req (codes "OutputID")) in
      let size = json_int req (codes "BodySize") in
      let (line, rest) = read_body (suc (length s.input)) s.input in
      let body = body_of line in
      let read = record s { input = rest } in
      if ltb 0 size && ltb size (2 ^ 63)
      then (if length body == size
          then store_output read id action output_id body
          else print_line read (torn_line id (length body) size))
      else store_output s id action output_id []

  -- A round of the loop of `RunGoCacheProg` on a line: none ends it.
  unfoldable pub handle_line : GoSession S → Bytes → Bool × GoSession S
  unfolding handle_get handle_put json_field json_int base64_decode hex_encode equal
  handle_line s line =
      let id = json_int line (codes "ID") in
      let command = json_field line (codes "Command") in
      let action = hex_encode (base64_decode (json_field line (codes "ActionID"))) in
      if equal line []
      then (true, s)
      else if equal command (codes "close")
      then (false, print_line s (codes "{\"ID\":" ++ (print_int id ++ codes "}")))
      else if equal command (codes "get")
      then (true, handle_get s id action)
      else if equal command (codes "put")
      then (true, handle_put s id action line)
      else (true, s)

  -- The loop: each round takes a byte of the input at least.
  unfoldable pub serve : ℕ → GoSession S → GoSession S
  unfolding handle_line next_line
  serve zero s = s
  serve (suc f) s = elim (next_line s.input) [
    | none ↦ s
    | some (line, rest) ↦
        let (goes_on, s') = handle_line (record s { input = rest }) line in
        let further = serve f s' in if goes_on then further else s'
  ]

  -- `RunGoCacheProg`: the greeting, then the loop.
  unfoldable pub run_go_cache_prog : GoSession S → GoSession S
  unfolding serve
  run_go_cache_prog s =
      serve (suc (length s.input))
        (print_line s (codes "{\"ID\":0,\"KnownCommands\":[\"get\",\"put\",\"close\"]}"))
