-- ===== src/NixStore/Aterm.antt =====
-- `Quote`, `List` and `DerivationToATerm` of pkgs/ji/jig/src/nix_store_mode.cc. Parsing JSON is the library's: a
-- derivation is what the members of the object are asked for.
use corepkgs_v.Prelude.{
  ℕ, Option, none, some, List, [], ◌∷◌, ◌++◌, ◌==◌, if◌then◌else◌, Bytes, codes, starts_with,
}
use corepkgs_v.Rustc.Key.{less, sort}

-- A byte in quotes.
unfoldable pub quote_byte : ℕ → Bytes
quote_byte c =
    if c == b'"'
    then codes "\\\""
    else if c == b'\\'
    then codes "\\\\"
    else if c == b'\n'
    then codes "\\n"
    else if c == b'\r'
    then codes "\\r"
    else if c == b'\t'
    then codes "\\t"
    else c ∷ []

unfoldable pub quote_loop : Bytes → Bytes
quote_loop [] = []
quote_loop (c ∷ text) = quote_byte c ++ quote_loop text

-- `Quote`
unfoldable pub quote : Bytes → Bytes
quote text = b'"' ∷ quote_loop text ++ b'"' ∷ []

-- The loop of `List` behind the first item.
unfoldable pub list_loop : {A : Type 0} → (A → Bytes) → List A → Bytes
list_loop render [] = []
list_loop render (item ∷ items) = (b',' ∷ render item) ++ list_loop render items

-- `List`
unfoldable pub list : {A : Type 0} → (A → Bytes) → List A → Bytes
list render [] = codes "[]"
list render (item ∷ items) = (b'[' ∷ render item) ++ (list_loop render items ++ b']' ∷ [])

pub record Output : Type 0 where
  pub path : Bytes
  pub hash_algo : Bytes
  pub hash : Bytes

-- What the members of the JSON object are; a value in `env` that is no string is none.
pub record Derivation : Type 0 where
  pub outputs : List (Bytes × Output)
  pub input_drvs : List (Bytes × List Bytes)
  pub input_srcs : List Bytes
  pub system : Bytes
  pub builder : Bytes
  pub args : List Bytes
  pub env : List (Bytes × Option Bytes)

-- `emplace` of a `std::map`, which keeps its keys in order, and an entry that is there.
unfoldable pub emplace_in_order : {A : Type 0} → Bytes → A → List (Bytes × A) → List (Bytes × A)
emplace_in_order k v [] = (k, v) ∷ []
emplace_in_order k v ((j, w) ∷ m) =
    let rest = emplace_in_order k v m in
    if less k j then (k, v) ∷ (j, w) ∷ m else if less j k then (j, w) ∷ rest else (j, w) ∷ m

-- The loops that fill `outputs` and, with its names sorted, `input_drvs`.
unfoldable pub fill_map : {A : Type 0} → List (Bytes × A) → List (Bytes × A) → List (Bytes × A)
fill_map m [] = m
fill_map m ((k, v) ∷ items) = fill_map (emplace_in_order k v m) items

unfoldable pub sort_names : List (Bytes × List Bytes) → List (Bytes × List Bytes)
sort_names [] = []
sort_names ((path, names) ∷ items) = (path, sort names) ∷ sort_names items

-- The loop that fills `env`: none is the early return.
unfoldable pub fill_env :
    List (Bytes × Bytes) → List (Bytes × Option Bytes) → Option (List (Bytes × Bytes))
fill_env m [] = some m
fill_env m ((k, none) ∷ items) = none
fill_env m ((k, some v) ∷ items) = fill_env (emplace_in_order k v m) items

unfoldable pub render_output : Bytes × Output → Bytes
render_output (name, o) =
    (b'(' ∷ quote name)
    ++ ((b',' ∷ quote o.path)
        ++ ((b',' ∷ quote o.hash_algo) ++ ((b',' ∷ quote o.hash) ++ b')' ∷ [])))

unfoldable pub render_input : Bytes × List Bytes → Bytes
render_input (path, names) = (b'(' ∷ quote path) ++ ((b',' ∷ list quote names) ++ b')' ∷ [])

unfoldable pub render_variable : Bytes × Bytes → Bytes
render_variable (key, value) = (b'(' ∷ quote key) ++ ((b',' ∷ quote value) ++ b')' ∷ [])

-- The text, from maps and lists that are in order.
unfoldable pub render : Derivation → List (Bytes × Bytes) → Bytes
render drv env =
    codes "Derive("
    ++ (list render_output (fill_map [] drv.outputs)
        ++ ((b',' ∷ list render_input (fill_map [] (sort_names drv.input_drvs)))
            ++ ((b',' ∷ list quote (sort drv.input_srcs))
                ++ ((b',' ∷ quote drv.system)
                    ++ ((b',' ∷ quote drv.builder)
                        ++ ((b',' ∷ list quote drv.args)
                            ++ ((b',' ∷ list render_variable env) ++ b')' ∷ [])))))))

-- `DerivationToATerm`: none is a text that is no JSON object.
unfoldable pub derivation_to_aterm : Option Derivation → Bytes
derivation_to_aterm none = []
derivation_to_aterm (some drv) = elim (fill_env [] drv.env) [
  | none ↦ []
  | some env ↦ render drv env
]

-- What `FetchurlDerivation` reads of a file.
pub record File : Type 0 where
  pub name : Bytes
  pub url : Bytes
  pub algo : Bytes
  pub hex : Bytes
  pub sri : Bytes

-- `FetchurlDerivation`; a dump of JSON is read back as it was.
unfoldable pub fetchurl_derivation : File → Bytes → Bytes
fetchurl_derivation file out = derivation_to_aterm (
    some record {
      outputs = (codes "out", record { path = out; hash_algo = file.algo; hash = file.hex }) ∷ [];
      input_drvs = [];
      input_srcs = [];
      system = codes "builtin";
      builder = codes "builtin:fetchurl";
      args = [];
      env =
          (codes "name", some file.name)
          ∷ (codes "out", some out)
          ∷ (codes "outputHash", some file.sri)
          ∷ (
            codes "outputHashAlgo",
            some (if starts_with file.sri (file.algo ++ b'-' ∷ []) then [] else file.algo),
          )
          ∷ (codes "outputHashMode", some (codes "flat"))
          ∷ (codes "url", some file.url)
          ∷ (codes "urls", some file.url)
          ∷ (codes "executable", some [])
          ∷ (codes "unpack", some [])
          ∷ (
            codes "impureEnvVars",
            some (codes "http_proxy https_proxy ftp_proxy all_proxy no_proxy"),
          )
          ∷ (codes "preferLocalBuild", some (codes "1"))
          ∷ (codes "system", some (codes "builtin"))
          ∷ (codes "builder", some (codes "builtin:fetchurl"))
          ∷ [];
    })
