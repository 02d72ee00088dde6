-- ===== src/Driver/Runpath.antt =====
-- The RUNPATH under construction, `RunpathList` of pkgs/ji/jig/src/driver.cc.
use corepkgs_v.Prelude.{
  ℕ, ◌+◌, ◌-◌, ◌*◌, max, Bool, true, ◌||◌, List, [], ◌∷◌, ◌++◌, ◌==◌, if◌then◌else◌, Bytes, codes,
  equal, starts_with, length, replicate, any,
}
use corepkgs_v.Text.{split}

unfoldable pub is_host_dir : Bytes → Bool
unfolding starts_with
is_host_dir path =
    starts_with path (codes "/usr")
    || starts_with path (codes "/lib")
    || starts_with path (codes "/opt")

-- `std::ranges::contains`
unfoldable pub listed : Bytes → List Bytes → Bool
unfolding equal
listed item items = any (λ x. equal x item) items

-- `class RunpathList`
pub record RunpathList : Type 0 where
  pub verbatim : Bytes
  pub entries : List Bytes

-- `RunpathList::Add`
unfoldable pub add_entry : RunpathList → Bytes → RunpathList
unfolding is_host_dir listed
add_entry r dir =
    if is_host_dir dir || listed dir r.entries
    then r
    else record r { entries = r.entries ++ dir ∷ [] }

unfoldable pub verbatim_parts : List Bytes → Bytes
unfolding is_host_dir
verbatim_parts [] = []
verbatim_parts (part ∷ parts) =
    let rest = verbatim_parts parts in if is_host_dir part then rest else part ++ (b':' ∷ rest)

-- `RunpathList::AddVerbatim`
unfoldable pub add_verbatim : RunpathList → Bytes → RunpathList
unfolding verbatim_parts split
add_verbatim r rpath = record r { verbatim = r.verbatim ++ verbatim_parts (split rpath b':' true) }

abbrev pub runpath_slack : ℕ
runpath_slack = 48

abbrev pub needed_slack : ℕ
needed_slack = 80

unfoldable pub count_byte : ℕ → Bytes → ℕ
count_byte c [] = 0
count_byte c (d ∷ s) = (if d == c then 1 else 0) + count_byte c s

unfoldable pub render_entries : List Bytes → Bytes
render_entries [] = []
render_entries (entry ∷ entries) = entry ++ (codes "/.:" ++ render_entries entries)

-- `RunpathList::Render`
unfoldable pub render : RunpathList → ℕ → Bytes
unfolding render_entries count_byte
render r libs =
    let stores = length r.entries + count_byte b':' r.verbatim in
    r.verbatim
    ++ (render_entries r.entries
        ++ (b'/' ∷ replicate (max stores 1 * runpath_slack + libs * needed_slack - 1) b'_'))
