-- ===== src/Tool.antt =====
-- The tool manager: src/tool.c.
--
-- What `stat`, `access` and the file functions say of a path is the interface `Files`. `none` as a
-- result of `tool_manager_create` and `tool_manager_load_tool` is a fault of the map.
pub mod Load
pub mod Search
use mathlib.Core.Option
use rebuild.Base.{
  ℕ, zero, suc, ◌+◌, List, [], ◌∷◌, ◌++◌, Option, none, some, Bool, true, false, Bytes, take, ◌==◌,
  if◌then◌else◌,
}
use rebuild.Hash.{Hash, Blake2, File, hash_file, zero_hash}
use rebuild.Map
use rebuild.Map.{Map}

-- `executable` is the test of `is_executable`: a regular file with S_IXUSR. `readable` is `access`
-- with R_OK.
pub record Files : Type 0 where
  pub executable : Bytes → Bool
  pub readable : Bytes → Bool
  pub content : Bytes → File

pub record ToolModule : Type 0 where
  pub name : Bytes
  pub binary_path : Bytes
  pub binary_hash : Hash
  pub module_path : Bytes
  pub module_hash : Hash

pub record ToolManager : Type 0 where
  pub tools : Map ToolModule
  pub search_paths : List Bytes

-- The number of paths: one more than there are colons.
unfoldable pub count_paths : Bytes → ℕ
count_paths [] = 1
count_paths (c ∷ cs) = if c == b':' then 1 + count_paths cs else count_paths cs

-- The tokens of `strtok` with ":": the parts between colons that are not empty. `part` is what
-- stands before the rest in the same part.
abbrev pub token : Bytes → List Bytes
token [] = []
token (c ∷ cs) = (c ∷ cs) ∷ []

unfoldable pub tokens : Bytes → Bytes → List Bytes
tokens part [] = token part
tokens part (c ∷ cs) = if c == b':' then token part ++ tokens [] cs else tokens (part ++ c ∷ []) cs

-- The argument is `getenv("PATH")`; the loop stops at `count` tokens.
unfoldable pub parse_path_env : Option Bytes → List Bytes
unfolding count_paths tokens
parse_path_env none = []
parse_path_env (some path_env) = take (count_paths path_env) (tokens [] path_env)

-- tools/<name>.um
unfoldable pub get_module_path : Bytes → Bytes
get_module_path tool_name =
    b't' ∷ b'o' ∷ b'o' ∷ b'l' ∷ b's' ∷ b'/' ∷ (tool_name ++ b'.' ∷ b'u' ∷ b'm' ∷ [])

unfoldable pub tool_manager_create : Option Bytes → Option ToolManager
tool_manager_create path_env =
    Option.map (λ m. record { tools = m; search_paths = parse_path_env path_env }) (Map.create 16)

-- `strchr(name, '/')`
unfoldable pub has_slash : Bytes → Bool
has_slash [] = false
has_slash (c ∷ cs) = if c == b'/' then true else has_slash cs

unfoldable pub tool_manager_get_tool : ToolManager → Bytes → Option ToolModule
tool_manager_get_tool mgr name = Map.get mgr.tools name

module _ (f : Files) where
  -- The loop over the directories of PATH.
  unfoldable pub search : List Bytes → Bytes → Option Bytes
  search [] name = none
  search (path ∷ paths) name = elim (f.executable (path ++ b'/' ∷ name)) [
    | true ↦ some (path ++ b'/' ∷ name)
    | false ↦ search paths name
  ]

  unfoldable pub tool_manager_find_tool : ToolManager → Bytes → Option Bytes
  unfolding has_slash search
  tool_manager_find_tool mgr name =
      if has_slash name
      then (if f.executable name then some name else none)
      else search mgr.search_paths name

  module _ (b : Blake2) where
    -- The hash of the module, or the zeros of `rebuild_calloc`.
    unfoldable pub hash_module : Bytes → Hash
    hash_module path =
        if f.readable path
        then elim (hash_file b (f.content path)) [ some h ↦ h | none ↦ zero_hash ]
        else zero_hash

    -- The tool that is loaded where none is yet.
    unfoldable pub new_tool : ToolManager → Bytes → Option ToolModule
    unfolding hash_module Option.bind
    new_tool mgr name = Option.bind (tool_manager_find_tool mgr name) λ binary_path.
        Option.map
          (λ binary_hash. record {
            name = name;
            binary_path = binary_path;
            binary_hash = binary_hash;
            module_path = get_module_path name;
            module_hash = hash_module (get_module_path name);
          })
          (hash_file b (f.content binary_path))

    -- Storing the tool; the error of `map_set` is not looked at.
    unfoldable pub store_tool :
        ToolManager → Bytes → Option ToolModule → Option (Option ToolModule × ToolManager)
    store_tool mgr name none = some (none, mgr)
    store_tool mgr name (some tool) =
        Option.map (λ r. (some tool, record mgr { tools = r.1 })) (Map.set mgr.tools name tool)

    unfoldable pub tool_manager_load_tool :
        ToolManager → Bytes → Option (Option ToolModule × ToolManager)
    unfolding new_tool store_tool
    tool_manager_load_tool mgr name = elim (Map.get mgr.tools name) [
      | some existing ↦ some (some existing, mgr)
      | none ↦ store_tool mgr name (new_tool mgr name)
    ]
