-- ===== src/Tests/Tools.antt =====
-- Tools of src/tool.c.
use rebuild.Base.{◌≡◌, refl, arith, [], ◌∷◌, Option, some, Bytes, false, same_string}
use rebuild.Hash.{reads}
use rebuild.Table.{free}
use rebuild.Table.Rehash.{IsValid}
use rebuild.Map.Writes.{blank-IsEmpty}
use rebuild.Tool.{
  Files, ToolModule, ToolManager, count_paths, tokens, parse_path_env, has_slash, search,
}
use rebuild.Tool.{tool_manager_find_tool, tool_manager_load_tool, tool_manager_get_tool}
use rebuild.Tool.Load.{IsFrom, IsLoaded, tool_manager_load_tool-IsLoaded}
use rebuild.Tool.Search.{IsSplit, Searched, parse_path_env_lem, tool_manager_find_tool_first}
use rebuild.Tests.Hashes.{plain}

program : Unit {0}
unfolding count_paths tokens parse_path_env has_slash search tool_manager_find_tool same_string
program = tt

-- "/a::/b"
abbrev path_env : Bytes
path_env = b'/' ∷ b'a' ∷ b':' ∷ b':' ∷ b'/' ∷ b'b' ∷ []

split : parse_path_env (some path_env) ≡ (b'/' ∷ b'a' ∷ []) ∷ (b'/' ∷ b'b' ∷ []) ∷ []
unfolding program
split = refl

abbrev cc_name : Bytes
cc_name = b'c' ∷ b'c' ∷ []

-- The only executable is "/b/cc".
abbrev files : Files
files = record {
  executable = same_string (b'/' ∷ b'b' ∷ b'/' ∷ cc_name);
  readable = λ p. false;
  content = λ p. reads ((b'x' ∷ []) ∷ []) false;
}

abbrev manager : ToolManager
manager = record {
  tools = record { entries = free ∷ free ∷ []; capacity = 2; size = 0; tombstones = 0 };
  search_paths = (b'/' ∷ b'a' ∷ []) ∷ (b'/' ∷ b'b' ∷ []) ∷ [];
}

manager-IsValid : IsValid manager.tools
manager-IsValid = (blank-IsEmpty {V = ToolModule} 2 (omega arith)).valid

found : tool_manager_find_tool files manager cc_name ≡ some (b'/' ∷ b'b' ∷ b'/' ∷ cc_name)
unfolding program
found = refl

bare_name : has_slash cc_name ≡ false
unfolding program
bare_name = refl

parse_path_env_lem_example : IsSplit path_env (parse_path_env (some path_env))
parse_path_env_lem_example = parse_path_env_lem path_env

tool_manager_find_tool_first_example :
    Searched files manager.search_paths cc_name (tool_manager_find_tool files manager cc_name)
tool_manager_find_tool_first_example = tool_manager_find_tool_first files manager cc_name bare_name

tool_manager_load_tool-IsLoaded_example :
    (r : Option ToolModule) × (mgr' : ToolManager) × (tool_manager_load_tool files plain manager
        cc_name
      ≡ some (r, mgr'))
    × IsFrom files plain manager cc_name (tool_manager_get_tool manager cc_name) r
    × IsLoaded files plain manager cc_name r mgr'
tool_manager_load_tool-IsLoaded_example =
    tool_manager_load_tool-IsLoaded files plain manager cc_name manager-IsValid
