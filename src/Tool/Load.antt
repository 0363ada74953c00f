-- ===== src/Tool/Load.antt =====
-- Loading a tool.
use rebuild.Base.{◌≡◌, refl, Option, none, some, Bytes, same_string, if◌then◌else◌}
use rebuild.Base.{
  true, false, ◌⊎◌, Bool-cases, Option-cases, same_string_cases, same_string_refl, inl, inr,
}
use rebuild.Hash.{Hash, Blake2, hash_file, zero_hash}
use rebuild.Map
use rebuild.Map.Writes.{set-IsWrite}
use rebuild.Table.Rehash.{IsValid}
use rebuild.Tool.{Files, ToolModule, ToolManager, new_tool, store_tool, tool_manager_load_tool}
use rebuild.Tool.{tool_manager_get_tool, tool_manager_find_tool, get_module_path, hash_module}

module _ (f : Files) (b : Blake2) where
  -- A module that is not readable, or whose hash fails, is recorded with zeros.
  abbrev pub IsModuleHash : Bytes → Hash → Type 0
  IsModuleHash path h =
      ((f.readable path ≡ true) × (hash_file b (f.content path) ≡ some h))
      ⊎ (((f.readable path ≡ false) ⊎ (hash_file b (f.content path) ≡ none)) × (h ≡ zero_hash))

  -- A new tool: its binary is found, and both hashes are those of its files.
  pub record IsTool (mgr : ToolManager) (name : Bytes) (t : ToolModule) : Type 0 where
    pub named : t.name ≡ name
    pub found : tool_manager_find_tool f mgr name ≡ some t.binary_path
    pub hashed : hash_file b (f.content t.binary_path) ≡ some t.binary_hash
    pub located : t.module_path ≡ get_module_path name
    pub module_hashed : IsModuleHash (get_module_path name) t.module_hash

  -- A new tool, or why there is none.
  abbrev pub IsNew : ToolManager → Bytes → Option ToolModule → Type 0
  IsNew mgr name (some t) = IsTool mgr name t
  IsNew mgr name none =
      (tool_manager_find_tool f mgr name ≡ none)
      ⊎ ((path : Bytes) × (tool_manager_find_tool f mgr name ≡ some path)
          × (hash_file b (f.content path) ≡ none))

  -- The tool that was loaded, or else a new one.
  abbrev pub IsFrom : ToolManager → Bytes → Option ToolModule → Option ToolModule → Type 0
  IsFrom mgr name (some existing) r = r ≡ some existing
  IsFrom mgr name none r = IsNew mgr name r

  hash_module-IsModuleHash : (path : Bytes) → IsModuleHash path (hash_module f b path)
  unfolding hash_module
  hash_module-IsModuleHash path = elim (Bool-cases (f.readable path)) [
    | inr e ↦ inr (inl e, rw (hash_module, e) refl)
    | inl e ↦ elim (Option-cases (hash_file b (f.content path))) [
      | inl h ↦ inr (inr h, rw (hash_module, e, h) refl)
      | inr (v, h) ↦ inl (e, rw (hash_module, e, h) refl)
    ]
  ]

  new_tool-IsNew : (mgr : ToolManager) (name : Bytes) → IsNew mgr name (new_tool f b mgr name)
  unfolding new_tool
  new_tool-IsNew mgr name = elim (Option-cases (tool_manager_find_tool f mgr name)) [
    | inl e ↦ rw (new_tool, e) (inl e)
    | inr (path, e) ↦ elim (Option-cases (hash_file b (f.content path))) [
      | inl h ↦ rw (new_tool, e, h) (inr (path, e, h))
      | inr (v, h) ↦
          rw (new_tool, e, h)
            (record {
              named = refl;
              found = e;
              hashed = h;
              located = refl;
              module_hashed = hash_module-IsModuleHash (get_module_path name);
            })
    ]
  ]

  -- What a load that returned `r` has done.
  pub record IsLoaded (mgr : ToolManager) (name : Bytes) (r : Option ToolModule)
      (mgr' : ToolManager) : Type 0 where
    pub valid : IsValid mgr'.tools
    pub paths : mgr'.search_paths ≡ mgr.search_paths
    pub reads :
        (q : Bytes)
        → tool_manager_get_tool mgr' q
          ≡ (if same_string q name then r else tool_manager_get_tool mgr q)

  unchanged :
      (mgr : ToolManager) (name : Bytes) (r : Option ToolModule)
      → IsValid mgr.tools
      → Map.get mgr.tools name ≡ r
      → IsLoaded mgr name r mgr
  unfolding tool_manager_get_tool
  unchanged mgr name r inv e = record {
    valid = inv;
    paths = refl;
    reads = λ q. elim (same_string_cases q name) [
      | inl h ↦ rw (h, same_string_refl name) e
      | inr (n, h) ↦ rw h refl
    ];
  }

  store_tool-IsLoaded :
      (mgr : ToolManager) (name : Bytes) (r : Option ToolModule)
      → IsValid mgr.tools
      → Map.get mgr.tools name ≡ none
      → (mgr' : ToolManager) × (store_tool f b mgr name r ≡ some (r, mgr'))
        × IsLoaded mgr name r mgr'
  unfolding store_tool tool_manager_get_tool
  store_tool-IsLoaded mgr name none inv e = (mgr, refl, unchanged mgr name none inv e)
  store_tool-IsLoaded mgr name (some tool) inv e =
      let (m, run, w) = set-IsWrite mgr.tools name tool inv in
      (
        record mgr { tools = m },
        rw run refl,
        record { valid = w.valid; paths = refl; reads = w.reads },
      )

  -- `tool_manager_load_tool` with a well-formed map of tools does not fault, and keeps it well
  -- formed. It returns the tool that is loaded already. Or else it returns NULL, where no binary is
  -- found or its hash fails, or a new tool with the path and the hash of the binary, and with the hash
  -- of its module, which is zeros where the module cannot be read or hashed. Afterwards the result,
  -- NULL included, is what `tool_manager_get_tool` returns for the name, and no other tool has
  -- changed.
  pub tool_manager_load_tool-IsLoaded :
      (mgr : ToolManager) (name : Bytes)
      → IsValid mgr.tools
      → (r : Option ToolModule) × (mgr' : ToolManager) × (tool_manager_load_tool f b mgr name
          ≡ some (r, mgr'))
        × IsFrom mgr name (tool_manager_get_tool mgr name) r
        × IsLoaded mgr name r mgr'
  unfolding tool_manager_load_tool tool_manager_get_tool
  tool_manager_load_tool-IsLoaded mgr name inv = elim (Option-cases (Map.get mgr.tools name)) [
    | inl e ↦
        let (mgr', run, l) = store_tool-IsLoaded mgr name (new_tool f b mgr name) inv e in
        (
          new_tool f b mgr name,
          mgr',
          rw (tool_manager_load_tool, e) run,
          rw e (new_tool-IsNew mgr name),
          l,
        )
    | inr (tool, e) ↦ (
      some tool,
      mgr,
      rw (tool_manager_load_tool, e) refl,
      rw e refl,
      unchanged mgr name (some tool) inv e,
    )
  ]
