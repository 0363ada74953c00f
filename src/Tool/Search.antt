-- ===== src/Tool/Search.antt =====
-- The directories of PATH and the search in them.
use rebuild.Base.{
  ◌≤◌, ◌≡◌, refl, ap, arith, List, [], ◌∷◌, ◌++◌, Option, none, some, Bool, true, false,
}
use rebuild.Base.{take_long, Bytes, length, length-append, ◌==◌, Bool-cases, inl, inr, sym, ◌∙◌}
use mathlib.Core.List.{append_assoc}
use mathlib.Core.Path.{subst}
use rebuild.Base.{In, here, there, ◌||◌}
use rebuild.Tool.{Files, ToolManager, has_slash, search, tool_manager_find_tool}
use rebuild.Tool.{count_paths, token, tokens, parse_path_env}

length-token : (part : Bytes) → length (token part) ≤ 1
length-token [] = omega arith
length-token (c ∷ cs) = omega arith

length-tokens : (part cs : Bytes) → length (tokens part cs) ≤ count_paths cs
unfolding count_paths tokens
length-tokens part [] = length-token part
length-tokens part (c ∷ cs) = elim (Bool-cases (c == b':')) [
  | inl e ↦ rw e (
      omega
        (arith, length-append (token part) (tokens [] cs), length-token part, length-tokens [] cs))
  | inr e ↦ rw e (length-tokens (part ++ c ∷ []) cs)
]

unfoldable pub has_colon : Bytes → Bool
has_colon [] = false
has_colon (c ∷ cs) = c == b':' || has_colon cs

has_colon-append : (xs ys : Bytes) → has_colon (xs ++ ys) ≡ (has_colon xs || has_colon ys)
unfolding has_colon
has_colon-append [] ys = refl
has_colon-append (x ∷ xs) ys = ground (arith, has_colon-append xs ys)

-- What follows the first part of PATH: the other parts, with a colon before each.
abbrev pub after_colons : List Bytes → Bytes
after_colons [] = []
after_colons (part ∷ parts) = b':' ∷ (part ++ after_colons parts)

-- The parts that are not empty, in their order.
abbrev pub not_empty : List Bytes → List Bytes
not_empty [] = []
not_empty ([] ∷ parts) = not_empty parts
not_empty ((c ∷ cs) ∷ parts) = (c ∷ cs) ∷ not_empty parts

-- PATH falls into parts at its colons, and these are the directories among them.
pub record IsSplit (path_env : Bytes) (dirs : List Bytes) : Type 0 where
  pub first : Bytes
  pub rest : List Bytes
  pub whole : path_env ≡ first ++ after_colons rest
  pub clean : (part : Bytes) → In part (first ∷ rest) → has_colon part ≡ false
  pub kept : dirs ≡ not_empty (first ∷ rest)

not_empty-token :
    (part : Bytes) (parts : List Bytes) → token part ++ not_empty parts ≡ not_empty (part ∷ parts)
not_empty-token [] parts = refl
not_empty-token (c ∷ cs) parts = refl

not_empty_one : (part : Bytes) → token part ≡ not_empty (part ∷ [])
not_empty_one [] = refl
not_empty_one (c ∷ cs) = refl

clean_cons :
    (part : Bytes) (parts : List Bytes)
    → has_colon part ≡ false
    → ((p : Bytes) → In p parts → has_colon p ≡ false)
    → (p : Bytes) → In p (part ∷ parts)
    → has_colon p ≡ false
clean_cons part parts e rest p (here h) = ap has_colon h ∙ e
clean_cons part parts e rest p (there h) = rest p h

tokens-IsSplit : (part cs : Bytes) → has_colon part ≡ false → IsSplit (part ++ cs) (tokens part cs)
unfolding tokens has_colon
tokens-IsSplit part [] clean = record {
  first = part;
  rest = [];
  whole = refl;
  clean = clean_cons part [] clean (λ p h. elim h [ ]);
  kept = not_empty_one part;
}
tokens-IsSplit part (c ∷ cs) clean =
    let next = tokens-IsSplit [] cs refl in
    let same = tokens-IsSplit (part ++ c ∷ []) cs in
    elim (Bool-cases (c == b':')) [
      | inl e ↦
          let colon : c ≡ b':' = ground arith in
          record {
            first = part;
            rest = next.first ∷ next.rest;
            whole =
                ap (λ x. part ++ x ∷ cs) colon ∙ ap (λ (l : Bytes). part ++ b':' ∷ l) next.whole;
            clean = clean_cons part (next.first ∷ next.rest) clean next.clean;
            kept = rw e (
                ap (λ l. token part ++ l) next.kept
                ∙ not_empty-token part (next.first ∷ next.rest));
          }
      | inr e ↦
          let more = same (ground (arith, has_colon-append part (c ∷ []))) in
          record {
            first = more.first;
            rest = more.rest;
            whole = sym (append_assoc part (c ∷ []) cs) ∙ more.whole;
            clean = more.clean;
            kept = rw e more.kept;
          }
    ]

-- `parse_path_env` of a set PATH splits it at its colons and keeps the parts that are not empty, in
-- their order; the array for them is never too small.
pub parse_path_env_lem : (path_env : Bytes) → IsSplit path_env (parse_path_env (some path_env))
unfolding parse_path_env has_colon
parse_path_env_lem path_env =
    let whole = take_long (count_paths path_env) (tokens [] path_env) (length-tokens [] path_env) in
    subst (IsSplit path_env) (sym whole) (tokens-IsSplit [] path_env refl)

module _ (f : Files) where
  -- The tool stands in this directory, and in none before it.
  pub record IsFirst (paths : List Bytes) (name path : Bytes) : Type 0 where
    pub before : List Bytes
    pub dir : Bytes
    pub after : List Bytes
    pub listed : paths ≡ before ++ dir ∷ after
    pub located : path ≡ dir ++ b'/' ∷ name
    pub runs : f.executable path ≡ true
    pub earlier : (d : Bytes) → In d before → f.executable (d ++ b'/' ∷ name) ≡ false

  -- What a search returns.
  abbrev pub Searched : List Bytes → Bytes → Option Bytes → Type 0
  Searched paths name none = (d : Bytes) → In d paths → f.executable (d ++ b'/' ∷ name) ≡ false
  Searched paths name (some path) = IsFirst paths name path

  skipped :
      (dir name : Bytes) (ds : List Bytes)
      → f.executable (dir ++ b'/' ∷ name) ≡ false
      → ((d : Bytes) → In d ds → f.executable (d ++ b'/' ∷ name) ≡ false)
      → (d : Bytes) → In d (dir ∷ ds)
      → f.executable (d ++ b'/' ∷ name) ≡ false
  skipped dir name ds e s d (here h) = rw h e
  skipped dir name ds e s d (there h) = s d h

  later :
      (dir name : Bytes) (paths : List Bytes) (r : Option Bytes)
      → f.executable (dir ++ b'/' ∷ name) ≡ false
      → Searched paths name r
      → Searched (dir ∷ paths) name r
  later dir name paths none e s = skipped dir name paths e s
  later dir name paths (some path) e s = record {
    before = dir ∷ s.before;
    dir = s.dir;
    after = s.after;
    listed = ap (λ t. dir ∷ t) s.listed;
    located = s.located;
    runs = s.runs;
    earlier = skipped dir name s.before e s.earlier;
  }

  search-Searched : (paths : List Bytes) (name : Bytes) → Searched paths name (search f paths name)
  unfolding search
  search-Searched [] name = λ d h. elim h [ ]
  search-Searched (dir ∷ paths) name =
      let rest = search-Searched paths name in
      elim (Bool-cases (f.executable (dir ++ b'/' ∷ name))) [
        | inl e ↦
            rw (search, e)
              (record {
                before = [];
                dir = dir;
                after = paths;
                listed = refl;
                located = refl;
                runs = e;
                earlier = λ d h. elim h [ ];
              })
        | inr e ↦ rw (search, e) (later dir name paths (search f paths name) e rest)
      ]

  -- For a name without a slash `tool_manager_find_tool` returns the executable in the first directory
  -- of PATH that has one, and NULL if none has.
  pub tool_manager_find_tool_first :
      (mgr : ToolManager) (name : Bytes)
      → has_slash name ≡ false
      → Searched mgr.search_paths name (tool_manager_find_tool f mgr name)
  unfolding tool_manager_find_tool
  tool_manager_find_tool_first mgr name plain = rw plain (search-Searched mgr.search_paths name)
