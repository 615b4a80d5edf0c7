-- ===== src/Cache.antt =====
-- web/cui/src/services/conversation-cache.ts: parsed history files, kept by modification time.
-- An entry of a file is any `A`. The function that parses a file is an argument; it answers `none`
-- where it throws. The calls run one after another: the promise that joins concurrent callers is
-- left out.
pub mod Coherence
use private_agent_platform.Base.{
  ℕ, ◌+◌, ◌-◌, String, Bool, true, false, List, [], ◌∷◌, ◌++◌, map, Option, none, some,
  if◌then◌else◌, eqb, filter, length,
}
use private_agent_platform.JsMap
use private_agent_platform.JsMap.{JsMap}

pub record FileCache (A : Type 0) : Type 0 where
  pub entries : List A
  pub mtime : ℕ
  pub source_project : String

pub record CacheData (A : Type 0) : Type 0 where
  pub file_cache : JsMap (FileCache A)
  pub last_cache_time : ℕ

-- The field `cache`.
abbrev pub Cache : Type 0 → Type 0
Cache A = Option (CacheData A)

module _ {A : Type 0} where
  unfoldable pub clear : Cache A → Cache A
  clear c = none

  -- `{ ...entry, sourceProject }`
  abbrev pub with_source : String → List A → List (A × String)
  with_source project = map (λ entry. (entry, project))

  abbrev pub initialised : ℕ → Cache A → CacheData A
  initialised now none = record { file_cache = []; last_cache_time = now }
  initialised now (some c) = c

  unfoldable update_file_cache : ℕ → String → List A → ℕ → String → Cache A → Cache A
  update_file_cache now path entries mtime project c =
      let c' = initialised now c in
      some (record c' {
        file_cache =
            JsMap.set path (record { entries = entries; mtime = mtime; source_project = project })
              c'.file_cache;
      })

  unfoldable clear_file_cache : String → Cache A → Cache A
  clear_file_cache path none = none
  clear_file_cache path (some c) =
      if JsMap.has path c.file_cache
      then some (record c { file_cache = JsMap.delete path c.file_cache })
      else some c

  unfoldable is_file_cache_valid : String → ℕ → Cache A → Bool
  is_file_cache_valid path mtime none = false
  is_file_cache_valid path mtime (some c) = elim (JsMap.get path c.file_cache) [
    | none ↦ false
    | some cached ↦ eqb cached.mtime mtime
  ]

  unfoldable total_entries : JsMap (FileCache A) → ℕ
  total_entries [] = 0
  total_entries ((k, c) ∷ m) = length c.entries + total_entries m

  -- The last loop: entries of files that no longer exist go.
  pub drop_deleted : JsMap ℕ → JsMap (FileCache A) → JsMap (FileCache A)
  drop_deleted files = filter (λ e. JsMap.has e.0 files)

module _ {A : Type 0} (parse_file : String → Option (List A)) (source : String → String) where
  pub reparse_file : String → ℕ → JsMap (FileCache A) → JsMap (FileCache A) × List (A × String)
  reparse_file path mtime m = elim (parse_file path) [
    | none ↦ (JsMap.delete path m, [])
    | some entries ↦ (
      JsMap.set path (record { entries = entries; mtime = mtime; source_project = source path }) m,
      with_source (source path) entries,
    )
  ]

  -- The body of the loop over the files.
  pub load_file : String → ℕ → JsMap (FileCache A) → JsMap (FileCache A) × List (A × String)
  unfolding reparse_file
  load_file path mtime m = elim (JsMap.get path m) [
    | none ↦ reparse_file path mtime m
    | some cached ↦
        if eqb cached.mtime mtime
        then (m, with_source cached.source_project cached.entries)
        else reparse_file path mtime m
  ]

  pub load_files : JsMap ℕ → JsMap (FileCache A) → JsMap (FileCache A) × List (A × String)
  unfolding load_file
  load_files [] m = (m, [])
  load_files ((path, mtime) ∷ files) m =
      let (m', entries) = load_file path mtime m in
      let (m'', rest) = load_files files m' in (m'', entries ++ rest)

  pub get_cached_file_entries : ℕ → JsMap ℕ → Cache A → Cache A × List (A × String)
  unfolding load_files drop_deleted
  get_cached_file_entries now files c =
      let c' = initialised now c in
      let (m, entries) = load_files files c'.file_cache in
      (some (record c' { file_cache = drop_deleted files m }), entries)

  -- `executeFileBasedParsing`
  unfoldable execute_file_based_parsing {ℓ} :
      {B : Type ℓ} → (List (A × String) → B) → ℕ → JsMap ℕ → Cache A → Cache A × B
  unfolding get_cached_file_entries
  execute_file_based_parsing process_all_entries now files c =
      let (c', entries) = get_cached_file_entries now files c in (c', process_all_entries entries)
