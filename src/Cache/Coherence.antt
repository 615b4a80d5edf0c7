-- ===== src/Cache/Coherence.antt =====
-- Lemmas that compare conversation-cache.ts with parsing every file afresh.
use private_agent_platform.Base.{
  ℕ, String, List, [], ◌∷◌, ◌++◌, Option, none, some, if◌then◌else◌, eqb, eqb_iff, eq_iff, ◌==◌,
  ◌≡◌, refl, sym, ◌∙◌, ap, ap₂, arith, All, Bool-cases, Option-cases, inl, inr,
}
use private_agent_platform.JsMap
use private_agent_platform.JsMap.{JsMap}
use private_agent_platform.JsMap.Laws.{get-set, get-delete}
use private_agent_platform.Cache.{
  FileCache, Cache, with_source, initialised, reparse_file, load_file, load_files, drop_deleted,
  get_cached_file_entries,
}

-- `disk path mtime` is what parsing gives for the file while its modification time is `mtime`.
module _ {A : Type 0} (disk : String → ℕ → Option (List A)) (source : String → String) where
  -- What is cached for a file is what the file held at the cached modification time.
  abbrev IsCoherent : JsMap (FileCache A) → Type 0
  IsCoherent m =
      (path : String) (c : FileCache A)
      → JsMap.get path m ≡ some c
      → (disk path c.mtime ≡ some c.entries) × (c.source_project ≡ source path)

  -- A cache that is not there yet is coherent.
  abbrev pub IsCoherentCache : Cache A → Type 0
  IsCoherentCache none = Unit
  IsCoherentCache (some c) = IsCoherent c.file_cache

  -- The entries of one file, parsed afresh.
  abbrev pub fresh : String → Option (List A) → List (A × String)
  fresh path none = []
  fresh path (some entries) = with_source (source path) entries

  -- The entries of all files, parsed afresh.
  abbrev pub fresh_all : JsMap ℕ → List (A × String)
  fresh_all [] = []
  fresh_all ((path, mtime) ∷ files) = fresh path (disk path mtime) ++ fresh_all files

  -- The cached entry that a file has after it was loaded.
  abbrev pub stored : String → ℕ → Option (List A) → Option (FileCache A)
  stored path mtime none = none
  stored path mtime (some entries) =
      some (record { entries = entries; mtime = mtime; source_project = source path })

  module _ (parse_file : String → Option (List A)) where
    reparse_file-fresh :
        (path j : String) (mtime : ℕ) (m : JsMap (FileCache A))
        → parse_file path ≡ disk path mtime
        → ((reparse_file parse_file source path mtime m).1 ≡ fresh path (disk path mtime))
          × (JsMap.get j (reparse_file parse_file source path mtime m).0
              ≡ (if path == j then stored path mtime (disk path mtime) else JsMap.get j m))
    unfolding reparse_file
    reparse_file-fresh path j mtime m now = elim (Option-cases (disk path mtime)) [
      | inl e ↦ rw (now ∙ e, reparse_file, e) (refl, get-delete path j m)
      | inr (es, e) ↦ rw (now ∙ e, reparse_file, e) (refl, get-set path j _ m)
    ]

    load_file-fresh :
        (path j : String) (mtime : ℕ) (m : JsMap (FileCache A))
        → parse_file path ≡ disk path mtime
        → IsCoherent m
        → ((load_file parse_file source path mtime m).1 ≡ fresh path (disk path mtime))
          × (JsMap.get j (load_file parse_file source path mtime m).0
              ≡ (if path == j then stored path mtime (disk path mtime) else JsMap.get j m))
    unfolding load_file
    load_file-fresh path j mtime m now co = elim (Option-cases (JsMap.get path m)) [
      | inl e ↦ rw (e, load_file) (reparse_file-fresh path j mtime m now)
      | inr (c, e) ↦ elim (Bool-cases (eqb c.mtime mtime)) [
        | inr stale ↦ rw (e, load_file, stale) (reparse_file-fresh path j mtime m now)
        | inl same ↦
            let at : c.mtime ≡ mtime = (eqb_iff c.mtime mtime).0 same in
            let held = co path c e in
            let on_disk : disk path mtime ≡ some c.entries = rw at at held.0 in
            rw (e, load_file, same, on_disk)
              (
                ap (λ p. with_source p c.entries) held.1,
                elim (Bool-cases (path == j)) [
                  | inl here ↦ rw here (
                      ap (λ k. JsMap.get k m) (sym ((eq_iff path j).0 here)) ∙ e ∙ λ i.
                      some
                        (record { entries = c.entries; mtime = at i; source_project = held.1 i }))
                  | inr other ↦ rw other
                ],
              )
      ]
    ]

    stored-IsCoherent :
        (path : String) (mtime : ℕ) (m m' : JsMap (FileCache A))
        → ((j : String)
            → JsMap.get j m'
              ≡ (if path == j then stored path mtime (disk path mtime) else JsMap.get j m))
        → IsCoherent m
        → IsCoherent m'
    stored-IsCoherent path mtime m m' g co j c h = elim (Bool-cases (path == j)) [
      | inr other ↦ co j c (sym (g j ∙ rw other) ∙ h)
      | inl here ↦ elim (Option-cases (disk path mtime)) [
        | inl gone ↦ absurd (ground (arith, g j))
        | inr (es, e) ↦
            let same = (eq_iff path j).0 here in (ground (arith, g j), ground (arith, g j))
      ]
    ]

    load_files-fresh :
        (files : JsMap ℕ) (m : JsMap (FileCache A))
        → All (λ f. parse_file f.0 ≡ disk f.0 f.1) files
        → IsCoherent m
        → ((load_files parse_file source files m).1 ≡ fresh_all files)
          × IsCoherent (load_files parse_file source files m).0
    unfolding load_files
    load_files-fresh [] m now co = (refl, co)
    load_files-fresh ((path, mtime) ∷ files) m now co =
        let m' = (load_file parse_file source path mtime m).0 in
        let first = load_file-fresh path path mtime m now.0 co in
        let co' =
          stored-IsCoherent path mtime m m' (λ j. (load_file-fresh path j mtime m now.0 co).1) co in
        let later = load_files-fresh files m' now.1 co' in (ap₂ ◌++◌ first.0 later.0, later.1)

    get-drop_deleted :
        (files : JsMap ℕ) (j : String) (m : JsMap (FileCache A))
        → JsMap.get j (drop_deleted files m) ≡ (if JsMap.has j files then JsMap.get j m else none)
    unfolding drop_deleted JsMap.get
    get-drop_deleted files j [] = ground arith
    get-drop_deleted files j ((k, c) ∷ m) = ground (arith, eq_iff k j, get-drop_deleted files j m)

    initialised-IsCoherent :
        (now : ℕ) (c : Cache A) → IsCoherentCache c → IsCoherent (initialised now c).file_cache
    unfolding JsMap.get
    initialised-IsCoherent now none co = λ path c h. cc
    initialised-IsCoherent now (some c) co = co

    -- With a coherent cache, and files that parse to what the disk holds at their modification
    -- times, the answer is what parsing every file afresh gives, a file that does not parse giving
    -- nothing. The cache stays coherent and holds only files that exist.
    pub get_cached_file_entries-fresh :
        (now : ℕ) (files : JsMap ℕ) (c : Cache A) (j : String)
        → All (λ f. parse_file f.0 ≡ disk f.0 f.1) files
        → IsCoherentCache c
        → let (c', entries) = get_cached_file_entries parse_file source now files c in
          (entries ≡ fresh_all files)
          × IsCoherentCache c'
          × (JsMap.get j (initialised now c').file_cache ≡ (
              if JsMap.has j files
              then JsMap.get j (load_files parse_file source files (initialised now c).file_cache).0
              else none))
    unfolding get_cached_file_entries
    get_cached_file_entries-fresh now files c j p co =
        let m = (initialised now c).file_cache in
        let l = load_files-fresh files m p (initialised-IsCoherent now c co) in
        let m' = (load_files parse_file source files m).0 in
        (
          l.0,
          λ path x h. l.1 path x (ground (arith, get-drop_deleted files path m')),
          get-drop_deleted files j m',
        )
