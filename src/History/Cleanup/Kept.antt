-- ===== src/History/Cleanup/Kept.antt =====
-- Lemmas on the files that the clean-up of claude-history-reader.ts keeps.
use private_agent_platform.Base.{
  ℕ, String, Bool, true, false, not, ◌&&◌, List, [], ◌∷◌, map, ◌==◌, ◌≡◌, sym, ◌∙◌, ap, arith,
  eq_iff, if◌then◌else◌, filter, filter-filter, filter-congr, filter-always, Bool-cases, inl, inr,
}
use private_agent_platform.JsMap
use private_agent_platform.JsMap.{JsMap}
use private_agent_platform.History.Conversation.{ConversationChain}
use private_agent_platform.History.Cleanup.{
  Disk, is_in, is_session_id, cleanup_file, cleanup_files, cleanup_empty_shell_sessions,
}

module _ (base_name : String → String) (unlink : String → Bool) where
  -- Whether a file is named like a session that is not among the valid ones, and can be deleted.
  abbrev pub is_removable : List String → String → Bool
  is_removable valid p =
      (is_session_id (base_name p) && not (is_in (base_name p) valid)) && unlink p

  -- One file is removed, or nothing is.
  cleanup_file-if :
      (valid : List String) (path : String) (disk : Disk)
      → (cleanup_file base_name unlink valid path disk).files
        ≡ (if is_removable valid path then filter (λ p. not (p == path)) disk.files else disk.files)
  unfolding cleanup_file
  cleanup_file-if valid path disk =
      elim (Bool-cases (is_session_id (base_name path) && not (is_in (base_name path) valid))) [
        | inr other ↦ rw (other, cleanup_file)
        | inl shell ↦ elim (Bool-cases (unlink path)) [
          | inl done ↦ rw (shell, done, cleanup_file)
          | inr refused ↦ rw (shell, refused, cleanup_file)
        ]
      ]

  removable-same :
      (valid : List String) (path p : String)
      → (p == path && is_removable valid p) ≡ (p == path && is_removable valid path)
  removable-same valid path p = elim (Bool-cases (p == path)) [
    | inl same ↦ let here = (eq_iff p path).0 same in rw (same, here)
    | inr other ↦ rw other
  ]

  kept_if_removed :
      (valid : List String) (path : String)
      → is_removable valid path ≡ true
      → (p : String) → not (p == path) ≡ not (p == path && is_removable valid p)
  kept_if_removed valid path gone p = rw (removable-same valid path p, gone) (ground arith)

  kept_if_kept :
      (valid : List String) (path : String)
      → is_removable valid path ≡ false
      → (p : String) → true ≡ not (p == path && is_removable valid p)
  kept_if_kept valid path kept p = rw (removable-same valid path p, kept) (ground arith)

  cleanup_file-files :
      (valid : List String) (path : String) (disk : Disk)
      → (cleanup_file base_name unlink valid path disk).files
        ≡ filter (λ p. not (p == path && is_removable valid p)) disk.files
  cleanup_file-files valid path disk =
      cleanup_file-if valid path disk
      ∙ elim (Bool-cases (is_removable valid path))
          as (λ x.
            (if is_removable valid path
              then filter (λ p. not (p == path)) disk.files
              else disk.files)
            ≡ filter (λ p. not (p == path && is_removable valid p)) disk.files) [
              | inl gone ↦ rw gone (
                  filter-congr (λ p. not (p == path)) (λ p. not (p == path && is_removable valid p))
                    disk.files (kept_if_removed valid path gone))
              | inr kept ↦ rw kept (
                  sym (filter-always disk.files)
                  ∙ filter-congr (λ p. true) (λ p. not (p == path && is_removable valid p))
                      disk.files (kept_if_kept valid path kept))
            ]

  both_kept :
      (valid paths : List String) (path p : String)
      → (not (p == path && is_removable valid p) && not (is_in p paths && is_removable valid p))
        ≡ not (is_in p (path ∷ paths) && is_removable valid p)
  both_kept valid paths path p = elim (Bool-cases (is_removable valid p)) [
    | inl gone ↦ rw gone (ground (arith, eq_iff p path, eq_iff path p))
    | inr kept ↦ rw kept (ground arith)
  ]

  cleanup_files-files :
      (valid paths : List String) (disk : Disk)
      → (cleanup_files base_name unlink valid paths disk).files
        ≡ filter (λ p. not (is_in p paths && is_removable valid p)) disk.files
  unfolding cleanup_files
  cleanup_files-files valid [] disk = sym (filter-always disk.files)
  cleanup_files-files valid (path ∷ paths) disk =
      cleanup_files-files valid paths (cleanup_file base_name unlink valid path disk)
      ∙ ap (filter (λ p. not (is_in p paths && is_removable valid p)))
          (cleanup_file-files valid path disk)
      ∙ filter-filter _ _ disk.files
      ∙ filter-congr _ _ disk.files (both_kept valid paths path)

  -- The clean-up deletes exactly those of the files that it is given whose name is a session id
  -- without a valid conversation and which can be deleted; all other files stay.
  pub cleanup_empty_shell_sessions-files :
      (file_paths : JsMap ℕ) (conversations : List ConversationChain) (disk : Disk)
      → (cleanup_empty_shell_sessions base_name unlink file_paths conversations disk).files
        ≡ filter
            (λ p. not (
              is_in p (JsMap.keys file_paths)
              && is_removable (map (λ c. c.session_id) conversations) p))
            disk.files
  unfolding cleanup_empty_shell_sessions
  cleanup_empty_shell_sessions-files file_paths conversations disk =
      cleanup_files-files (map (λ c. c.session_id) conversations) (JsMap.keys file_paths) disk
