-- ===== src/History/Cleanup.antt =====
-- `cleanupEmptyShellSessions` of claude-history-reader.ts. The disk is the list of its paths.
-- `base_name` is `path.basename` without the extension `.jsonl`; `unlink` says which paths can be
-- deleted. The sessions whose information is to be deleted are listed in order.
pub mod Kept
use private_agent_platform.Base.{
  ℕ, zero, suc, String, Bool, true, false, not, ◌&&◌, ◌||◌, List, [], ◌∷◌, ◌++◌, map, Option, none,
  some, ◌==◌, if◌then◌else◌, leb, eqb, filter, any, codes,
}
use private_agent_platform.JsMap
use private_agent_platform.JsMap.{JsMap}
use private_agent_platform.JsonLines.{is_empty}
use private_agent_platform.History.Conversation.{ConversationChain}

-- A character of the class [0-9a-f].
abbrev is_hex : ℕ → Bool
is_hex c = (leb 48 c && leb c 57) || (leb 97 c && leb c 102)

-- The text behind that many such characters, if it begins with them.
unfoldable strip_hex : ℕ → List ℕ → Option (List ℕ)
strip_hex zero cs = some cs
strip_hex (suc n) [] = none
strip_hex (suc n) (c ∷ cs) = let rest = strip_hex n cs in if is_hex c then rest else none

-- Groups of such characters, of the given lengths, with a dash between any two.
unfoldable is_grouped : List ℕ → Option (List ℕ) → Bool
unfolding strip_hex
is_grouped [] none = false
is_grouped [] (some cs) = is_empty cs
is_grouped (n ∷ ns) none = false
is_grouped (n ∷ ns) (some []) = false
is_grouped (n ∷ ns) (some (c ∷ cs)) =
    let rest = is_grouped ns (strip_hex n cs) in if eqb c 45 then rest else false

pub is_session_id : String → Bool
unfolding is_grouped strip_hex
is_session_id s = is_grouped (4 ∷ 4 ∷ 4 ∷ 12 ∷ []) (strip_hex 8 (codes s))

pub record Disk : Type 0 where
  pub files : List String
  pub deleted_sessions : List String

abbrev pub is_in : String → List String → Bool
is_in x xs = any (λ y. y == x) xs

module _ (base_name : String → String) (unlink : String → Bool) where
  -- The body of the loop.
  pub cleanup_file : List String → String → Disk → Disk
  unfolding is_session_id
  cleanup_file valid_session_ids file_path disk =
      let file_name = base_name file_path in
      if is_session_id file_name && not (is_in file_name valid_session_ids)
      then if unlink file_path
        then record {
          files = filter (λ p. not (p == file_path)) disk.files;
          deleted_sessions = disk.deleted_sessions ++ (file_name ∷ []);
        }
        else disk
      else disk

  pub cleanup_files : List String → List String → Disk → Disk
  unfolding cleanup_file
  cleanup_files valid_session_ids [] disk = disk
  cleanup_files valid_session_ids (path ∷ paths) disk =
      cleanup_files valid_session_ids paths (cleanup_file valid_session_ids path disk)

  unfoldable pub cleanup_empty_shell_sessions : JsMap ℕ → List ConversationChain → Disk → Disk
  unfolding cleanup_files
  cleanup_empty_shell_sessions file_paths valid_conversations disk =
      cleanup_files (map (λ c. c.session_id) valid_conversations) (JsMap.keys file_paths) disk
