-- ===== src/Examples/Database.antt =====
-- A table in memory that behaves as SessionInfo/Table.antt asks, and runs of SessionInfo.antt on it.
use mathlib.Core.Option
use private_agent_platform.Base.{
  ℕ, String, Bool, not, List, [], ◌∷◌, none, some, ◌==◌, if◌then◌else◌, filter, length, ◌≡◌, refl,
  ◌∙◌, arith, eq_iff, Bool-cases, inl, inr, any,
}
use private_agent_platform.JsMap
use private_agent_platform.JsMap.{JsMap}
use private_agent_platform.JsMap.Index.{keep}
use private_agent_platform.JsMap.Laws.{IsDistinct, get-set, set-IsDistinct}
use private_agent_platform.SessionInfo.Table.{Row, Database, IsSql}
use private_agent_platform.SessionInfo.{
  Updates, no_updates, row_of, default_session, map_row, get_session_info, update_session_info,
}
use private_agent_platform.SessionInfo.Batches.{batch_archive_sessions}
use private_agent_platform.SessionInfo.Counts.{count_ids}
use private_agent_platform.SessionInfo.Changes.{
  archived_once, is_unarchived, batch_archive_sessions-get,
}
use private_agent_platform.SessionInfo.Merged.{Merges, update_session_info-Merges}

pub record Store : Type 0 where
  pub table : JsMap Row
  pub distinct : IsDistinct table
  pub meta : JsMap String

pub update_rows : (String → Row → Bool) → (Row → Row) → JsMap Row → JsMap Row
update_rows p f [] = []
update_rows p f ((k, r) ∷ m) = (k, if p k r then f r else r) ∷ update_rows p f m

update_rows-get :
    (p : String → Row → Bool) (f : Row → Row) (m : JsMap Row) (j : String)
    → JsMap.get j (update_rows p f m) ≡ Option.map (λ r. if p j r then f r else r) (JsMap.get j m)
unfolding JsMap.get update_rows
update_rows-get p f [] j = refl
update_rows-get p f ((k, r) ∷ m) j = elim (Bool-cases (k == j)) [
  | inl same ↦ rw (same, (eq_iff k j).0 same)
  | inr other ↦ rw other (update_rows-get p f m j)
]

pub update_rows-IsDistinct :
    (p : String → Row → Bool) (f : Row → Row) (m : JsMap Row)
    → IsDistinct m
    → IsDistinct (update_rows p f m)
unfolding update_rows
update_rows-IsDistinct p f [] d = tt
update_rows-IsDistinct p f ((k, r) ∷ m) d =
    (update_rows-get p f m k ∙ rw d.0, update_rows-IsDistinct p f m d.1)

pub delete_rows : (String → Row → Bool) → JsMap Row → JsMap Row
delete_rows p [] = []
delete_rows p ((k, r) ∷ m) = let rest = delete_rows p m in if p k r then rest else (k, r) ∷ rest

delete_rows-get :
    (p : String → Row → Bool) (m : JsMap Row) (j : String)
    → IsDistinct m
    → JsMap.get j (delete_rows p m) ≡ keep (λ r. not (p j r)) (JsMap.get j m)
unfolding JsMap.get delete_rows
delete_rows-get p [] j d = refl
delete_rows-get p ((k, r) ∷ m) j d = elim (Bool-cases (k == j)) [
  | inl same ↦
      let here = (eq_iff k j).0 same in
      let absent = rw here at d.0 in
      elim (Bool-cases (p j r)) [
        | inl hit ↦ rw (same, here, hit) (delete_rows-get p m j d.1 ∙ rw absent)
        | inr miss ↦ rw (same, here, miss) (ground arith)
      ]
  | inr other ↦ elim (Bool-cases (p k r)) [
    | inl hit ↦ rw (other, hit) (delete_rows-get p m j d.1)
    | inr miss ↦ rw (other, miss) (ground (arith, delete_rows-get p m j d.1, other))
  ]
]

pub delete_rows-IsDistinct :
    (p : String → Row → Bool) (m : JsMap Row) → IsDistinct m → IsDistinct (delete_rows p m)
unfolding delete_rows
delete_rows-IsDistinct p [] d = tt
delete_rows-IsDistinct p ((k, r) ∷ m) d = elim (Bool-cases (p k r)) [
  | inl hit ↦ rw hit (delete_rows-IsDistinct p m d.1)
  | inr miss ↦ rw miss (delete_rows-get p m k d.1 ∙ rw d.0, delete_rows-IsDistinct p m d.1)
]

pub put : String → Row → Store → Store
put k row s = record {
  table = JsMap.set k row s.table;
  distinct = set-IsDistinct k row s.table s.distinct;
  meta = s.meta;
}

pub matches : (String → Row → Bool) → Store → ℕ
matches p s = length (filter (λ e. p e.0 e.1) s.table)

abbrev pub memory : Database Store
memory = record {
  rows = λ s. s.table;
  metadata = λ s. s.meta;
  insert = λ k row s. if JsMap.has k s.table then none else some (put k row s);
  insert_or_ignore = λ k row s. if JsMap.has k s.table then (s, 0) else (put k row s, 1);
  update = λ p f s. (
    record {
      table = update_rows p f s.table;
      distinct = update_rows-IsDistinct p f s.table s.distinct;
      meta = s.meta;
    },
    matches p s,
  );
  delete = λ p s. (
    record {
      table = delete_rows p s.table;
      distinct = delete_rows-IsDistinct p s.table s.distinct;
      meta = s.meta;
    },
    matches p s,
  );
  set_metadata = λ k v s. record s { meta = JsMap.set k v s.meta };
}

pub memory-IsSql : IsSql memory
unfolding put matches
memory-IsSql = record {
  distinct = λ d. d.distinct;
  inserts = λ k row d e. (put k row d, rw e, λ j. get-set k j row d.table);
  inserts_once = λ k row d e. rw e;
  ignores = λ k row d j. elim (Bool-cases (JsMap.has k d.table)) [
    | inl e ↦ rw e (ground arith)
    | inr e ↦ rw e (get-set k j row d.table ∙ ground arith)
  ];
  ignored = λ k row d. ground arith;
  updates = λ p f d j. update_rows-get p f d.table j;
  updated = λ p f d. refl;
  deletes = λ p d j. delete_rows-get p d.table j d.distinct;
  deleted = λ p d. refl;
  sets = λ k v d j. refl;
}

-- Two stored sessions, the second of them archived.
abbrev pub known : JsMap Row
known =
    ("s1", row_of (default_session "t0"))
    ∷ ("s2", record (row_of (default_session "t0")) { archived = 1 })
    ∷ []

pub known-IsDistinct : IsDistinct known
unfolding JsMap.get
known-IsDistinct = (refl, (refl, tt))

abbrev pub store : Store
store = record { table = known; distinct = known-IsDistinct; meta = [] }

abbrev renamed : Updates
renamed = record no_updates { custom_name = some "mine"; created_at = some "t9" }

update_session_info-Merges_example :
    Merges memory memory-IsSql "t1" "s1" renamed store (JsMap.get "s1" known)
update_session_info-Merges_example =
    update_session_info-Merges memory memory-IsSql "t1" "s1" renamed store

-- The answer of an update and a later reading can differ in the creation time.
created_kept :
    Option.map {B = String × String}
      (λ x. (x.1.created_at, (get_session_info memory "t2" "s1" x.0).1.created_at))
      (update_session_info memory "t1" "s1" renamed store)
    ≡ some ("t9", "t0")
unfolding update_session_info get_session_info map_row JsMap.get JsMap.set update_rows
created_kept = refl

abbrev ids : List String
ids = "s1" ∷ "s2" ∷ "s1" ∷ "s4" ∷ []

batch_archive_sessions-get_example :
    let (d', done) = batch_archive_sessions memory "t1" ids store in
    (JsMap.get "s1" d'.table ≡ (
      if any (λ id. id == "s1") ids
      then archived_once "t1" (JsMap.get "s1" known)
      else JsMap.get "s1" known))
    × (done ≡ count_ids (λ id. is_unarchived (JsMap.get id known)) ids)
batch_archive_sessions-get_example =
    batch_archive_sessions-get memory memory-IsSql "t1" ids store "s1"
