-- ===== src/Examples/Services.antt =====
-- Runs of Cache.antt and Streams.antt.
use private_agent_platform.Base.{
  ℕ, String, Bool, true, false, not, List, [], ◌∷◌, ◌++◌, map, Option, none, some, ◌≡◌, refl,
  filter, if◌then◌else◌, eqb, ◌==◌, arith,
}
use private_agent_platform.JsMap
use private_agent_platform.JsMap.{JsMap}
use private_agent_platform.Cache.{
  FileCache, Cache, initialised, load_files, get_cached_file_entries,
}
use private_agent_platform.Cache.Coherence.{
  IsCoherentCache, fresh_all, get_cached_file_entries-fresh,
}
use private_agent_platform.Streams.{Streams, event, new, add_client, broadcast}
use private_agent_platform.Streams.Laws.{clients_of}
use private_agent_platform.Streams.Delivery.{broadcast-delivers}
use private_agent_platform.Streams.Tidy.{IsTidy, add_client_dead}

-- Every file holds one entry, the time at which it was modified; a file of time 9 does not parse.
abbrev disk : String → ℕ → Option (List ℕ)
disk path mtime = if eqb mtime 9 then none else some (mtime ∷ [])

abbrev source : String → String
source path = "project"

abbrev parse_file : String → Option (List ℕ)
parse_file path = if path == "a" then disk path 5 else if path == "b" then disk path 7 else none

abbrev files : JsMap ℕ
files = ("a", 5) ∷ ("b", 7) ∷ ("bad", 9) ∷ []

abbrev file : ℕ → FileCache ℕ
file mtime = record { entries = mtime ∷ []; mtime = mtime; source_project = "project" }

-- An entry that is up to date, a stale one, and one whose file is gone.
abbrev cached : JsMap (FileCache ℕ)
cached = ("a", file 5) ∷ ("b", file 6) ∷ ("c", file 3) ∷ []

abbrev cache : Cache ℕ
cache = some (record { file_cache = cached; last_cache_time = 0 })

cache-IsCoherent : IsCoherentCache disk source cache
unfolding JsMap.get
cache-IsCoherent = λ path c h. ground arith

get_cached_file_entries-fresh_example :
    let (c', entries) = get_cached_file_entries parse_file source 1 files cache in
    (entries ≡ fresh_all disk source files)
    × IsCoherentCache disk source c'
    × (JsMap.get "c" (initialised 1 c').file_cache ≡ (
        if JsMap.has "c" files
        then JsMap.get "c" (load_files parse_file source files (initialised 1 cache).file_cache).0
        else none))
get_cached_file_entries-fresh_example =
    get_cached_file_entries-fresh disk source parse_file 1 files cache "c"
      (refl, (refl, (refl, tt))) cache-IsCoherent

abbrev is_dead : ℕ → Bool
is_dead r = eqb r 2

-- Client 1 is alive and client 2 dead on the stream t1; client 3 is alive on t2.
abbrev state : Streams String
state = record (new is_dead) {
  clients = ("t1", 1 ∷ 2 ∷ []) ∷ ("t2", 3 ∷ []) ∷ [];
  heartbeat = true;
}

state-IsTidy : IsTidy state
unfolding JsMap.get
state-IsTidy = record { distinct = (refl, (refl, tt)); busy = (refl, (refl, tt)); beating = refl }

broadcast-delivers_example :
    let s' = broadcast "t1" "hello" state in
    (s'.written
      ≡ state.written
        ++ map (λ r. (r, event "hello")) (filter (λ r. not (state.dead r)) (clients_of "t1" state)))
    × (clients_of "t1" s' ≡ filter (λ r. not (state.dead r)) (clients_of "t1" state))
broadcast-delivers_example = broadcast-delivers "t1" "t1" "hello" state

abbrev no_clients : Streams String
no_clients = new is_dead

no_clients-IsTidy : IsTidy no_clients
no_clients-IsTidy = record { distinct = tt; busy = tt; beating = refl }

add_client_dead_example :
    let (s', done) = add_client "t1" 2 no_clients in
    (done ≡ false)
    × (s'.clients ≡ ("t1", 2 ∷ []) ∷ [])
    × (s'.heartbeat ≡ false)
    × (s'.written ≡ no_clients.written)
    × (¬ IsTidy s')
add_client_dead_example = add_client_dead "t1" 2 no_clients refl refl no_clients-IsTidy
