-- ===== src/Permissions/Cleanup.antt =====
-- Lemmas on adding requests and removing those of a stream (permission-tracker.ts).
use private_agent_platform.Base.{
  ◌+◌, String, Bool, not, Option, some, ◌==◌, ◌≡◌, refl, if◌then◌else◌,
}
use private_agent_platform.JsMap.Index.{
  keep, set-IsIndexed, filter-IsIndexed, filter-IsDistinct, get-filter, delete_all,
  delete_all-matching, matching-filter, length-matching,
}
use private_agent_platform.JsMap.Laws.{get-set, set-IsDistinct}
use private_agent_platform.Status.{Status}
use private_agent_platform.Types.{Json}
use private_agent_platform.Permissions
use private_agent_platform.Permissions.{
  PermissionRequest, pending, Tracker, Event, permission_request, Notice, new_request, notice,
  add_permission_request, get_permission_request, remove_permissions_by_streaming_id,
}
use private_agent_platform.Permissions.Decisions.{IsTracked}

-- A new request is stored as pending under its id, is the one that the event carries, and leaves
-- every other request as it was; the map stays tracked.
pub add_permission_request-get :
    (id j now : String) (ready : Bool) (status : Status) (tool : String) (input : Json)
    (streaming : Option String) (m : Tracker)
    → IsTracked m
    → let (m', r, event, sent) =
        add_permission_request id now ready status tool input streaming m in
      IsTracked m'
      × (get_permission_request j m' ≡ (if id == j then some r else get_permission_request j m))
      × (r.id ≡ id)
      × (r.status ≡ pending)
      × (event ≡ permission_request r)
unfolding add_permission_request get_permission_request
add_permission_request-get id j now ready status tool input streaming m v = (
  record {
    indexed = set-IsIndexed (λ q. q.id) id _ m refl v.indexed;
    distinct = set-IsDistinct id _ m v.distinct;
  },
  get-set id j _ m,
  refl,
  refl,
  refl,
)

-- When a stream ends, exactly the requests of that stream go, the count that is returned is the
-- number of requests that went, and the map stays tracked.
pub remove_permissions-get :
    (streaming j : String) (m : Tracker)
    → IsTracked m
    → let (m', removed) = remove_permissions_by_streaming_id streaming m in
      IsTracked m'
      × (get_permission_request j m'
          ≡ keep (λ r. not (r.streaming_id == streaming)) (get_permission_request j m))
      × (removed + Permissions.size m' ≡ Permissions.size m)
unfolding remove_permissions_by_streaming_id get_permission_request Permissions.size
remove_permissions-get streaming j m v =
    rw (delete_all-matching (λ r. r.streaming_id == streaming) m v.distinct) (
      record {
        indexed = filter-IsIndexed (λ q. q.id) _ m v.indexed;
        distinct = filter-IsDistinct _ m v.distinct;
      },
      get-filter _ j m v.distinct,
      length-matching (λ r. r.streaming_id == streaming) m,
    )

-- To remove a stream's requests twice is to remove them once.
pub remove_permissions_again :
    (streaming : String) (m : Tracker)
    → IsTracked m
    → let m' = (remove_permissions_by_streaming_id streaming m).0 in
      (remove_permissions_by_streaming_id streaming m').0 ≡ m'
unfolding remove_permissions_by_streaming_id delete_all
remove_permissions_again streaming m v = rw (
  delete_all-matching (λ r. r.streaming_id == streaming) m v.distinct,
  matching-filter (λ r. r.streaming_id == streaming) m,
)
