-- ===== src/Permissions/Decisions.antt =====
-- Lemmas on permission decisions (permission.routes.ts over permission-tracker.ts).
use private_agent_platform.Base.{
  String, Bool, true, false, Option, none, some, ◌==◌, ◌≡◌, refl, sym, ◌∙◌, if◌then◌else◌, eq_refl,
  arith, filter-always, find?, Option-cases, inl, inr, Bool-cases, ap,
}
use private_agent_platform.JsMap
use private_agent_platform.JsMap.Index.{
  keep, IsIndexed, get-IsIndexed, set-IsIndexed, find-filter-values,
}
use private_agent_platform.JsMap.Laws.{get-set, IsDistinct, set-IsDistinct}
use private_agent_platform.Types.{Json}
use private_agent_platform.Permissions.{
  PermissionRequest, pending, Decision, approve, deny, Tracker, decided, decide, status_eq,
  get_permission_requests, update_permission_status, get_permission_request,
}
use private_agent_platform.Permissions.Routes.{
  Reply, json, fail, parse_action, message, decide_request, decision,
}

-- Every request stands under its own id, and no id stands twice.
pub record IsTracked (m : Tracker) : Type 0 where
  pub indexed : IsIndexed (λ r. r.id) m
  pub distinct : IsDistinct m

abbrev pub is_pending : PermissionRequest → Bool
is_pending r = status_eq r.status pending

-- The handler's search finds the request with the id, if it is pending.
find_pending :
    (id : String) (m : Tracker)
    → IsTracked m
    → find? (λ p. p.id == id) (get_permission_requests none (some pending) m)
      ≡ keep is_pending (JsMap.get id m)
unfolding get_permission_requests
find_pending id m v =
    rw (filter-always (JsMap.values m))
      (find-filter-values (λ r. r.id) is_pending id m v.indexed v.distinct)

-- The outcome of a decision, by the action that was read and the pending request that was found.
abbrev pub outcome :
    String
    → Option Json
    → Option String
    → Tracker
    → Option Decision
    → Option PermissionRequest
    → Tracker × Reply String
outcome id input reason m none found = (m, fail "INVALID_ACTION" 400)
outcome id input reason m (some a) none = (m, fail "PERMISSION_NOT_FOUND" 404)
outcome id input reason m (some a) (some r) =
    (JsMap.set id (decide a input reason r) m, json (message a))

decide_request-outcome :
    (id : String) (a : Decision) (input : Option Json) (reason : Option String) (m : Tracker)
    → IsTracked m
    → decide_request id a input reason m
      ≡ outcome id input reason m (some a) (keep is_pending (JsMap.get id m))
unfolding decide_request update_permission_status
decide_request-outcome id approve input reason m v = ground (arith, find_pending id m v)
decide_request-outcome id deny input reason m v = ground (arith, find_pending id m v)

-- On a tracked map the decision endpoint answers 400 for an action that is not allowed and 404 for
-- an id that is unknown or no longer pending, in both cases with the map unchanged; otherwise it
-- writes the decision into that one request and succeeds. It never answers 500.
pub decision-outcome :
    (id : String) (action : Option String) (input : Option Json) (reason : Option String)
    (m : Tracker)
    → IsTracked m
    → decision id action input reason m
      ≡ outcome id input reason m (parse_action action) (keep is_pending (JsMap.get id m))
unfolding decision
decision-outcome id action input reason m v = elim (Option-cases (parse_action action)) [
  | inl e ↦ rw (e, decision)
  | inr (a, e) ↦ rw (e, decision) (decide_request-outcome id a input reason m v)
]

decide_fields :
    (a : Decision) (input : Option Json) (reason : Option String) (r : PermissionRequest)
    → ((decide a input reason r).id ≡ r.id)
      × ((decide a input reason r).streaming_id ≡ r.streaming_id)
      × ((decide a input reason r).tool_name ≡ r.tool_name)
      × ((decide a input reason r).tool_input ≡ r.tool_input)
      × ((decide a input reason r).status ≡ decided a)
unfolding decide
decide_fields approve none reason r = (refl, refl, refl, refl, refl)
decide_fields approve (some x) reason r = ground arith
decide_fields deny input none r = (refl, refl, refl, refl, refl)
decide_fields deny input (some x) r = ground arith

-- A decision keeps the map tracked.
pub decision-IsTracked :
    (id : String) (action : Option String) (input : Option Json) (reason : Option String)
    (m : Tracker)
    → IsTracked m
    → IsTracked (decision id action input reason m).0
decision-IsTracked id action input reason m v =
    rw (decision-outcome id action input reason m v)
      (cases (parse_action action) (JsMap.get id m) refl)
  where
    cases :
        (a : Option Decision) (found : Option PermissionRequest)
        → JsMap.get id m ≡ found
        → IsTracked (outcome id input reason m a (keep is_pending found)).0
    cases none found e = v
    cases (some a) none e = v
    cases (some a) (some r) e = elim (Bool-cases (is_pending r)) [
      | inr off ↦ rw off v
      | inl on ↦ rw on (record {
        indexed =
            set-IsIndexed (λ q. q.id) id _ m
              ((decide_fields a input reason r).0 ∙ get-IsIndexed (λ q. q.id) id r m v.indexed e)
              v.indexed;
        distinct = set-IsDistinct id _ m v.distinct;
      })
    ]

-- An update of a present request changes its status and keeps its id, its stream, its tool and the
-- tool's input; every other request is as before.
pub update_permission_status-get :
    (id j : String) (a : Decision) (input : Option Json) (reason : Option String)
    (r : PermissionRequest) (m : Tracker)
    → JsMap.get id m ≡ some r
    → let (m', updated, event) = update_permission_status id a input reason m in
      (updated ≡ true)
      × (get_permission_request j m'
          ≡ (if id == j then some (decide a input reason r) else get_permission_request j m))
      × ((decide a input reason r).id ≡ r.id)
      × ((decide a input reason r).streaming_id ≡ r.streaming_id)
      × ((decide a input reason r).tool_name ≡ r.tool_name)
      × ((decide a input reason r).tool_input ≡ r.tool_input)
      × ((decide a input reason r).status ≡ decided a)
unfolding update_permission_status get_permission_request
update_permission_status-get id j a input reason r m e =
    let f = decide_fields a input reason r in
    (
      rw (e, update_permission_status),
      rw (e, update_permission_status) (get-set id j _ m),
      f.0,
      f.1,
      f.2,
      f.3,
      f.4,
    )

not_pending : (a : Decision) → status_eq (decided a) pending ≡ false
not_pending approve = refl
not_pending deny = refl

decided_again :
    (id : String) (a : Option Decision) (input : Option Json) (reason : Option String) (m : Tracker)
    (msg : String) (m' : Tracker) (found : Option PermissionRequest)
    → outcome id input reason m a (keep is_pending found) ≡ (m', json msg)
    → keep is_pending (JsMap.get id m') ≡ none
decided_again id none input reason m msg m' found e = cc
decided_again id (some a) input reason m msg m' none e = cc
decided_again id (some a) input reason m msg m' (some r) e = ground (
  arith,
  get-set id id (decide a input reason r) m,
  eq_refl id,
  (decide_fields a input reason r).4,
  not_pending a,
)

-- A request is decided at most once: after a decision that succeeded, a further decision with an
-- allowed action on the same id answers 404 and changes nothing.
pub decision_once :
    (id : String) (action action' : Option String) (input input' : Option Json)
    (reason reason' : Option String) (m m' : Tracker) (msg : String) (a : Decision)
    → IsTracked m
    → decision id action input reason m ≡ (m', json msg)
    → parse_action action' ≡ some a
    → decision id action' input' reason' m' ≡ (m', fail "PERMISSION_NOT_FOUND" 404)
decision_once id action action' input input' reason reason' m m' msg a v e p =
    let o = decision-outcome id action input reason m v in
    let v' : IsTracked m' =
      rw (ap (λ x. x.0) e) at (decision-IsTracked id action input reason m v) in
    decision-outcome id action' input' reason' m' v'
    ∙ rw (
      p,
      decided_again id (parse_action action) input reason m msg m' (JsMap.get id m) (sym o ∙ e),
    )
