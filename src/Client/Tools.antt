-- ===== src/Client/Tools.antt =====
-- What the web client shows of each tool use (useConversationMessages.ts).
use private_agent_platform.Base.{
  String, Bool, true, false, not, ◌&&◌, ◌||◌, List, [], ◌∷◌, Option, none, some, ◌==◌,
  if◌then◌else◌, is_truthy, is_some, any, ◌≡◌, refl, sym, ◌∙◌, ap, Option-cases, Bool-cases, inl,
  inr, arith, eq_iff, eq_refl,
}
use private_agent_platform.JsMap
use private_agent_platform.JsMap.{JsMap}
use private_agent_platform.JsMap.Laws.{get-set}
use private_agent_platform.Client.{
  Block, tool_use, tool_result, other_block, Content, text, blocks, Event, connected, system_init,
  user_event, assistant_event, result, error_event, closed, permission_request, question_request,
  State, ToolResult, pending, completed, result_content, cleared, track_uses, track_results,
  handle_user, handle_assistant, handle_stream_message, handle_all, given, is_result, blocks_of,
  as_blocks, add_child, add_message,
}

abbrev pub or_else : Option ToolResult → Option ToolResult → Option ToolResult
or_else none o = o
or_else (some r) o = some r

-- The last result of the tool among the blocks.
abbrev last_in : String → List Block → Option ToolResult
last_in id [] = none
last_in id (tool_result i c e ∷ bs) =
    or_else (last_in id bs) (if i == id then some (completed (result_content c) e) else none)
last_in id (tool_use i ∷ bs) = last_in id bs
last_in id (other_block j ∷ bs) = last_in id bs

abbrev pub used_in : String → List Block → Bool
used_in id [] = false
used_in id (tool_use i ∷ bs) = (i == id) || used_in id bs
used_in id (tool_result i c e ∷ bs) = used_in id bs
used_in id (other_block j ∷ bs) = used_in id bs

abbrev pub pending_if : Bool → Option ToolResult
pending_if b = if b then some pending else none

-- The last result of the tool among the events, and whether a message of the main conversation used
-- it.
abbrev pub last_result : String → List Event → Option ToolResult
last_result id [] = none
last_result id (user_event c p ∷ es) = or_else (last_result id es) (last_in id (blocks_of c))
last_result id (assistant_event c p ∷ es) = last_result id es
last_result id (connected ∷ es) = last_result id es
last_result id (system_init cwd ∷ es) = last_result id es
last_result id (result ∷ es) = last_result id es
last_result id (error_event m ∷ es) = last_result id es
last_result id (closed ∷ es) = last_result id es
last_result id (permission_request r ∷ es) = last_result id es
last_result id (question_request r ∷ es) = last_result id es

abbrev pub uses : String → Event → Bool
uses id (assistant_event c p) = not (is_some (given p)) && used_in id (blocks_of c)
uses id _ = false

-- What the events make of what was known of the tool.
abbrev after : String → List Event → Option ToolResult → Option ToolResult
after id es old = or_else (last_result id es) (or_else old (pending_if (any (uses id) es)))

or_else_assoc : (a b c : Option ToolResult) → or_else (or_else a b) c ≡ or_else a (or_else b c)
or_else_assoc none b c = refl
or_else_assoc (some r) b c = refl

pending_twice : (a b : Bool) → or_else (pending_if a) (pending_if b) ≡ pending_if (a || b)
pending_twice a b = ground arith

track_results-get :
    (id : String) (bs : List Block) (m : JsMap ToolResult)
    → JsMap.get id (track_results bs m) ≡ or_else (last_in id bs) (JsMap.get id m)
unfolding track_results
track_results-get id [] m = refl
track_results-get id (tool_use i ∷ bs) m = track_results-get id bs m
track_results-get id (other_block j ∷ bs) m = track_results-get id bs m
track_results-get id (tool_result i c e ∷ bs) m =
    track_results-get id bs (JsMap.set i (completed (result_content c) e) m)
    ∙ rw
        (or_else_assoc (last_in id bs)
          (if i == id then some (completed (result_content c) e) else none) (JsMap.get id m))
        (ap (or_else (last_in id bs))
          (get-set i id (completed (result_content c) e) m ∙ ground arith))

or_none : (o : Option ToolResult) → o ≡ or_else o none
or_none none = refl
or_none (some r) = refl

-- One tool use.
use_step :
    (id i : String) (m : JsMap ToolResult)
    → is_truthy id ≡ true
    → JsMap.get id (if is_truthy i && not (JsMap.has i m) then JsMap.set i pending m else m)
      ≡ or_else (JsMap.get id m) (pending_if (i == id))
use_step id i m h = elim (Bool-cases (i == id)) [
  | inl same ↦
      rw ((eq_iff i id).0 same, h, eq_refl id)
        (elim (Option-cases (JsMap.get id m)) [
          | inl e ↦ rw e (get-set id id pending m ∙ rw (eq_refl id))
          | inr (r, e) ↦ rw (e, e)
        ])
  | inr other ↦ elim (Bool-cases (is_truthy i && not (JsMap.has i m))) [
    | inl t ↦ rw (other, t) (get-set i id pending m ∙ rw other (or_none (JsMap.get id m)))
    | inr f ↦ rw (other, f) (or_none (JsMap.get id m))
  ]
]

track_uses-get :
    (id : String) (bs : List Block) (m : JsMap ToolResult)
    → is_truthy id ≡ true
    → JsMap.get id (track_uses bs m) ≡ or_else (JsMap.get id m) (pending_if (used_in id bs))
unfolding track_uses
track_uses-get id [] m h = or_none (JsMap.get id m)
track_uses-get id (tool_result i c e ∷ bs) m h = track_uses-get id bs m h
track_uses-get id (other_block j ∷ bs) m h = track_uses-get id bs m h
track_uses-get id (tool_use i ∷ bs) m h =
    track_uses-get id bs _ h
    ∙ rw (
      use_step id i m h,
      or_else_assoc (JsMap.get id m) (pending_if (i == id)) (pending_if (used_in id bs)),
      pending_twice (i == id) (used_in id bs),
    )

no_result : (id : String) (bs : List Block) → any is_result bs ≡ false → last_in id bs ≡ none
no_result id [] h = refl
no_result id (tool_result i c e ∷ bs) h = cc
no_result id (tool_use i ∷ bs) h = no_result id bs h
no_result id (other_block j ∷ bs) h = no_result id bs h

same_uses :
    (id : String) (c : Content) → used_in id (blocks_of (as_blocks c)) ≡ used_in id (blocks_of c)
same_uses id (text t) = refl
same_uses id (blocks bs) = refl

user-get :
    (id : String) (c : Content) (p : Option String) (s : State)
    → JsMap.get id (handle_user c p s).tool_results
      ≡ or_else (last_in id (blocks_of c)) (JsMap.get id s.tool_results)
unfolding handle_user add_child
user-get id c p s = elim (Bool-cases (any is_result (blocks_of c))) [
  | inl e ↦ rw (e, handle_user) (track_results-get id (blocks_of c) s.tool_results)
  | inr e ↦ rw (no_result id (blocks_of c) e) (elim (Option-cases (given p)) [
    | inl absent ↦ rw (e, absent, handle_user)
    | inr (i, found) ↦ rw (e, found, handle_user)
  ])
]

assistant-get :
    (id : String) (c : Content) (p : Option String) (s : State)
    → is_truthy id ≡ true
    → JsMap.get id (handle_assistant c p s).tool_results
      ≡ or_else (JsMap.get id s.tool_results) (pending_if (uses id (assistant_event c p)))
unfolding handle_assistant add_child add_message
assistant-get id c p s h = elim (Option-cases (given p)) [
  | inl absent ↦
      rw (absent, handle_assistant)
        (track_uses-get id (blocks_of (as_blocks c)) s.tool_results h
          ∙ ap (λ b. or_else (JsMap.get id s.tool_results) (pending_if b)) (same_uses id c))
  | inr (i, found) ↦ rw (found, handle_assistant) (or_none (JsMap.get id s.tool_results))
]

handled-after :
    (id : String) (es : List Event) (s : State)
    → is_truthy id ≡ true
    → JsMap.get id (handle_all es s).tool_results ≡ after id es (JsMap.get id s.tool_results)
unfolding handle_all handle_stream_message add_message track_uses
handled-after id [] s h = or_none (JsMap.get id s.tool_results)
handled-after id (user_event c p ∷ es) s h =
    handled-after id es (handle_user c p s) h
    ∙ rw (user-get id c p s) (
        ap (or_else (last_result id es)) (
          or_else_assoc (last_in id (blocks_of c)) (JsMap.get id s.tool_results)
            (pending_if (any (uses id) es)))
        ∙ sym (
            or_else_assoc (last_result id es) (last_in id (blocks_of c))
              (or_else (JsMap.get id s.tool_results) (pending_if (any (uses id) es)))))
handled-after id (assistant_event c p ∷ es) s h =
    handled-after id es (handle_assistant c p s) h
    ∙ rw (assistant-get id c p s h) (
        ap (or_else (last_result id es)) (
          or_else_assoc (JsMap.get id s.tool_results) (pending_if (uses id (assistant_event c p)))
            (pending_if (any (uses id) es))
          ∙ ap (or_else (JsMap.get id s.tool_results))
              (pending_twice (uses id (assistant_event c p)) (any (uses id) es))))
handled-after id (connected ∷ es) s h = handled-after id es s h
handled-after id (system_init cwd ∷ es) s h = handled-after id es _ h
handled-after id (result ∷ es) s h = handled-after id es s h
handled-after id (error_event m ∷ es) s h = handled-after id es _ h
handled-after id (closed ∷ es) s h = handled-after id es _ h
handled-after id (permission_request r ∷ es) s h = handled-after id es _ h
handled-after id (question_request r ∷ es) s h = handled-after id es _ h

-- From the cleared state, whatever events come, a tool use has the last result that came for it; without
-- one it is pending if a message of the main conversation used it, and unknown otherwise.
pub handle_all-tool_results :
    (es : List Event) (id : String)
    → is_truthy id ≡ true
    → JsMap.get id (handle_all es cleared).tool_results
      ≡ or_else (last_result id es) (pending_if (any (uses id) es))
unfolding JsMap.get
handle_all-tool_results es id h = handled-after id es cleared h
