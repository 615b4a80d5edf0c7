-- ===== src/Client/Events.antt =====
-- Which request the web client shows (useConversationMessages.ts).
use private_agent_platform.Base.{
  String, List, [], ◌∷◌, Option, none, some, ◌≡◌, refl, ◌∙◌, Option-cases, Bool-cases, inl, inr,
  any,
}
use private_agent_platform.Permissions.{PermissionRequest}
use private_agent_platform.Client.{
  Content, Event, connected, system_init, user_event, assistant_event, result, error_event, closed,
  permission_request, question_request, State, handle_user, handle_assistant, handle_stream_message,
  handle_all, given, is_result, blocks_of, add_child, add_message,
}

-- The request that is shown after the events, by the one that was shown before: the last that came, if
-- the stream was not closed since.
abbrev last_request : List Event → Option PermissionRequest → Option PermissionRequest
last_request [] shown = shown
last_request (permission_request r ∷ es) shown = last_request es (some r)
last_request (closed ∷ es) shown = last_request es none
last_request (connected ∷ es) shown = last_request es shown
last_request (system_init cwd ∷ es) shown = last_request es shown
last_request (user_event c p ∷ es) shown = last_request es shown
last_request (assistant_event c p ∷ es) shown = last_request es shown
last_request (result ∷ es) shown = last_request es shown
last_request (error_event m ∷ es) shown = last_request es shown
last_request (question_request r ∷ es) shown = last_request es shown

user_keeps :
    (c : Content) (p : Option String) (s : State)
    → (handle_user c p s).current_permission_request ≡ s.current_permission_request
unfolding handle_user add_child
user_keeps c p s = elim (Bool-cases (any is_result (blocks_of c))) [
  | inl e ↦ rw (e, handle_user)
  | inr e ↦ elim (Option-cases (given p)) [
    | inl absent ↦ rw (e, absent, handle_user)
    | inr (id, found) ↦ rw (e, found, handle_user)
  ]
]

assistant_keeps :
    (c : Content) (p : Option String) (s : State)
    → (handle_assistant c p s).current_permission_request ≡ s.current_permission_request
unfolding handle_assistant add_child add_message
assistant_keeps c p s = elim (Option-cases (given p)) [
  | inl absent ↦ rw (absent, handle_assistant)
  | inr (id, found) ↦ rw (found, handle_assistant)
]

-- The client shows one permission request: the last that came since the stream was closed. An earlier
-- one that is not answered yet is no longer shown.
pub handle_all-last :
    (es : List Event) (s : State)
    → (handle_all es s).current_permission_request ≡ last_request es s.current_permission_request
unfolding handle_all handle_stream_message add_message
handle_all-last [] s = refl
handle_all-last (permission_request r ∷ es) s = handle_all-last es _
handle_all-last (closed ∷ es) s = handle_all-last es _
handle_all-last (connected ∷ es) s = handle_all-last es _
handle_all-last (system_init cwd ∷ es) s = handle_all-last es _
handle_all-last (user_event c p ∷ es) s =
    handle_all-last es (handle_user c p s) ∙ rw (user_keeps c p s)
handle_all-last (assistant_event c p ∷ es) s =
    handle_all-last es (handle_assistant c p s) ∙ rw (assistant_keeps c p s)
handle_all-last (result ∷ es) s = handle_all-last es s
handle_all-last (error_event m ∷ es) s = handle_all-last es _
handle_all-last (question_request r ∷ es) s = handle_all-last es _
