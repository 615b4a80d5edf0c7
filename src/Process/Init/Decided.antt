-- ===== src/Process/Init/Decided.antt =====
-- Lemmas on what decides the wait for the first message of claude-process-manager.ts.
use private_agent_platform.Base.{
  String, Bool, true, false, not, List, [], ◌∷◌, ◌++◌, Option, none, some, if◌then◌else◌, ◌≡◌, refl,
  ◌∙◌, ap, find?, Bool-cases, inl, inr,
}
use mathlib.Core.List.{append_assoc, append-nil}
use private_agent_platform.Process.Init.{
  is_hook_message, check_message, Outcome, rejected, Waiter, waiting, settled, InitEvent, message,
  stderr, closed, timed_out, listen, listen_all, wait_for_system_init,
}

-- An event that the wait outlives: a hook's message, or text on stderr.
abbrev pub is_noise : InitEvent → Bool
is_noise (message m) = is_hook_message m
is_noise (stderr text) = true
is_noise closed = false
is_noise timed_out = false

-- The texts that come before the first event that is no noise.
abbrev pub texts_before : List InitEvent → List String
texts_before [] = []
texts_before (stderr text ∷ es) = text ∷ texts_before es
texts_before (message m ∷ es) = if is_hook_message m then texts_before es else []
texts_before (closed ∷ es) = []
texts_before (timed_out ∷ es) = []

-- How an event that is no noise decides.
abbrev verdict : InitEvent → List String → Outcome
verdict (message m) errors = check_message m errors
verdict (stderr text) errors = rejected "" errors
verdict closed errors = rejected "CLAUDE_PROCESS_EXITED_EARLY" errors
verdict timed_out errors = rejected "SYSTEM_INIT_TIMEOUT" errors

abbrev pub decided_by : Option InitEvent → List String → Waiter
decided_by none errors = waiting errors
decided_by (some e) errors = settled (verdict e errors)

settled_stays : (es : List InitEvent) (o : Outcome) → listen_all es (settled o) ≡ settled o
unfolding listen_all listen
settled_stays [] o = refl
settled_stays (e ∷ es) o = settled_stays es o

listen_all-decided :
    (es : List InitEvent) (errors : List String)
    → listen_all es (waiting errors)
      ≡ decided_by (find? (λ e. not (is_noise e)) es) (errors ++ texts_before es)
unfolding listen_all listen
listen_all-decided [] errors = rw (append-nil errors)
listen_all-decided (stderr text ∷ es) errors =
    listen_all-decided es (errors ++ (text ∷ []))
    ∙ ap (decided_by (find? (λ e. not (is_noise e)) es))
        (append_assoc errors (text ∷ []) (texts_before es))
listen_all-decided (closed ∷ es) errors = rw (append-nil errors) (settled_stays es _)
listen_all-decided (timed_out ∷ es) errors = rw (append-nil errors) (settled_stays es _)
listen_all-decided (message m ∷ es) errors = elim (Bool-cases (is_hook_message m)) [
  | inl hook ↦ rw hook (listen_all-decided es errors)
  | inr other ↦ rw (other, append-nil errors) (settled_stays es _)
]

-- The wait is decided by the first event that is neither a hook's message nor text on stderr: a
-- message by its check, the end of the process and the timer by their errors, each with the texts of
-- stderr before it. It waits just as long as there was no such event, and later events change
-- nothing.
pub wait_for_system_init-decided :
    (es : List InitEvent)
    → wait_for_system_init es ≡ decided_by (find? (λ e. not (is_noise e)) es) (texts_before es)
unfolding wait_for_system_init
wait_for_system_init-decided es = listen_all-decided es []
