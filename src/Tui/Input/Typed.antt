-- ===== src/Tui/Input/Typed.antt =====
-- A text that is typed is the text that is executed or searched for.
use aether_terminal.Prelude.{
  ℕ, ◌≡◌, refl, ap, ◌∙◌, Bool, false, not, List, [], ◌∷◌, ◌++◌, append_assoc, append-nil, map,
}
use aether_terminal.Tui.Input.{
  InputMode, normal, command, search, InputAction, no_action, execute_command, search_for, KeyCode,
  char, enter, KeyEvent, InputHandler, is_empty, handle_key, handle_in, handle_normal, normal_char,
  handle_command, handle_search,
}

-- The actions of a sequence of keys, and the handler after them.
unfoldable pub handle_keys : List KeyEvent → InputHandler → List InputAction × InputHandler
handle_keys [] h = ([], h)
handle_keys (key ∷ keys) h =
    let (action, h') = handle_key key h in
    let (actions, last) = handle_keys keys h' in (action ∷ actions, last)

-- A character typed with or without the control key.
abbrev pub typed : ℕ × Bool → KeyEvent
typed (c, control) = record { code = char c; control = control }

abbrev pub letters : List (ℕ × Bool) → List ℕ
letters [] = []
letters ((c, control) ∷ text) = c ∷ letters text

abbrev pub silent : List (ℕ × Bool) → List InputAction → List InputAction
silent [] actions = actions
silent (c ∷ text) actions = no_action ∷ silent text actions

abbrev pub press : KeyCode → KeyEvent
press code = record { code = code; control = false }

abbrev pub in_mode : InputMode → List ℕ → Bool → InputHandler
in_mode mode buffer has_search = record { mode = mode; buffer = buffer; has_search = has_search }

-- The actions and the handler when a command, or a search, of these characters ends.
abbrev pub ended : List (ℕ × Bool) → Bool → List ℕ → List InputAction × InputHandler
ended text b command_text = (silent text (execute_command command_text ∷ []), in_mode normal [] b)

abbrev pub found : List (ℕ × Bool) → List ℕ → List InputAction × InputHandler
found text query = (silent text (search_for query ∷ []), in_mode normal [] (not (is_empty query)))

typed_command :
    (text : List (ℕ × Bool)) (buffer : List ℕ) (b : Bool)
    → handle_keys (map typed text ++ press enter ∷ []) (in_mode command buffer b)
      ≡ ended text b (buffer ++ letters text)
unfolding handle_keys handle_key handle_in handle_command
typed_command [] buffer b = rw (append-nil buffer) refl
typed_command ((c, control) ∷ text) buffer b =
    ap (λ r. (no_action ∷ r.0, r.1)) (typed_command text (buffer ++ c ∷ []) b)
    ∙ ap (ended ((c, control) ∷ text) b) (append_assoc buffer (c ∷ []) (letters text))

typed_search :
    (text : List (ℕ × Bool)) (buffer : List ℕ) (b : Bool)
    → handle_keys (map typed text ++ press enter ∷ []) (in_mode search buffer b)
      ≡ found text (buffer ++ letters text)
unfolding handle_keys handle_key handle_in handle_search
typed_search [] buffer b = rw (append-nil buffer) refl
typed_search ((c, control) ∷ text) buffer b =
    ap (λ r. (no_action ∷ r.0, r.1)) (typed_search text (buffer ++ c ∷ []) b)
    ∙ ap (found ((c, control) ∷ text)) (append_assoc buffer (c ∷ []) (letters text))

-- From Normal mode, whatever is left in the buffer, `:`, any characters and Enter give one action,
-- the command of exactly these characters, and `/`, any characters and Enter the search for them;
-- the handler is then in Normal mode with an empty buffer, and knows of a search exactly when the
-- text searched for was not empty.
pub handle_keys-typed :
    (text : List (ℕ × Bool)) (buffer : List ℕ) (b : Bool)
    → (handle_keys
          (press (char b':') ∷ (map typed text ++ press enter ∷ []))
          (in_mode normal buffer b)
        ≡ (no_action ∷ silent text (execute_command (letters text) ∷ []), in_mode normal [] b))
      × (handle_keys
            (press (char b'/') ∷ (map typed text ++ press enter ∷ []))
            (in_mode normal buffer b)
          ≡ (
            no_action ∷ silent text (search_for (letters text) ∷ []),
            in_mode normal [] (not (is_empty (letters text))),
          ))
unfolding handle_keys handle_key handle_in handle_normal normal_char
handle_keys-typed text buffer b = (
  ap (λ r. (no_action ∷ r.0, r.1)) (typed_command text [] b),
  ap (λ r. (no_action ∷ r.0, r.1)) (typed_search text [] b),
)
