-- ===== src/Tui/Input/Tests.antt =====
-- Runs of the input handler.
use aether_terminal.Prelude.{ℕ, ◌≡◌, refl, Bool, true, false, not, List, [], ◌∷◌, ◌++◌, map}
use aether_terminal.Tui.Input.{
  normal, no_action, cancel_input, execute_command, search_for, char, enter, backspace, is_empty,
  new_handler, handle_key,
}
use aether_terminal.Tui.Input.Typed.{
  handle_keys, typed, letters, silent, press, in_mode, handle_keys-typed,
}

abbrev kill : List (ℕ × Bool)
kill = (b'k', false) ∷ (b'i', false) ∷ (b'l', true) ∷ []

handle_keys-typed_example :
    (handle_keys
        (press (char b':') ∷ (map typed kill ++ press enter ∷ []))
        (in_mode normal (1 ∷ []) true)
      ≡ (no_action ∷ silent kill (execute_command (letters kill) ∷ []), in_mode normal [] true))
    × (handle_keys
          (press (char b'/') ∷ (map typed kill ++ press enter ∷ []))
          (in_mode normal (1 ∷ []) true)
        ≡ (
          no_action ∷ silent kill (search_for (letters kill) ∷ []),
          in_mode normal [] (not (is_empty (letters kill))),
        ))
handle_keys-typed_example = handle_keys-typed kill (1 ∷ []) true

erased :
    handle_keys (press (char b':') ∷ press (char b'q') ∷ press backspace ∷ []) new_handler
    ≡ (no_action ∷ no_action ∷ cancel_input ∷ [], new_handler)
unfolding handle_keys handle_key
erased = refl
