-- ===== src/Tui/Input.antt =====
-- `InputHandler` of `aether-render/src/tui/input.rs`. A character is its code point and a text the
-- list of its characters; of crossterm's key codes the ones that the source names are here, and the
-- others are numbered.
pub mod Typed
mod Tests
use aether_terminal.Prelude.{
  ℕ, ◌≡◌, Bool, true, false, not, ◌&&◌, if◌then◌else◌, List, [], ◌∷◌, ◌++◌, ◌==◌,
}

pub data InputMode : Type 0 where
  normal command search : InputMode

pub data Direction : Type 0 where
  left down up right : Direction

pub data Tab : Type 0 where
  overview world_3d network arbiter rules diagnostics : Tab

pub data InputAction : Type 0 where
  no_action quit cancel_input scroll_up scroll_down select deselect : InputAction
  enter_sort toggle_help next_match prev_match : InputAction
  switch_tab : Tab → InputAction
  navigate : Direction → InputAction
  execute_command search_for : List ℕ → InputAction

pub data KeyCode : Type 0 where
  char f other : ℕ → KeyCode
  enter esc backspace key_up key_down : KeyCode

-- A key and whether the control key is held.
pub record KeyEvent : Type 0 where
  pub code : KeyCode
  pub control : Bool

pub record InputHandler : Type 0 where
  pub mode : InputMode
  pub buffer : List ℕ
  pub has_search : Bool

abbrev pub new_handler : InputHandler
new_handler = record { mode = normal; buffer = []; has_search = false }

unfoldable pub is_empty : List ℕ → Bool
is_empty [] = true
is_empty (c ∷ text) = false

unfoldable pub pop : List ℕ → List ℕ
pop [] = []
pop (c ∷ []) = []
pop (c ∷ d ∷ text) = c ∷ pop (d ∷ text)

abbrev pub stay : InputAction → InputHandler → InputAction × InputHandler
stay action h = (action, h)

abbrev pub open_mode : InputMode → InputHandler → InputAction × InputHandler
open_mode mode h = (no_action, record h { mode = mode; buffer = [] })

-- The characters of Normal mode, in the order of the source.
unfoldable pub normal_char : ℕ → Bool → InputHandler → InputAction × InputHandler
normal_char c control h =
    if c == b'q'
    then stay quit h
    else if c == b'c' && control
    then stay quit h
    else if c == b'h'
    then stay (navigate left) h
    else if c == b'j'
    then stay (navigate down) h
    else if c == b'k'
    then stay (navigate up) h
    else if c == b'l'
    then stay (navigate right) h
    else if c == b's'
    then stay enter_sort h
    else if c == b':'
    then open_mode command h
    else if c == b'/'
    then open_mode search h
    else if c == b'?'
    then stay toggle_help h
    else if c == b'n' && h.has_search
    then stay next_match h
    else if c == b'N' && h.has_search
    then stay prev_match h
    else stay no_action h

unfoldable pub function_key : ℕ → InputAction
function_key n =
    if n == 1
    then switch_tab overview
    else if n == 2
    then switch_tab world_3d
    else if n == 3
    then switch_tab network
    else if n == 4
    then switch_tab arbiter
    else if n == 5
    then switch_tab rules
    else if n == 6
    then switch_tab diagnostics
    else no_action

unfoldable pub handle_normal : KeyCode → Bool → InputHandler → InputAction × InputHandler
unfolding normal_char function_key
handle_normal (char c) control h = normal_char c control h
handle_normal key_down control h = stay (navigate down) h
handle_normal key_up control h = stay (navigate up) h
handle_normal (f n) control h = stay (function_key n) h
handle_normal enter control h = stay select h
handle_normal esc control h = stay deselect h
handle_normal backspace control h = stay no_action h
handle_normal (other n) control h = stay no_action h

-- Backspace: the mode ends when the buffer is empty after it.
unfoldable pub erase : InputHandler → InputAction × InputHandler
unfolding pop is_empty
erase h =
    let shorter = pop h.buffer in
    if is_empty shorter
    then (cancel_input, record h { mode = normal; buffer = shorter })
    else (no_action, record h { buffer = shorter })

unfoldable pub handle_command : KeyCode → InputHandler → InputAction × InputHandler
unfolding erase
handle_command enter h = (execute_command h.buffer, record h { mode = normal; buffer = [] })
handle_command esc h = (cancel_input, record h { mode = normal; buffer = [] })
handle_command backspace h = erase h
handle_command (char c) h = (no_action, record h { buffer = h.buffer ++ c ∷ [] })
handle_command key_up h = stay no_action h
handle_command key_down h = stay no_action h
handle_command (f n) h = stay no_action h
handle_command (other n) h = stay no_action h

unfoldable pub handle_search : KeyCode → InputHandler → InputAction × InputHandler
unfolding erase is_empty
handle_search enter h = (
  search_for h.buffer,
  record { mode = normal; buffer = []; has_search = not (is_empty h.buffer) },
)
handle_search esc h = (cancel_input, record h { mode = normal; buffer = [] })
handle_search backspace h = erase h
handle_search (char c) h = (no_action, record h { buffer = h.buffer ++ c ∷ [] })
handle_search key_up h = stay no_action h
handle_search key_down h = stay no_action h
handle_search (f n) h = stay no_action h
handle_search (other n) h = stay no_action h

unfoldable pub handle_in : InputMode → KeyEvent → InputHandler → InputAction × InputHandler
unfolding handle_normal handle_command handle_search
handle_in normal key h = handle_normal key.code key.control h
handle_in command key h = handle_command key.code h
handle_in search key h = handle_search key.code h

unfoldable pub handle_key : KeyEvent → InputHandler → InputAction × InputHandler
unfolding handle_in
handle_key key h = handle_in h.mode key h
