-- ===== src/Frontend/Keyboard.antt =====
-- src/frontend/sdl/main.c: the queue of typed bytes, `kbd`, and the bytes that the keys give. The key
-- codes are those of SDL, which the model takes as an argument.
pub mod Queue
use emulator_pdp.Prelude.{
  ℕ, ◌+◌, ◌-◌, ◌%◌, leb, ◌==◌, ◌&&◌, ◌||◌, not, if◌then◌else◌, u8, update, Bool, Option, none, some,
  List, [], ◌∷◌,
}

abbrev pub kbd_size : ℕ
kbd_size = 256

pub record Kbd : Type 0 where
  pub buf : ℕ → ℕ
  pub head : ℕ
  pub tail : ℕ

-- `KBD_PUSH`.
unfoldable pub kbd_push : ℕ → Kbd → Kbd
kbd_push byte k =
    let n = (k.tail + 1) % kbd_size in
    if not (n == k.head) then record k { buf = update k.buf k.tail (u8 byte); tail = n } else k

-- The byte to be handed over next, and the queue without it.
unfoldable pub kbd_pop : Kbd → Option (ℕ × Kbd)
kbd_pop k =
    if k.head == k.tail
    then none
    else some (k.buf k.head, record k { head = (k.head + 1) % kbd_size })

-- The constants of SDL that the code names.
pub record Keycodes : Type 0 where
  pub sdlk_return : ℕ
  pub sdlk_kp_enter : ℕ
  pub sdlk_backspace : ℕ
  pub sdlk_delete : ℕ
  pub sdlk_tab : ℕ
  pub sdlk_escape : ℕ

-- `none` for -1.
unfoldable pub key_to_byte : Keycodes → ℕ → Option ℕ
key_to_byte k key =
    if key == k.sdlk_return || key == k.sdlk_kp_enter
    then some 0o15
    else if key == k.sdlk_backspace
    then some b'#'
    else if key == k.sdlk_delete
    then some 0o177
    else if key == k.sdlk_tab
    then some 0o11
    else if key == k.sdlk_escape
    then some 0o33
    else none

-- `SDL_EVENT_KEY_DOWN`, with whether the control key is held.
unfoldable pub key_down : Keycodes → Bool → ℕ → Kbd → Kbd
unfolding kbd_push key_to_byte
key_down k ctrl key q =
    if ctrl && (leb b'a' key && leb key b'z')
    then kbd_push (key + 1 - b'a') q
    else elim (key_to_byte k key) [ some b ↦ kbd_push b q | none ↦ q ]

-- `SDL_EVENT_TEXT_INPUT`.
unfoldable pub text_input : List ℕ → Kbd → Kbd
unfolding kbd_push
text_input [] q = q
text_input (b ∷ bs) q = text_input bs (kbd_push b q)
