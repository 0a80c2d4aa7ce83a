-- ===== src/TextEditing.antt =====
-- src/app/text_editing.rs: what a key does in a text input, before the toolkit's editor sees it. A key's
-- text is the list of its characters.
pub mod Keys
pub mod Taken
pub mod Decisions
use ax_ssh.Prelude.{
  ℕ, ◌+◌, Bool, true, false, not, ◌&&◌, ◌||◌, Option, none, some, List, [], ◌∷◌, ◌==◌, leb,
  if◌then◌else◌,
}
use ax_ssh.Prelude.Bytes.{Text}

pub record EditPolicy : Type 0 where
  pub apple_platform : Bool
  pub secret : Bool
  pub read_only : Bool
  pub single_line : Bool
  pub composing : Bool

pub record Modifiers : Type 0 where
  pub alt : Bool
  pub control : Bool
  pub shift : Bool
  pub meta : Bool

pub data EditAction : Type 0 where
  paragraph_start paragraph_end backward forward delete_backward delete_forward previous_line
        next_line :
      EditAction

pub data EditDecision : Type 0 where
  native block : EditDecision
  -- Whether the selection is extended.
  apply : EditAction → Bool → EditDecision

-- `is_ascii_alphabetic`, and `to_ascii_lowercase` of such a character.
abbrev pub is_upper : ℕ → Bool
is_upper c = leb 65 c && leb c 90

abbrev pub is_lower : ℕ → Bool
is_lower c = leb 97 c && leb c 122

-- The letters a, b, c, d, e, f, h, n and x, for the control characters that stand for them.
unfoldable pub control_letter : ℕ → Option ℕ
control_letter c =
    if c == 1
    then some 97
    else if c == 2
    then some 98
    else if c == 3
    then some 99
    else if c == 4
    then some 100
    else if c == 5
    then some 101
    else if c == 6
    then some 102
    else if c == 8
    then some 104
    else if c == 14
    then some 110
    else if c == 24
    then some 120
    else none

unfoldable pub command_character : Text → Option ℕ
unfolding control_letter
command_character [] = none
command_character (c ∷ []) =
    if is_upper c then some (c + 32) else if is_lower c then some c else control_letter c
command_character (c ∷ d ∷ t) = none

abbrev pub is_key : Option ℕ → ℕ → Bool
is_key none c = false
is_key (some k) c = k == c

-- What the keys a, e, b, f, h, d, p and n ask for.
unfoldable pub action_of : Option ℕ → Option EditAction
action_of none = none
action_of (some k) =
    if k == 97
    then some paragraph_start
    else if k == 101
    then some paragraph_end
    else if k == 98
    then some backward
    else if k == 102
    then some forward
    else if k == 104
    then some delete_backward
    else if k == 100
    then some delete_forward
    else if k == 112
    then some previous_line
    else if k == 110
    then some next_line
    else none

abbrev pub deletes : EditAction → Bool
deletes paragraph_start = false
deletes paragraph_end = false
deletes backward = false
deletes forward = false
deletes delete_backward = true
deletes delete_forward = true
deletes previous_line = false
deletes next_line = false

abbrev pub changes_line : EditAction → Bool
changes_line paragraph_start = false
changes_line paragraph_end = false
changes_line backward = false
changes_line forward = false
changes_line delete_backward = false
changes_line delete_forward = false
changes_line previous_line = true
changes_line next_line = true

-- A secret is neither copied nor cut, and all of it is not selected.
abbrev pub protects : Option ℕ → Modifiers → EditPolicy → Bool
protects key modifiers policy =
    policy.secret
    && (modifiers.control || modifiers.meta)
    && ((is_key key 99 || is_key key 120)
        || (is_key key 97 && (modifiers.control || not policy.apple_platform)))

abbrev pub blocks : EditAction → EditPolicy → Bool
blocks action policy =
    policy.composing
    || (deletes action && policy.read_only)
    || (changes_line action && policy.single_line)

abbrev pub apply_unless : Bool → EditAction → Bool → EditDecision
apply_unless true action extends = block
apply_unless false action extends = apply action extends

abbrev pub action_decision : Option EditAction → Modifiers → EditPolicy → EditDecision
action_decision none modifiers policy = native
action_decision (some action) modifiers policy =
    apply_unless (blocks action policy) action
      (modifiers.shift && not policy.secret && not (deletes action))

unfoldable pub edit_decision : Text → Modifiers → EditPolicy → EditDecision
unfolding command_character action_of
edit_decision text modifiers policy =
    let key = command_character text in
    if protects key modifiers policy
    then block
    else if not policy.apple_platform || not modifiers.meta || modifiers.control || modifiers.alt
    then native
    else action_decision (action_of key) modifiers policy

pub data Key : Type 0 where
  up_arrow down_arrow left_arrow right_arrow backspace delete : Key

-- The key that the toolkit's editor is given, with `alt` and `shift`.
unfoldable pub translated_event : EditAction → Bool → Key × Bool × Bool
translated_event paragraph_start extends = (up_arrow, true, extends)
translated_event paragraph_end extends = (down_arrow, true, extends)
translated_event backward extends = (left_arrow, false, extends)
translated_event forward extends = (right_arrow, false, extends)
translated_event delete_backward extends = (backspace, false, extends)
translated_event delete_forward extends = (delete, false, extends)
translated_event previous_line extends = (up_arrow, false, extends)
translated_event next_line extends = (down_arrow, false, extends)
