-- ===== src/TextEditing/Keys.antt =====
-- src/app/text_editing.rs: the keys that ask for an action, and those that a secret is protected from,
-- by their characters.
use ax_ssh.Prelude.{
  ℕ, true, false, ◌≡◌, ◌↔◌, ◌⊎◌, refl, subst, inl, inr, Option, some, [], ◌∷◌, arith,
}
use ax_ssh.Prelude.Bytes.{Text}
use ax_ssh.TextEditing.{
  EditPolicy, Modifiers, EditAction, paragraph_start, paragraph_end, backward, forward,
  delete_backward, delete_forward, previous_line, next_line, control_letter, command_character,
  action_of, is_key, deletes, changes_line, protects,
}

-- A small or a capital letter, or the control character that stands for it.
abbrev pub IsLetter : ℕ → ℕ → ℕ → ℕ → Type 0
IsLetter small capital control c = (c ≡ small) ⊎ (c ≡ capital) ⊎ (c ≡ control)

-- What a single character asks for: the letters a, e, b, f, h, d, p and n. The control character of p
-- does not stand for it.
abbrev pub AsksFor : EditAction → ℕ → Type 0
AsksFor paragraph_start c = IsLetter 97 65 1 c
AsksFor paragraph_end c = IsLetter 101 69 5 c
AsksFor backward c = IsLetter 98 66 2 c
AsksFor forward c = IsLetter 102 70 6 c
AsksFor delete_backward c = IsLetter 104 72 8 c
AsksFor delete_forward c = IsLetter 100 68 4 c
AsksFor previous_line c = (c ≡ 112) ⊎ (c ≡ 80)
AsksFor next_line c = IsLetter 110 78 14 c

-- The text is one character, which is such a one.
abbrev pub IsOne : (ℕ → Type 0) → Text → Type 0
IsOne P text = (c : ℕ) × (text ≡ c ∷ []) × P c

asks :
    (c : ℕ) (action : EditAction)
    → (action_of (command_character (c ∷ [])) ≡ some action) ↔ AsksFor action c
unfolding action_of command_character control_letter
asks c paragraph_start = ((λ e. ground arith), (λ e. ground arith))
asks c paragraph_end = ((λ e. ground arith), (λ e. ground arith))
asks c backward = ((λ e. ground arith), (λ e. ground arith))
asks c forward = ((λ e. ground arith), (λ e. ground arith))
asks c delete_backward = ((λ e. ground arith), (λ e. ground arith))
asks c delete_forward = ((λ e. ground arith), (λ e. ground arith))
asks c previous_line = ((λ e. ground arith), (λ e. ground arith))
asks c next_line = ((λ e. ground arith), (λ e. ground arith))

pub command_asks :
    (text : Text) (action : EditAction)
    → (action_of (command_character text) ≡ some action) ↔ IsOne (AsksFor action) text
unfolding action_of command_character
command_asks [] action = ((λ e. ground arith), (λ v. let e = v.1 in ground arith))
command_asks (c ∷ []) action = (
  (λ e. (c, refl, (asks c action).0 e)),
  (λ v.
      let same : v.0 ≡ c = ground (arith, v.1) in
      (asks c action).1 (subst (AsksFor action) same v.2)),
)
command_asks (c ∷ d ∷ t) action = ((λ e. ground arith), (λ v. let e = v.1 in ground arith))

-- The letters c, x and a.
key_c : (c : ℕ) → (is_key (command_character (c ∷ [])) 99 ≡ true) ↔ IsLetter 99 67 3 c
unfolding command_character control_letter
key_c c = ((λ e. ground arith), (λ e. ground arith))

key_x : (c : ℕ) → (is_key (command_character (c ∷ [])) 120 ≡ true) ↔ IsLetter 120 88 24 c
unfolding command_character control_letter
key_x c = ((λ e. ground arith), (λ e. ground arith))

key_a : (c : ℕ) → (is_key (command_character (c ∷ [])) 97 ≡ true) ↔ IsLetter 97 65 1 c
unfolding command_character control_letter
key_a c = ((λ e. ground arith), (λ e. ground arith))

-- The characters that a secret is protected from: c and x, and a with Control or on other platforms.
abbrev pub HoldsSecret : Modifiers → EditPolicy → ℕ → Type 0
HoldsSecret modifiers policy c =
    IsLetter 99 67 3 c
    ⊎ IsLetter 120 88 24 c
    ⊎ (IsLetter 97 65 1 c × ((modifiers.control ≡ true) ⊎ (policy.apple_platform ≡ false)))

abbrev pub IsProtected : Text → Modifiers → EditPolicy → Type 0
IsProtected text modifiers policy =
    (policy.secret ≡ true)
    × ((modifiers.control ≡ true) ⊎ (modifiers.meta ≡ true))
    × IsOne (HoldsSecret modifiers policy) text

is_protected :
    (k : Option ℕ) (modifiers : Modifiers) (policy : EditPolicy)
    → (protects k modifiers policy ≡ true) ↔ (
        (policy.secret ≡ true)
        × ((modifiers.control ≡ true) ⊎ (modifiers.meta ≡ true))
        × ((is_key k 99 ≡ true)
            ⊎ (is_key k 120 ≡ true)
            ⊎ ((is_key k 97 ≡ true)
                × ((modifiers.control ≡ true) ⊎ (policy.apple_platform ≡ false)))))
is_protected k modifiers policy = ((λ h. ground arith), (λ h. ground arith))

one_key :
    (c : ℕ) (modifiers : Modifiers) (policy : EditPolicy)
    → (protects (command_character (c ∷ [])) modifiers policy ≡ true) ↔ (
        (policy.secret ≡ true)
        × ((modifiers.control ≡ true) ⊎ (modifiers.meta ≡ true))
        × HoldsSecret modifiers policy c)
one_key c modifiers policy =
    let same = is_protected (command_character (c ∷ [])) modifiers policy in
    let at_c = key_c c in
    let at_x = key_x c in
    let at_a = key_a c in
    (
      (λ h.
          let v = same.0 h in
          (
            v.0,
            v.1,
            elim v.2 [
              | inl e ↦ inl (at_c.0 e)
              | inr (inl e) ↦ inr (inl (at_x.0 e))
              | inr (inr (e, held)) ↦ inr (inr (at_a.0 e, held))
            ],
          )),
      (λ v. same.1 (
        v.0,
        v.1,
        elim v.2 [
          | inl e ↦ inl (at_c.1 e)
          | inr (inl e) ↦ inr (inl (at_x.1 e))
          | inr (inr (e, held)) ↦ inr (inr (at_a.1 e, held))
        ],
      )),
    )

pub protects_iff :
    (text : Text) (modifiers : Modifiers) (policy : EditPolicy)
    → (protects (command_character text) modifiers policy ≡ true)
      ↔ IsProtected text modifiers policy
unfolding command_character
protects_iff [] modifiers policy =
    ((λ h. absurd (ground arith)), (λ v. let e = v.2.1 in absurd (ground arith)))
protects_iff (c ∷ []) modifiers policy = (
  (λ h. let v = (one_key c modifiers policy).0 h in (v.0, v.1, (c, refl, v.2))),
  (λ v.
      let same : v.2.0 ≡ c = ground (arith, v.2.1) in
      (one_key c modifiers policy).1 (v.0, v.1, subst (HoldsSecret modifiers policy) same v.2.2)),
)
protects_iff (c ∷ d ∷ t) modifiers policy =
    ((λ h. absurd (ground arith)), (λ v. let e = v.2.1 in absurd (ground arith)))

-- The actions that delete, and those that leave the line.
abbrev pub Deletes : EditAction → Type 0
Deletes action = (action ≡ delete_backward) ⊎ (action ≡ delete_forward)

abbrev pub LeavesLine : EditAction → Type 0
LeavesLine action = (action ≡ previous_line) ⊎ (action ≡ next_line)

pub deletes_iff : (action : EditAction) → (deletes action ≡ true) ↔ Deletes action
deletes_iff paragraph_start = ((λ h. ground arith), (λ h. ground arith))
deletes_iff paragraph_end = ((λ h. ground arith), (λ h. ground arith))
deletes_iff backward = ((λ h. ground arith), (λ h. ground arith))
deletes_iff forward = ((λ h. ground arith), (λ h. ground arith))
deletes_iff delete_backward = ((λ h. inl refl), (λ h. refl))
deletes_iff delete_forward = ((λ h. inr refl), (λ h. refl))
deletes_iff previous_line = ((λ h. ground arith), (λ h. ground arith))
deletes_iff next_line = ((λ h. ground arith), (λ h. ground arith))

pub changes_line_iff : (action : EditAction) → (changes_line action ≡ true) ↔ LeavesLine action
changes_line_iff paragraph_start = ((λ h. ground arith), (λ h. ground arith))
changes_line_iff paragraph_end = ((λ h. ground arith), (λ h. ground arith))
changes_line_iff backward = ((λ h. ground arith), (λ h. ground arith))
changes_line_iff forward = ((λ h. ground arith), (λ h. ground arith))
changes_line_iff delete_backward = ((λ h. ground arith), (λ h. ground arith))
changes_line_iff delete_forward = ((λ h. ground arith), (λ h. ground arith))
changes_line_iff previous_line = ((λ h. inl refl), (λ h. refl))
changes_line_iff next_line = ((λ h. inr refl), (λ h. refl))
