-- ===== src/TextEditing/Taken.antt =====
-- src/app/text_editing.rs: when `edit_decision` applies a key, by the code's own tests.
use ax_ssh.Prelude.{
  Bool, true, false, not, ◌&&◌, ◌||◌, ◌≡◌, refl, ap, sym, ◌∙◌, inl, inr, Option, none, some, arith,
  Bool-cases,
}
use ax_ssh.Prelude.Bytes.{Text}
use ax_ssh.TextEditing.{
  EditPolicy, Modifiers, EditAction, native, block, apply, command_character, action_of, deletes,
  protects, blocks, action_decision, edit_decision,
}

-- What the code asks of a key that it applies.
pub record IsTaken (text : Text) (modifiers : Modifiers) (policy : EditPolicy) (action : EditAction)
    (extends : Bool) : Type 0 where
  pub asked : action_of (command_character text) ≡ some action
  pub apple : policy.apple_platform ≡ true
  pub control_alone :
      (modifiers.meta ≡ true) × (modifiers.control ≡ false) × (modifiers.alt ≡ false)
  pub unprotected : protects (command_character text) modifiers policy ≡ false
  pub free : blocks action policy ≡ false
  pub extension : extends ≡ (modifiers.shift && not policy.secret && not (deletes action))

action_decision-apply :
    (o : Option EditAction) (modifiers : Modifiers) (policy : EditPolicy) (action : EditAction)
    (extends : Bool)
    → action_decision o modifiers policy ≡ apply action extends
    → (o ≡ some action)
      × (blocks action policy ≡ false)
      × (extends ≡ (modifiers.shift && not policy.secret && not (deletes action)))
action_decision-apply none modifiers policy action extends h = ground arith
action_decision-apply (some a) modifiers policy action extends h =
    elim (Bool-cases (blocks a policy)) [
      | inl blocked ↦ ground (arith, blocked, h)
      | inr free ↦
          (let same : a ≡ action = ground (arith, free, h) in
            let extension : extends ≡ (modifiers.shift && not policy.secret && not (deletes a)) =
              ground (arith, free, h) in
            (
              ap some same,
              ap (λ a. blocks a policy) (sym same) ∙ free,
              extension ∙ ap (λ a. modifiers.shift && not policy.secret && not (deletes a)) same,
            ))
    ]

abbrev pub unchecked : Modifiers → EditPolicy → Bool
unchecked modifiers policy =
    not policy.apple_platform || not modifiers.meta || modifiers.control || modifiers.alt

pub apply-IsTaken :
    (text : Text) (modifiers : Modifiers) (policy : EditPolicy) (action : EditAction)
    (extends : Bool)
    → edit_decision text modifiers policy ≡ apply action extends
    → IsTaken text modifiers policy action extends
unfolding edit_decision
apply-IsTaken text modifiers policy action extends h =
    elim (Bool-cases (protects (command_character text) modifiers policy)) [
      | inl guarded ↦ absurd (not_applied (sym (guarded_block guarded) ∙ h))
      | inr unguarded ↦ elim (Bool-cases (unchecked modifiers policy)) [
        | inl other ↦ absurd (not_native (sym (other_native unguarded other) ∙ h))
        | inr command ↦
            (let v =
                action_decision-apply (action_of (command_character text)) modifiers policy action
                  extends (sym (commanded unguarded command) ∙ h) in
              record {
                asked = v.0;
                apple = ground (arith, command);
                control_alone = ground (arith, command);
                unprotected = unguarded;
                free = v.1;
                extension = v.2;
              })
      ]
    ]
  where
    guarded_block :
        protects (command_character text) modifiers policy ≡ true
        → edit_decision text modifiers policy ≡ block
    guarded_block e = rw (e) refl

    other_native :
        protects (command_character text) modifiers policy ≡ false
        → unchecked modifiers policy ≡ true
        → edit_decision text modifiers policy ≡ native
    other_native e f = rw (e, f) refl

    commanded :
        protects (command_character text) modifiers policy ≡ false
        → unchecked modifiers policy ≡ false
        → edit_decision text modifiers policy
          ≡ action_decision (action_of (command_character text)) modifiers policy
    commanded e f = rw (e, f) refl

    not_applied : block ≡ apply action extends → ⊥
    not_applied e = ground arith

    not_native : native ≡ apply action extends → ⊥
    not_native e = ground arith

pub IsTaken-apply :
    (text : Text) (modifiers : Modifiers) (policy : EditPolicy) (action : EditAction)
    (extends : Bool)
    → IsTaken text modifiers policy action extends
    → edit_decision text modifiers policy ≡ apply action extends
unfolding edit_decision
IsTaken-apply text modifiers policy action extends v =
    let command : unchecked modifiers policy ≡ false = ground (arith, v.apple, v.control_alone) in
    rw (v.unprotected, command, v.asked, v.free) (ap (apply action) (sym v.extension))
