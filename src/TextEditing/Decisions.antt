-- ===== src/TextEditing/Decisions.antt =====
-- src/app/text_editing.rs: when a key is applied, and when it is blocked, by its characters.
use ax_ssh.Prelude.{
  ℕ, ◌⊎◌, Bool, true, false, not, ◌&&◌, ◌≡◌, ◌↔◌, refl, sym, ◌∙◌, inl, inr, Option, none, some,
  arith, Bool-cases,
}
use ax_ssh.Prelude.Bytes.{Text}
use ax_ssh.TextEditing.Taken.{unchecked, apply-IsTaken, IsTaken-apply}
use ax_ssh.TextEditing.Keys.{
  IsOne, AsksFor, IsProtected, Deletes, LeavesLine, command_asks, protects_iff, deletes_iff,
  changes_line_iff,
}
use ax_ssh.TextEditing.{
  EditPolicy, Modifiers, EditAction, block, apply, command_character, action_of, deletes, protects,
  blocks, action_decision, edit_decision,
}

-- A key that is applied or blocked as an action: the action's character with Control alone, which the
-- toolkit reports as `meta`, on an Apple keyboard.
pub record IsCommand (text : Text) (modifiers : Modifiers) (policy : EditPolicy)
    (action : EditAction) : Type 0 where
  pub asked : IsOne (AsksFor action) text
  pub apple : policy.apple_platform ≡ true
  pub control_alone :
      (modifiers.meta ≡ true) × (modifiers.control ≡ false) × (modifiers.alt ≡ false)

-- The text is being composed, or the action may not change it.
abbrev pub IsForbidden : EditPolicy → EditAction → Type 0
IsForbidden policy action =
    (policy.composing ≡ true)
    ⊎ (Deletes action × (policy.read_only ≡ true))
    ⊎ (LeavesLine action × (policy.single_line ≡ true))

-- The selection is extended with Shift, but neither in a secret nor by deleting.
abbrev pub Extends : Modifiers → EditPolicy → EditAction → Type 0
Extends modifiers policy action =
    (modifiers.shift ≡ true) × (policy.secret ≡ false) × (¬ Deletes action)

IsForbidden-iff :
    (action : EditAction) (policy : EditPolicy)
    → (blocks action policy ≡ true) ↔ IsForbidden policy action
IsForbidden-iff action policy =
    let d = deletes_iff action in
    let l = changes_line_iff action in
    (
      (λ h. elim (Bool-cases policy.composing) [
        | inl composing ↦ inl composing
        | inr idle ↦ elim (Bool-cases (deletes action && policy.read_only)) [
          | inl kept ↦ inr (inl (d.0 (ground arith), ground arith))
          | inr free ↦ inr (inr (l.0 (ground arith), ground arith))
        ]
      ]),
      (λ h. elim h [
        | inl composing ↦ ground arith
        | inr (inl (e, kept)) ↦ (let f = d.1 e in ground arith)
        | inr (inr (e, one)) ↦ (let f = l.1 e in ground arith)
      ]),
    )

Extends-iff :
    (extends : Bool) (modifiers : Modifiers) (policy : EditPolicy) (action : EditAction)
    → (extends ≡ (modifiers.shift && not policy.secret && not (deletes action)))
      ↔ ((extends ≡ true) ↔ Extends modifiers policy action)
Extends-iff extends modifiers policy action =
    elim (Bool-cases (modifiers.shift && not policy.secret && not (deletes action))) [
      | inl does ↦ (
        (λ e. ((λ h. extending does), (λ h. e ∙ does))),
        (λ same. same.1 (extending does) ∙ sym does),
      )
      | inr does_not ↦ (
        (λ e. ((λ h. absurd (ground arith)), (λ h. absurd (not_extending h does_not)))),
        (λ same. elim (Bool-cases extends) [
          | inl t ↦ absurd (not_extending (same.0 t) does_not)
          | inr f ↦ f ∙ sym does_not
        ]),
      )
    ]
  where
    extending :
        (modifiers.shift && not policy.secret && not (deletes action)) ≡ true
        → Extends modifiers policy action
    extending does =
        (ground arith, ground arith, λ e. let f = (deletes_iff action).1 e in ground arith)

    not_extending :
        Extends modifiers policy action
        → (modifiers.shift && not policy.secret && not (deletes action)) ≡ false
        → ⊥
    not_extending h f = elim (Bool-cases (deletes action)) [
      | inl e ↦ h.2 ((deletes_iff action).0 e)
      | inr e ↦ (let s = h.0 in let k = h.1 in ground arith)
    ]

-- The eight letters with Control alone are not among the protected ones.
other_key :
    (k : Option ℕ) (modifiers : Modifiers) (policy : EditPolicy) (action : EditAction)
    → action_of k ≡ some action
    → policy.apple_platform ≡ true
    → modifiers.control ≡ false
    → protects k modifiers policy ≡ false
unfolding action_of
other_key none modifiers policy action h apple control = ground arith
other_key (some k) modifiers policy action h apple control = ground arith

unprotected :
    (text : Text) (modifiers : Modifiers) (policy : EditPolicy) (action : EditAction)
    → IsCommand text modifiers policy action
    → protects (command_character text) modifiers policy ≡ false
unprotected text modifiers policy action v =
    other_key (command_character text) modifiers policy action
      ((command_asks text action).1 v.asked) v.apple v.control_alone.1

command_unchecked :
    (text : Text) (modifiers : Modifiers) (policy : EditPolicy) (action : EditAction)
    → IsCommand text modifiers policy action
    → unchecked modifiers policy ≡ false
command_unchecked text modifiers policy action v = ground (arith, v.apple, v.control_alone)

applied_iff :
    (text : Text) (modifiers : Modifiers) (policy : EditPolicy) (action : EditAction)
    (extends : Bool)
    → (edit_decision text modifiers policy ≡ apply action extends) ↔ (
        IsCommand text modifiers policy action
        × (¬ IsForbidden policy action)
        × ((extends ≡ true) ↔ Extends modifiers policy action))
applied_iff text modifiers policy action extends =
    let forbidden = IsForbidden-iff action policy in
    let extension = Extends-iff extends modifiers policy action in
    (
      (λ h.
          let v = apply-IsTaken text modifiers policy action extends h in
          (
            record {
              asked = (command_asks text action).0 v.asked;
              apple = v.apple;
              control_alone = v.control_alone;
            },
            (λ f. let e = forbidden.1 f in ground (arith, v.free)),
            extension.0 v.extension,
          )),
      (λ v. IsTaken-apply text modifiers policy action extends (record {
        asked = (command_asks text action).1 v.0.asked;
        apple = v.0.apple;
        control_alone = v.0.control_alone;
        unprotected = unprotected text modifiers policy action v.0;
        free = elim (Bool-cases (blocks action policy)) [
          | inl e ↦ absurd (v.1 (forbidden.0 e))
          | inr e ↦ e
        ];
        extension = extension.1 v.2;
      })),
    )

action_decision-block :
    (o : Option EditAction) (modifiers : Modifiers) (policy : EditPolicy)
    → action_decision o modifiers policy ≡ block
    → (a : EditAction) × (o ≡ some a) × (blocks a policy ≡ true)
action_decision-block none modifiers policy h = ground arith
action_decision-block (some a) modifiers policy h = elim (Bool-cases (blocks a policy)) [
  | inl blocked ↦ (a, refl, blocked)
  | inr free ↦ ground (arith, free, h)
]

blocked_iff :
    (text : Text) (modifiers : Modifiers) (policy : EditPolicy)
    → (edit_decision text modifiers policy ≡ block) ↔ (
        IsProtected text modifiers policy
        ⊎ ((action : EditAction) × IsCommand text modifiers policy action
            × IsForbidden policy action))
unfolding edit_decision
blocked_iff text modifiers policy =
    let guard = protects_iff text modifiers policy in
    (
      (λ h. elim (Bool-cases (protects (command_character text) modifiers policy)) [
        | inl guarded ↦ inl (guard.0 guarded)
        | inr unguarded ↦ elim (Bool-cases (unchecked modifiers policy)) [
          | inl other ↦ ground (arith, unguarded, other, h)
          | inr command ↦ inr (
              let v =
                action_decision-block (action_of (command_character text)) modifiers policy
                  (commanded unguarded command h) in
              (
                v.0,
                record {
                  asked = (command_asks text v.0).0 v.1;
                  apple = ground (arith, command);
                  control_alone = ground (arith, command);
                },
                (IsForbidden-iff v.0 policy).0 v.2,
              ))
        ]
      ]),
      (λ v. elim v [
        | inl p ↦ rw (edit_decision, guard.1 p) refl
        | inr (action, command, forbidden) ↦
            rw
              (
                edit_decision,
                unprotected text modifiers policy action command,
                command_unchecked text modifiers policy action command,
                (command_asks text action).1 command.asked,
                (IsForbidden-iff action policy).1 forbidden,
              )
              refl
      ]),
    )
  where
    commanded :
        protects (command_character text) modifiers policy ≡ false
        → unchecked modifiers policy ≡ false
        → edit_decision text modifiers policy ≡ block
        → action_decision (action_of (command_character text)) modifiers policy ≡ block
    commanded e f h = ground (arith, e, f, h)

-- A key is applied exactly when it is one of the eight letters (a, e, b, f, h, d, p and n, each for its
-- action, as a small letter, a capital or, but for p, its control character), with the modifier
-- `meta`, which is an Apple keyboard's Control, and neither `control` nor `alt`, on an Apple platform,
-- the text is not being composed, and the action may delete from it or change its line; the selection
-- is then extended with Shift, but neither in a secret nor by deleting. A key is blocked exactly when
-- it is such a letter, so held, and one of these forbids it, or when the text is a secret, `control`
-- or `meta` is held, and the key is c, x, or, with `control` or on another platform, a.
pub edit_decision_iff :
    (text : Text) (modifiers : Modifiers) (policy : EditPolicy)
    → ((action : EditAction) (extends : Bool)
        → (edit_decision text modifiers policy ≡ apply action extends) ↔ (
            IsCommand text modifiers policy action
            × (¬ IsForbidden policy action)
            × ((extends ≡ true) ↔ Extends modifiers policy action)))
      × ((edit_decision text modifiers policy ≡ block) ↔ (
          IsProtected text modifiers policy
          ⊎ ((action : EditAction) × IsCommand text modifiers policy action
              × IsForbidden policy action)))
edit_decision_iff text modifiers policy = (
  λ action extends. applied_iff text modifiers policy action extends,
  blocked_iff text modifiers policy,
)
