-- ===== src/Sftp/Table.antt =====
-- src/app/state/sftp.rs, `SftpBrowserState`: the transfers of a Tab, what is selected, waits or is
-- being scanned among them, and the intents that are replayed when the connection comes back.
pub mod Transitions
pub mod Selection
pub mod Conflicts
pub mod Roots
pub mod Modify
pub mod Events
pub mod Invariant
pub mod Frozen
pub mod Finality
use Prim.Native.String.{String}
use ax_ssh.Prelude.{
  ℕ, Bool, true, false, not, ◌&&◌, ◌||◌, Option, none, some, List, [], ◌∷◌, ◌++◌, ◌==◌, map,
  if◌then◌else◌,
}
use ax_ssh.Prelude.Keyed.{
  nat_eq, string_eq, contains, insert, remove, lookup, insert_at, remove_key, retain, contains_key,
}
use ax_ssh.Prelude.Words.{wrapping_succ}
use ax_ssh.Sftp.Phase.{Phase, active}
use ax_ssh.Sftp.Transfer.{Transfer, Status}

pub record Conflict : Type 0 where
  pub transfer_id : ℕ
  pub batch_id : ℕ
  pub name : String
  pub remote_size : Option ℕ
  pub remote_modified : Option ℕ

pub record DownloadRoot : Type 0 where
  pub transfer_id : ℕ
  pub remote_path : String
  pub local_directory : String
  pub filter_patterns : List String
  pub expected_directory : Bool
  pub completed_children : List String

pub record DownloadFile : Type 0 where
  pub transfer_id : ℕ
  pub remote_path : String
  pub local_path : String
  pub total_bytes : ℕ
  pub replay_on_reconnect : Bool

pub record Upload : Type 0 where
  pub transfer_id : ℕ
  pub batch_id : ℕ
  pub remote_path : String
  pub local_path : String
  pub total_bytes : ℕ
  pub remote_directories : List String

pub data Intent : Type 0 where
  download_root : DownloadRoot → Intent
  download_file : DownloadFile → Intent
  upload_file : Upload → Intent

pub record Table : Type 0 where
  pub transfers : List Transfer
  pub pending_download_roots : List ℕ
  pub scanning_download_roots : List ℕ
  pub upload_conflicts : List Conflict
  pub selected_transfers : List ℕ
  pub transfer_intents : List (ℕ × Intent)
  pub transfer_intent_order : List ℕ
  pub transfer_intent_revision : ℕ
  pub directory_children : List (ℕ × ℕ)
  pub reconnect_replay_pending : Bool

-- `SftpBrowserState::default`, as far as the transfers go.
abbrev pub empty : Table
empty = record {
  transfers = [];
  pending_download_roots = [];
  scanning_download_roots = [];
  upload_conflicts = [];
  selected_transfers = [];
  transfer_intents = [];
  transfer_intent_order = [];
  transfer_intent_revision = 0;
  directory_children = [];
  reconnect_replay_pending = false;
}

-- `transfers.iter().find(|transfer| transfer.id == id)`.
unfoldable pub find : ℕ → List Transfer → Option Transfer
find id [] = none
find id (t ∷ ts) = let rest = find id ts in if t.id == id then some t else rest

-- `transfers.iter().any(|transfer| transfer.id == id && …)`.
unfoldable pub any_if : (Transfer → Bool) → ℕ → List Transfer → Bool
any_if q id [] = false
any_if q id (t ∷ ts) = (t.id == id && q t) || any_if q id ts

abbrev pub is_active : Transfer → Bool
is_active t = active t.phase

abbrev pub any_active : ℕ → List Transfer → Bool
any_active = any_if is_active

-- `transfers.iter_mut().find(…)`, and a change of what it finds; `none` where nothing is changed.
unfoldable pub modify : ℕ → (Transfer → Option Transfer) → List Transfer → Option (List Transfer)
modify id f [] = none
modify id f (t ∷ ts) =
    let rest = modify id f ts in
    if t.id == id
    then (elim (f t) [ none ↦ none | some t' ↦ some (t' ∷ ts) ])
    else (elim rest [ none ↦ none | some ts' ↦ some (t ∷ ts') ])

-- `upload_conflicts.retain(|conflict| conflict.transfer_id != id)`.
unfoldable pub drop_conflicts : ℕ → List Conflict → List Conflict
drop_conflicts id [] = []
drop_conflicts id (c ∷ cs) =
    if c.transfer_id == id then drop_conflicts id cs else c ∷ drop_conflicts id cs

-- `directory_children.retain(|_, root_id| *root_id != id)`, behind the removal of `id` itself.
unfoldable pub drop_children : ℕ → List (ℕ × ℕ) → List (ℕ × ℕ)
drop_children id children = retain (λ _ root_id. not (root_id == id)) (remove_key id children)

-- The three `register_…_intent` methods: they differ in the intent alone.
unfoldable pub register_intent : ℕ → Intent → Table → Table
unfolding wrapping_succ contains_key insert_at
register_intent id intent s = record s {
  transfer_intent_order =
      if contains_key id s.transfer_intents
      then s.transfer_intent_order
      else s.transfer_intent_order ++ (id ∷ []);
  transfer_intents = insert_at id intent s.transfer_intents;
  transfer_intent_revision = wrapping_succ s.transfer_intent_revision;
}

unfoldable pub remove_transfer_intent : ℕ → Table → Table
unfolding wrapping_succ contains_key remove_key remove drop_children retain
remove_transfer_intent id s = record s {
  transfer_intents = remove_key id s.transfer_intents;
  transfer_intent_order = remove id s.transfer_intent_order;
  directory_children = drop_children id s.directory_children;
  transfer_intent_revision =
      if contains_key id s.transfer_intents
      then wrapping_succ s.transfer_intent_revision
      else s.transfer_intent_revision;
}

-- The end of `mark_directory_child_completed`, at the root's intent.
unfoldable pub complete_child : ℕ → String → Option Intent → Table → Table
unfolding wrapping_succ insert_at insert
complete_child root_id path (some (download_root root)) s = record s {
  transfer_intents =
      insert_at root_id
        (download_root (record root { completed_children = insert path root.completed_children }))
        s.transfer_intents;
  transfer_intent_revision = wrapping_succ s.transfer_intent_revision;
}
complete_child root_id path _ s = s

unfoldable pub mark_directory_child_completed : ℕ → Table → Table
unfolding complete_child lookup find
mark_directory_child_completed id s = elim (lookup id s.directory_children) [
  | none ↦ s
  | some root_id ↦ elim (find id s.transfers) [
    | none ↦ s
    | some t ↦ elim t.remote_path [
      | none ↦ s
      | some path ↦ complete_child root_id path (lookup root_id s.transfer_intents) s
    ]
  ]
]

-- `transfer_intents`: the intents in the order in which they were first registered.
unfoldable pub ordered_intents : List ℕ → List (ℕ × Intent) → List Intent
unfolding lookup
ordered_intents [] intents = []
ordered_intents (id ∷ order) intents =
    let rest = ordered_intents order intents in
    elim (lookup id intents) [ none ↦ rest | some intent ↦ intent ∷ rest ]

unfoldable pub register_discovered_download_intent : ℕ → ℕ → Table → Table
unfolding contains_key insert_at
register_discovered_download_intent root_id id s =
    if contains_key root_id s.transfer_intents
    then record s { directory_children = insert_at id root_id s.directory_children }
    else s

unfoldable pub clear_transfer_intents : Table → Table
unfolding wrapping_succ
clear_transfer_intents s = record empty {
  transfer_intent_revision = elim s.transfer_intents [
    | [] ↦ s.transfer_intent_revision
    | _ ∷ _ ↦ wrapping_succ s.transfer_intent_revision
  ];
}
