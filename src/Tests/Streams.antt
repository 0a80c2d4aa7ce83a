-- ===== src/Tests/Streams.antt =====
-- src/sftp.rs, src/sftp/transfer/cache.rs and src/app/text_editing.rs: a stream of packets, a path, a
-- cache and a key.
use ax_ssh.Prelude.{
  ℕ, ◌≤◌, ◌<◌, Bool, true, false, ◌≡◌, refl, List, [], ◌∷◌, ◌++◌, take, arith, length, ◌+◌, ◌^◌,
  ◌⊎◌, ◌↔◌, Bool,
}
use ax_ssh.Packets.{Reply, arrives, waits, new_stream, poll_read, invalid_length, unexpected_eof}
use ax_ssh.Packets.Moves.{bytes_of, flat, IsPacket, ArePackets}
use ax_ssh.Packets.Whole.{reads, reads-whole}
use ax_ssh.Packets.Ends.{has_fuel, poll_read-ends}
use ax_ssh.Prelude.Bytes.{Text}
use ax_ssh.Prelude.Results.{ok, err}
use ax_ssh.Sftp.Paths.{resolve_remote_path}
use ax_ssh.Sftp.Paths.Normal.{IsNormal, resolve_remote_path-IsNormal}
use ax_ssh.Transfers.Cache.{CacheEntry, Evicted, evicted, enforce_cache_quota, bytes_exceeded}
use ax_ssh.Transfers.Quota.{
  all_removed, all_stuck, enforce_cache_quota-within, enforce_cache_quota-refused,
}
use ax_ssh.Transfers.Sizes.{bytes, parts}
use ax_ssh.Transfers.Cache.{without_parts}
use ax_ssh.TextEditing.{
  EditPolicy, Modifiers, EditAction, edit_decision, apply, block, paragraph_start,
}
use ax_ssh.TextEditing.Keys.{IsProtected}
use ax_ssh.TextEditing.Decisions.{IsCommand, IsForbidden, Extends, edit_decision_iff}

abbrev replies : List Reply
replies = arrives (0 ∷ 0 ∷ 0 ∷ 2 ∷ 7 ∷ []) ∷ waits ∷ arrives (9 ∷ 0 ∷ 0 ∷ 0 ∷ 1 ∷ 5 ∷ []) ∷ []

abbrev rooms : List ℕ
rooms = 3 ∷ 3 ∷ 10 ∷ []

reads-replies : (reads rooms new_stream replies).0 ≡ 0 ∷ 0 ∷ 0 ∷ 2 ∷ 7 ∷ 9 ∷ 0 ∷ 0 ∷ 0 ∷ 1 ∷ 5 ∷ []
unfolding reads
reads-replies = refl

refuses-empty : (poll_read 10 new_stream (arrives (0 ∷ 0 ∷ 0 ∷ 0 ∷ []) ∷ [])).0 ≡ invalid_length 0
unfolding poll_read
refuses-empty = refl

refuses-end : (poll_read 10 new_stream (arrives (0 ∷ []) ∷ arrives [] ∷ [])).0 ≡ unexpected_eof
unfolding poll_read
refuses-end = refl

reads-whole_example :
    (packets : List (List ℕ)) × ArePackets packets
    × (bytes_of replies
        ≡ flat packets
          ++ ((reads rooms new_stream replies).1.packet
              ++ bytes_of (reads rooms new_stream replies).2))
    × ((reads rooms new_stream replies).0
        ≡ flat packets
          ++ take
              (reads rooms new_stream replies).1.packet_emitted
              (reads rooms new_stream replies).1.packet)
    × (0 < (reads rooms new_stream replies).1.packet_emitted
        → IsPacket (reads rooms new_stream replies).1.packet)
reads-whole_example = reads-whole rooms replies

poll_read-ends_example :
    has_fuel (poll_read 4 (reads rooms new_stream replies).1 (reads rooms new_stream replies).2).0
    ≡ true
poll_read-ends_example = poll_read-ends rooms replies 4

-- `/h/u`, `/h` and `../a/./b//c`.
abbrev work_directory : Text
work_directory = 47 ∷ 104 ∷ 47 ∷ 117 ∷ []

abbrev home_directory : Text
home_directory = 47 ∷ 104 ∷ []

abbrev asked_path : Text
asked_path = 46 ∷ 46 ∷ 47 ∷ 97 ∷ 47 ∷ 46 ∷ 47 ∷ 98 ∷ 47 ∷ 47 ∷ 99 ∷ []

abbrev resolved_path : Text
resolved_path = 47 ∷ 104 ∷ 47 ∷ 97 ∷ 47 ∷ 98 ∷ 47 ∷ 99 ∷ []

resolves-path : resolve_remote_path work_directory home_directory asked_path ≡ ok resolved_path
unfolding resolve_remote_path
resolves-path = refl

resolve_remote_path-IsNormal_example : IsNormal true resolved_path
resolve_remote_path-IsNormal_example =
    resolve_remote_path-IsNormal work_directory home_directory asked_path resolved_path refl refl
      resolves-path

abbrev cached : ℕ → ℕ → Bool → CacheEntry
cached size modified is_part = record {
  path = modified;
  size = size;
  modified = modified;
  is_part = is_part;
}

abbrev entries : List CacheEntry
entries = cached 40 3 false ∷ cached 30 1 false ∷ cached 20 2 true ∷ cached 10 0 false ∷ []

abbrev removes_all : CacheEntry → Bool
removes_all e = true

abbrev removes_none : CacheEntry → Bool
removes_none e = false

abbrev after_eviction : Evicted
after_eviction = record {
  kept = cached 40 3 false ∷ [];
  removed = cached 10 0 false ∷ cached 30 1 false ∷ [];
  total = 60;
  files = 2;
}

makes-room : enforce_cache_quota removes_all 30 100 entries ≡ ok after_eviction
unfolding enforce_cache_quota
makes-room = refl

makes-no_room : enforce_cache_quota removes_none 30 100 entries ≡ err bytes_exceeded
unfolding enforce_cache_quota
makes-no_room = refl

small-entries : bytes entries < 2 ^ 64
unfolding bytes
small-entries = omega arith

enforce_cache_quota-within_example :
    (bytes (parts entries) + bytes after_eviction.kept + 30 ≤ 100)
    × (length (parts entries) + length after_eviction.kept + 1 ≤ 128)
    × (all_removed removes_all after_eviction.removed ≡ true)
    × (bytes after_eviction.kept + bytes after_eviction.removed ≡ bytes (without_parts entries))
enforce_cache_quota-within_example =
    enforce_cache_quota-within removes_all 30 100 entries after_eviction small-entries (omega arith)
      makes-room

enforce_cache_quota-refused_example :
    (100 < 30)
    ⊎ ((all_stuck removes_none (evicted removes_none 30 100 entries).kept ≡ true)
        × (all_removed removes_none (evicted removes_none 30 100 entries).removed ≡ true)
        × (length (evicted removes_none 30 100 entries).kept
              + length (evicted removes_none 30 100 entries).removed
            ≡ length (without_parts entries)))
enforce_cache_quota-refused_example =
    enforce_cache_quota-refused removes_none 30 100 entries bytes_exceeded makes-no_room

abbrev policy : EditPolicy
policy = record {
  apple_platform = true;
  secret = false;
  read_only = true;
  single_line = true;
  composing = false;
}

abbrev control_key : Modifiers
control_key = record { alt = false; control = false; shift = true; meta = true }

selects-start : edit_decision (97 ∷ []) control_key policy ≡ apply paragraph_start true
unfolding edit_decision
selects-start = refl

edit_decision_iff_example :
    ((action : EditAction) (extends : Bool)
      → (edit_decision (97 ∷ []) control_key policy ≡ apply action extends) ↔ (
          IsCommand (97 ∷ []) control_key policy action
          × (¬ IsForbidden policy action)
          × ((extends ≡ true) ↔ Extends control_key policy action)))
    × ((edit_decision (97 ∷ []) control_key policy ≡ block) ↔ (
        IsProtected (97 ∷ []) control_key policy
        ⊎ ((action : EditAction) × IsCommand (97 ∷ []) control_key policy action
            × IsForbidden policy action)))
edit_decision_iff_example = edit_decision_iff (97 ∷ []) control_key policy
