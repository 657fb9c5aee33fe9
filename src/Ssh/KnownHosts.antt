-- ===== src/Ssh/KnownHosts.antt =====
-- Trust on first use of SSH host keys (apps/desktop/electron/bridge/ssh-known-hosts.ts). The hash
-- and the JSON parser are not in the file: a key is given with its length and its SHA-256 in
-- hexadecimal, and the stored file by its parsed value.
mod Store
pub mod Trust
pub mod Schema
pub use Store.{Json, Fields, entry_count, KnownHosts, Failure, Outcome, max_entries}
unfoldable pub use Store.{
  is_hex_64, is_known_host_id, reserved, lookup, insert, delete, validate_store, json_entries,
  to_json, is_object,
}
use agent_workflow_platform.Prelude.{
  ℕ, String, Bool, true, false, ◌&&◌, ◌||◌, not, List, [], ◌∷◌, Option, none, some, ◌==◌,
  if◌then◌else◌, leb, ltb, is_some, length,
}

-- What `readPrivateFileIfExists` and `JSON.parse` give.
pub data File : Type 0 where
  absent unreadable malformed : File
  parsed : Json → File

-- A key as the verifier sees it.
pub record HostKey : Type 0 where
  pub is_buffer : Bool
  pub length : ℕ
  pub digest : String

pub record Loaded : Type 0 where
  pub entries : KnownHosts
  pub exists : Bool

-- `loadKnownHosts`
unfoldable pub load_known_hosts : File → Outcome Loaded
load_known_hosts absent = Outcome.ok (record { entries = []; exists = false })
load_known_hosts unreadable = Outcome.err Failure.storage_error
load_known_hosts malformed = Outcome.err Failure.invalid_json
load_known_hosts (parsed json) = elim (validate_store json) [
  | Outcome.ok entries ↦ Outcome.ok (record { entries = entries; exists = true })
  | Outcome.err e ↦ Outcome.err e
]

-- `persistKnownHosts`: `writable` says whether the write succeeds, the limit on the size included.
unfoldable pub persist_known_hosts : Bool → KnownHosts → File → File
persist_known_hosts writable entries file = if writable then parsed (to_json entries) else file

-- The stored file, and whether a mismatch was reported, beside the verdict.
pub record Verdict : Type 0 where
  pub accepted : Bool
  pub file : File
  pub notified : Bool

abbrev reject : File → Verdict
reject file = record { accepted = false; file = file; notified = false }

unfoldable pub is_valid_input : String → HostKey → Bool
is_valid_input host key =
    is_known_host_id host && key.is_buffer && leb 16 key.length && leb key.length 16384

unfoldable pub first_use : Bool → String → HostKey → KnownHosts → File → Verdict
first_use writable host key entries file =
    if leb max_entries (length entries)
    then reject file
    else if writable
    then record {
      accepted = true;
      file = persist_known_hosts writable (insert host key.digest entries) file;
      notified = false;
    }
    else reject file

unfoldable pub against : Bool → String → HostKey → KnownHosts → File → Bool → Verdict
against writable host key entries file notify = elim (lookup host entries) [
  | none ↦ first_use writable host key entries file
  | some stored ↦
      if stored == key.digest
      then record { accepted = true; file = file; notified = false }
      else record { accepted = false; file = file; notified = notify }
]

-- `verifyHostKey`
unfoldable pub verify_host_key : Bool → String → HostKey → Bool → File → Verdict
unfolding against
verify_host_key writable host key notify file =
    if is_valid_input host key
    then elim (load_known_hosts file) [
      | Outcome.err e ↦ reject file
      | Outcome.ok loaded ↦ against writable host key loaded.entries file notify
    ]
    else reject file

-- `clearKnownHost`: the number of entries removed, and the stored file.
unfoldable pub clear_known_host : Bool → String → File → Outcome (ℕ × File)
unfolding is_known_host_id
clear_known_host writable host file =
    if is_known_host_id host
    then elim (load_known_hosts file) [
      | Outcome.err e ↦ Outcome.err e
      | Outcome.ok loaded ↦
          if loaded.exists && is_some (lookup host loaded.entries)
          then (if writable
              then Outcome.ok (1, persist_known_hosts writable (delete host loaded.entries) file)
              else Outcome.err Failure.storage_error)
          else Outcome.ok (0, file)
    ]
    else Outcome.err Failure.invalid_host_reference

-- One attempt to connect: whether the store can be written, the host, its key, and whether a
-- mismatch is to be reported.
pub record Attempt : Type 0 where
  pub writable : Bool
  pub host : String
  pub key : HostKey
  pub notify : Bool

unfoldable pub attempts : List Attempt → File → File
attempts [] file = file
attempts (a ∷ rest) file =
    attempts rest (verify_host_key a.writable a.host a.key a.notify file).file
