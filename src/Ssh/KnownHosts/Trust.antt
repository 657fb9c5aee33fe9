-- ===== src/Ssh/KnownHosts/Trust.antt =====
-- The keys of a host over many connections (`verifyHostKey` of ssh-known-hosts.ts).
use agent_workflow_platform.Prelude.{
  ◌+◌, ◌<◌, String, Bool, true, false, List, [], ◌∷◌, ◌≡◌, refl, arith, All, length, leb, ltb,
  eq_iff, eq_refl, Bool-cases, inl, inr, ◌==◌, if◌then◌else◌, some, none, Option-cases, ◌&&◌,
}
use agent_workflow_platform.Ssh.KnownHosts.Store.{
  KnownHosts, ok, max_entries, is_hex_64, is_known_host_id, lookup, insert, to_json,
}
use agent_workflow_platform.Ssh.KnownHosts.Schema.{
  IsEntry, IsStore, validate_store-to_json, validate_store-IsStore,
}
use agent_workflow_platform.Ssh.KnownHosts.{
  File, absent, parsed, HostKey, Loaded, load_known_hosts, persist_known_hosts, Verdict,
  is_valid_input, first_use, against, verify_host_key, Attempt, attempts,
}

lookup-insert :
    (k j : String) (v : String) (m : KnownHosts)
    → lookup k m ≡ none
    → lookup j (insert k v m) ≡ (if k == j then some v else lookup j m)
unfolding lookup insert
lookup-insert k j v [] h = refl
lookup-insert k j v ((i, w) ∷ m) h =
    ground (arith, eq_iff k j, eq_iff i k, eq_iff i j, lookup-insert k j v m)

insert-All :
    (k v : String) (m : KnownHosts)
    → All IsEntry m
    → is_hex_64 k ≡ true
    → is_hex_64 v ≡ true
    → All IsEntry (insert k v m)
unfolding insert
insert-All k v [] h p q = ((p, q), tt)
insert-All k v ((j, w) ∷ m) h p q = ground (arith, insert-All k v m h.1)

length-insert :
    (k v : String) (m : KnownHosts) → lookup k m ≡ none → length (insert k v m) ≡ length m + 1
unfolding insert lookup
length-insert k v [] h = omega arith
length-insert k v ((j, w) ∷ m) h = ground (arith, length-insert k v m)

-- The stored file reads as these entries.
abbrev pub Holds : File → KnownHosts → Type 0
Holds file entries =
    (b : Bool) × (load_known_hosts file ≡ ok (record { entries = entries; exists = b }))

loaded-IsStore :
    (file : File) (loaded : Loaded) → load_known_hosts file ≡ ok loaded → IsStore loaded.entries
unfolding load_known_hosts
loaded-IsStore absent loaded e =
    let p : [] ≡ loaded.entries = ground arith in
    rw (← p) (record { well_formed = tt; bounded = omega arith })
loaded-IsStore (parsed json) loaded e = validate_store-IsStore json loaded.entries (ground arith)
loaded-IsStore file loaded e = absurd (ground arith)

-- The host's key is stored as this fingerprint.
pub record IsTrusted (host fingerprint : String) (file : File) : Type 0 where
  pub loaded : Loaded
  pub reads : load_known_hosts file ≡ ok loaded
  pub found : lookup host loaded.entries ≡ some fingerprint

insert-IsStore :
    (host v : String) (m : KnownHosts)
    → is_hex_64 host ≡ true
    → is_hex_64 v ≡ true
    → lookup host m ≡ none
    → length m < max_entries
    → IsStore m
    → IsStore (insert host v m)
insert-IsStore host v m p q new room st = record {
  well_formed = insert-All host v m st.well_formed p q;
  bounded = omega (arith, length-insert host v m new);
}

load-to_json :
    (entries : KnownHosts)
    → IsStore entries
    → load_known_hosts (parsed (to_json entries)) ≡ ok (record { entries = entries; exists = true })
unfolding load_known_hosts
load-to_json entries st = rw (validate_store-to_json entries st, load_known_hosts)

first_use-IsTrusted :
    (writable : Bool) (host : String) (key : HostKey) (loaded : Loaded) (file : File)
    (kept fingerprint : String)
    → is_hex_64 host ≡ true
    → is_hex_64 key.digest ≡ true
    → load_known_hosts file ≡ ok loaded
    → lookup host loaded.entries ≡ none
    → lookup kept loaded.entries ≡ some fingerprint
    → IsTrusted kept fingerprint (first_use writable host key loaded.entries file).file
unfolding first_use persist_known_hosts
first_use-IsTrusted writable host key loaded file kept fingerprint valid hex reads new old =
    let same : IsTrusted kept fingerprint file = record {
      loaded = loaded;
      reads = reads;
      found = old;
    } in
    elim (Bool-cases (leb max_entries (length loaded.entries))) [
      | inl full ↦ rw (full, first_use) same
      | inr room ↦
          rw (room, first_use)
            (elim (Bool-cases writable) [
              | inr stuck ↦ rw (stuck, first_use) same
              | inl writes ↦
                  rw (writes, first_use)
                    (record {
                      loaded = record {
                        entries = insert host key.digest loaded.entries;
                        exists = true;
                      };
                      reads = load-to_json (insert host key.digest loaded.entries) (
                          insert-IsStore host key.digest loaded.entries valid hex new (ground arith)
                            (loaded-IsStore file loaded reads));
                      found = ground (
                        arith,
                        eq_iff host kept,
                        lookup-insert host kept key.digest loaded.entries new,
                      );
                    })
            ])
    ]

-- One verification, of whatever host and key, keeps what is stored for a host.
verify_host_key-IsTrusted :
    (writable : Bool) (host : String) (key : HostKey) (notify : Bool) (file : File)
    (kept fingerprint : String)
    → is_hex_64 key.digest ≡ true
    → IsTrusted kept fingerprint file
    → IsTrusted kept fingerprint (verify_host_key writable host key notify file).file
unfolding verify_host_key
verify_host_key-IsTrusted writable host key notify file kept fingerprint hex t =
    elim (Bool-cases (is_valid_input host key)) [
      | inr bad ↦ rw (bad, verify_host_key) t
      | inl good ↦
          rw (good, t.reads, verify_host_key)
            (elim (Option-cases (lookup host t.loaded.entries)) [
              | inl new ↦
                  rw (new, against)
                    (first_use-IsTrusted writable host key t.loaded file kept fingerprint
                      (unfold is_valid_input is_known_host_id in ground arith) hex t.reads new
                      t.found)
              | inr (stored, old) ↦
                  rw (old, against)
                    (elim (Bool-cases (stored == key.digest)) [
                      | inl same ↦ rw (same, against) t
                      | inr other ↦ rw (other, against) t
                    ])
            ])
    ]

attempts-IsTrusted :
    (kept fingerprint : String) (history : List Attempt) (file : File)
    → All (λ a. is_hex_64 a.key.digest ≡ true) history
    → IsTrusted kept fingerprint file
    → IsTrusted kept fingerprint (attempts history file)
unfolding attempts
attempts-IsTrusted kept fingerprint [] file h t = t
attempts-IsTrusted kept fingerprint (a ∷ rest) file h t =
    attempts-IsTrusted kept fingerprint rest _ h.1
      (verify_host_key-IsTrusted a.writable a.host a.key a.notify file kept fingerprint h.0 t)

verdict_of_IsTrusted :
    (writable : Bool) (host fingerprint : String) (key : HostKey) (notify : Bool) (file : File)
    → is_valid_input host key ≡ true
    → IsTrusted host fingerprint file
    → verify_host_key writable host key notify file ≡ (
        if fingerprint == key.digest
        then record { accepted = true; file = file; notified = false }
        else record { accepted = false; file = file; notified = notify })
unfolding verify_host_key
verdict_of_IsTrusted writable host fingerprint key notify file good t =
    rw (good, t.reads, verify_host_key) (rw (t.found, against))

-- Once a key is stored for a host, and whatever connections to whatever hosts are attempted after
-- that, with writes that succeed or fail, a later key of that host is accepted exactly if its
-- fingerprint is the stored one; otherwise it is refused, which is reported if it is to be, and the
-- stored file stays as it is. The digests are those of a hash: 64 hexadecimal digits.
pub trust_on_first_use :
    (host fingerprint : String) (history : List Attempt) (file : File) (writable : Bool)
    (key : HostKey) (notify : Bool)
    → All (λ a. is_hex_64 a.key.digest ≡ true) history
    → IsTrusted host fingerprint file
    → is_valid_input host key ≡ true
    → verify_host_key writable host key notify (attempts history file) ≡ (
        if fingerprint == key.digest
        then record { accepted = true; file = attempts history file; notified = false }
        else record { accepted = false; file = attempts history file; notified = notify })
trust_on_first_use host fingerprint history file writable key notify hex t good =
    verdict_of_IsTrusted writable host fingerprint key notify (attempts history file) good
      (attempts-IsTrusted host fingerprint history file hex t)

-- What `first_use` answers and what it stores.
abbrev pub IsFirstUse : Bool → String → HostKey → Loaded → File → Verdict → Type 0
IsFirstUse writable host key loaded file v =
    (v.accepted ≡ (writable && ltb (length loaded.entries) max_entries))
    × (if v.accepted then IsTrusted host key.digest v.file else (v.file ≡ file))

first_use-stores :
    (writable : Bool) (host : String) (key : HostKey) (loaded : Loaded) (file : File)
    → is_hex_64 host ≡ true
    → is_hex_64 key.digest ≡ true
    → load_known_hosts file ≡ ok loaded
    → lookup host loaded.entries ≡ none
    → IsFirstUse writable host key loaded file (first_use writable host key loaded.entries file)
unfolding first_use persist_known_hosts
first_use-stores writable host key loaded file valid hex reads new =
    elim (Bool-cases (leb max_entries (length loaded.entries))) [
      | inl full ↦ rw (full, first_use) (ground arith, refl)
      | inr room ↦
          rw (room, first_use)
            (elim (Bool-cases writable) [
              | inr stuck ↦ rw (stuck, first_use) (refl, refl)
              | inl writes ↦
                  rw (writes, first_use)
                    (
                      ground arith,
                      record {
                        loaded = record {
                          entries = insert host key.digest loaded.entries;
                          exists = true;
                        };
                        reads = load-to_json (insert host key.digest loaded.entries) (
                            insert-IsStore host key.digest loaded.entries valid hex new
                              (ground arith) (loaded-IsStore file loaded reads));
                        found = ground (
                          arith,
                          eq_refl host,
                          lookup-insert host host key.digest loaded.entries new,
                        );
                      },
                    )
            ])
    ]

valid_host :
    (host : String) (key : HostKey) → is_valid_input host key ≡ true → is_hex_64 host ≡ true
unfolding is_valid_input is_known_host_id
valid_host host key good = ground arith

-- The first key of a host is accepted exactly if there is room and the store can be written, and
-- then it is the one that is stored; otherwise nothing is stored.
pub first_key :
    (writable : Bool) (host : String) (key : HostKey) (notify : Bool) (file : File)
    (loaded : Loaded)
    → is_valid_input host key ≡ true
    → is_hex_64 key.digest ≡ true
    → load_known_hosts file ≡ ok loaded
    → lookup host loaded.entries ≡ none
    → IsFirstUse writable host key loaded file (verify_host_key writable host key notify file)
unfolding verify_host_key
first_key writable host key notify file loaded good hex reads new =
    rw (good, reads, verify_host_key)
      (rw (new, against)
        (first_use-stores writable host key loaded file (valid_host host key good) hex reads new))
