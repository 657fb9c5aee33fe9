-- ===== src/Ssh/Tests.antt =====
-- The theorems on the known hosts at concrete stores.
use agent_workflow_platform.Prelude.{String, true, false, List, [], ◌∷◌, ◌≡◌, refl, arith}
use agent_workflow_platform.Ssh.KnownHosts.{
  KnownHosts, Outcome, is_hex_64, is_known_host_id, lookup, validate_store, to_json, parsed, absent,
  HostKey, load_known_hosts, is_valid_input, Attempt, attempts, verify_host_key,
}
use agent_workflow_platform.Ssh.KnownHosts.Schema.{IsStore, validate_store-to_json}
use agent_workflow_platform.Ssh.KnownHosts.Trust.{
  IsTrusted, trust_on_first_use, IsFirstUse, first_key,
}

abbrev host : String
host = "aaaaaaaaaaaaaaaaaaaaaaaaaaaaaaaaaaaaaaaaaaaaaaaaaaaaaaaaaaaaaaaa"

abbrev other_host : String
other_host = "0000000000000000000000000000000000000000000000000000000000000000"

abbrev fingerprint : String
fingerprint = "0123456789abcdef0123456789abcdef0123456789abcdef0123456789abcdef"

abbrev stored : KnownHosts
stored = (host, fingerprint) ∷ []

abbrev key : String → HostKey
key digest = record { is_buffer = true; length = 256; digest = digest }

abbrev history : List Attempt
history = record { writable = true; host = other_host; key = key host; notify = true } ∷ []

stored-IsStore : IsStore stored
stored-IsStore = record {
  well_formed = unfold is_hex_64 in ((refl, refl), tt);
  bounded = omega arith;
}

validate_store-to_json_example : validate_store (to_json stored) ≡ Outcome.ok stored
validate_store-to_json_example = validate_store-to_json stored stored-IsStore

stored-IsTrusted : IsTrusted host fingerprint (parsed (to_json stored))
unfolding load_known_hosts
stored-IsTrusted = record {
  loaded = record { entries = stored; exists = true };
  reads = rw (load_known_hosts, validate_store-to_json stored stored-IsStore) refl;
  found = unfold lookup in refl;
}

-- Another key of the host is refused.
trust_on_first_use_example :
    verify_host_key true host (key other_host) true (attempts history (parsed (to_json stored)))
    ≡ record {
      accepted = false;
      file = attempts history (parsed (to_json stored));
      notified = true;
    }
trust_on_first_use_example =
    trust_on_first_use host fingerprint history (parsed (to_json stored)) true (key other_host) true
      (unfold is_hex_64 in (refl, tt)) stored-IsTrusted
      (unfold is_valid_input is_known_host_id is_hex_64 in refl)

first_key_example :
    IsFirstUse true host
      (key fingerprint)
      (record { entries = []; exists = false })
      absent
      (verify_host_key true host (key fingerprint) false absent)
first_key_example =
    first_key true host (key fingerprint) false absent (record { entries = []; exists = false })
      (unfold is_valid_input is_known_host_id is_hex_64 in refl) (unfold is_hex_64 in refl)
      (unfold load_known_hosts in refl) (unfold lookup in refl)
