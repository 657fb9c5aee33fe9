-- ===== src/Runtime/Tests.antt =====
-- A fetch and an update at concrete values.
use agent_workflow_platform.Prelude.{
  ℕ, String, Bool, true, false, [], ◌∷◌, none, some, ◌≡◌, refl, ◌==◌, if◌then◌else◌, eqb, trim,
  slice_units,
}
use agent_workflow_platform.Agent.Json.{Json, str, obj, field, end}
use agent_workflow_platform.Agent.Config.{Env, ok, Result}
use agent_workflow_platform.Runtime.Manifest.{stable, Release}
use agent_workflow_platform.Runtime.Fetch.{
  Bytes, Url, PublicKey, Platform, Response, fetch_latest_version,
}
use agent_workflow_platform.Runtime.Trusted.{IsTrusted, fetch_latest_version-IsTrusted}
use agent_workflow_platform.Runtime.State.{idle, Updater, Machine}
use agent_workflow_platform.Runtime.Update.{check_and_update}
use agent_workflow_platform.Runtime.Sound.{IsSound, check_and_update-IsSound}

abbrev hash : String
hash = "0123456789abcdef0123456789abcdef0123456789abcdef0123456789abcdef"

abbrev manifest : Json
manifest = obj (
    field "version" (str "1.2.3") (
      field "channel" (str "stable") (
        field "artifacts"
          (obj (
            field "linux-x64"
              (obj (
                field "kind" (str "executable")
                  (field "url" (str "https://a.example/runtime") (field "sha256" (str hash) end))))
              end))
          end)))

abbrev envelope : Json
envelope = obj (field "signed" (str "AAAA") (field "signature" (str "BBBB") end))

-- the bytes 1 are the manifest, 2 the signature, 3 the key, and 4 the envelope
abbrev platform : Platform
platform = record {
  parse_url = λ s. some (record {
    href = s;
    protocol = "https:";
    username = "";
    password = "";
    hash = "";
    origin = "https://a.example";
  });
  parse_json = λ s. if s == "4" then some envelope else some manifest;
  text_of = λ v. "";
  decode = λ s. (if s == "AAAA" then 1 else if s == "BBBB" then 2 else 3) ∷ [];
  utf8 = text;
  safe_size = λ s. none;
  key_of_pem = λ s. none;
  key_of_der = λ der. some (record { is_ed25519 = true; material = der });
  verify = signed_by;
}
  where
    text : Bytes → String
    text [] = ""
    text (b ∷ bytes) = if eqb b 4 then "4" else "1"

    signed_by : PublicKey → Bytes → Bytes → Bool
    signed_by key signed [] = false
    signed_by key signed (b ∷ signature) = eqb b 2

abbrev environment : Env
environment key =
    if key == "AWP_AGENT_RUNTIME_MANIFEST_URL"
    then some "https://a.example/manifest"
    else if key == "AWP_AGENT_RUNTIME_PUBLIC_KEY"
    then some "CCCC"
    else none

abbrev sends : ℕ → Url → Result Response
sends b url =
    ok
      (record { is_ok = true; status = 200; content_length = none; body = some (ok (b ∷ []) ∷ []) })

abbrev release : Release
release = record {
  version = "1.2.3";
  channel = stable;
  min_desktop_version = none;
  artifacts =
      ("linux-x64", record { url = "https://a.example/runtime"; sha256 = hash; bytes = none }) ∷ [];
}

believed : fetch_latest_version platform environment "linux-x64" (sends 4) stable ≡ ok release
unfolding fetch_latest_version trim
believed = refl

fetch_latest_version-IsTrusted_example : IsTrusted platform environment "linux-x64" stable release
fetch_latest_version-IsTrusted_example =
    fetch_latest_version-IsTrusted platform environment "linux-x64" (sends 4) stable release
      believed

abbrev machine : Machine
machine = record {
  platform = platform;
  env = environment;
  platform_key = "linux-x64";
  desktop_version = "1.0.0";
  external = none;
  sha256 = λ bytes. hash;
  text_hash = λ s. "id";
  manifest_server = sends 4;
  artifact_server = sends 9;
  removable = λ name. true;
  meta_error = none;
  disk_error = none;
  now = 1000;
}

abbrev fresh : Updater
fresh = record {
  updating = false;
  progress = record {
    stage = idle;
    bytes_downloaded = 0;
    bytes_total = 0;
    version = none;
    error = none;
  };
  verified = none;
  meta = none;
  dirs = [];
}

installed : (check_and_update machine false fresh).0.new ≡ some "1.2.3"
unfolding check_and_update trim fetch_latest_version slice_units
installed = refl

check_and_update-IsSound_example : IsSound machine fresh (check_and_update machine false fresh).1
check_and_update-IsSound_example = check_and_update-IsSound machine false fresh
