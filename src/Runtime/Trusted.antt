-- ===== src/Runtime/Trusted.antt =====
-- Which manifests are believed (cc-runtime-updater.ts).
use mathlib.Core.Path.{subst}
use agent_workflow_platform.Prelude.{String, true, ◌≡◌, Option, none, some, map_get, refl, arith}
use agent_workflow_platform.Agent.Config.{Result, ok, failed, and_then, Env}
use agent_workflow_platform.Runtime.Manifest.{Channel, Artifact, Release, parse_signed_manifest}
use agent_workflow_platform.Runtime.Fetch.{
  Bytes, Url, PublicKey, Platform, Response, runtime_manifest_url, parse_pinned_public_key,
  manifest_bytes, envelope_of, checked_signature, with_artifact, validate_artifact_url,
  fetch_latest_version,
}

-- What a chain that gives a value has gone through.
and_then-ok :
    {A B : Type 0} (x : Result A) (f : A → Result B) (b : B)
    → and_then x f ≡ ok b
    → (a : A) × (x ≡ ok a) × (f a ≡ ok b)
unfolding and_then
and_then-ok (failed code) f b h = cc
and_then-ok (ok a) f b h = (a, refl, h)

checked_signature-ok :
    (p : Platform) (key : PublicKey) (signed signature bytes : Bytes)
    → checked_signature p key (signed, signature) ≡ ok bytes
    → (p.verify key bytes signature ≡ true)
unfolding checked_signature
checked_signature-ok p key signed signature bytes h = ground arith

-- A release that was signed with the pinned key, and has an artifact for this machine at an address
-- that the configuration allows.
abbrev pub IsTrusted : Platform → Env → String → Channel → Release → Type 0
IsTrusted p env machine channel r =
    (manifest : Url) × (key : PublicKey) × (signed : Bytes) × (signature : Bytes) × (a : Artifact)
    × (u : Url) × (runtime_manifest_url p env ≡ ok manifest)
    × (parse_pinned_public_key p env ≡ ok key)
    × (p.verify key signed signature ≡ true)
    × (parse_signed_manifest (p.parse_json (p.utf8 signed)) channel ≡ ok r)
    × (map_get machine r.artifacts ≡ some a)
    × (validate_artifact_url p env a.url manifest ≡ ok u)

with_artifact-ok :
    (p : Platform) (env : Env) (manifest : Url) (r release : Release) (found : Option Artifact)
    → with_artifact p env manifest r found ≡ ok release
    → (a : Artifact) × (u : Url) × (found ≡ some a)
      × (validate_artifact_url p env a.url manifest ≡ ok u)
      × (r ≡ release)
unfolding with_artifact
with_artifact-ok p env manifest r release none h = cc
with_artifact-ok p env manifest r release (some a) h =
    let (u, valid, e) =
      and_then-ok (validate_artifact_url p env a.url manifest) (λ u. ok r) release h in
    (a, u, refl, valid, ok-inj e)
  where
    ok-inj : {x y : Release} → ok x ≡ ok y → x ≡ y
    ok-inj e = cc

-- A manifest that is fetched and believed is signed with the pinned key, whatever the server sent: its
-- bytes and a signature pass the check, it is what is read from them for the channel, and its
-- artifact for this machine stands at an address that the configuration allows.
pub fetch_latest_version-IsTrusted :
    (p : Platform) (env : Env) (machine : String) (server : Url → Result Response)
    (channel : Channel) (r : Release)
    → fetch_latest_version p env machine server channel ≡ ok r
    → IsTrusted p env machine channel r
unfolding fetch_latest_version
fetch_latest_version-IsTrusted p env machine server channel r h =
    let (manifest, at, h1) = and_then-ok (runtime_manifest_url p env) _ r h in
    let (key, pinned, h2) = and_then-ok (parse_pinned_public_key p env) _ r h1 in
    let (response, answered, h3) = and_then-ok (server manifest) _ r h2 in
    let (bytes, read, h4) = and_then-ok (manifest_bytes p response) _ r h3 in
    let (envelope, opened, h5) = and_then-ok (envelope_of p (p.utf8 bytes)) _ r h4 in
    let (signed, verified, h6) = and_then-ok (checked_signature p key envelope) _ r h5 in
    let (release, parsed, h7) =
      and_then-ok (parse_signed_manifest (p.parse_json (p.utf8 signed)) channel) _ r h6 in
    let (a, u, got, allowed, e) =
      with_artifact-ok p env manifest release r (map_get machine release.artifacts) h7 in
    let genuine = checked_signature-ok p key envelope.0 envelope.1 signed verified in
    subst (λ x. IsTrusted p env machine channel x) e
      (manifest, key, signed, envelope.1, a, u, at, pinned, genuine, parsed, got, allowed)
