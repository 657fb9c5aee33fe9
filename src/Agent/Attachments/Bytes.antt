-- ===== src/Agent/Attachments/Bytes.antt =====
-- What is read of an attachment, and from where (cc-wrapper.ts).
use mathlib.Core.Path.{subst}
use agent_workflow_platform.Prelude.{
  none≢some, String, ◌⊎◌, get_or, eq_iff, ◌≤◌, ◌<◌, Bool, true, false, ◌&&◌, ◌||◌, not, List, [],
  ◌∷◌, ◌++◌, none, some, ◌≡◌, refl, ◌∙◌, ap, arith, append_assoc, append-nil, if◌then◌else◌,
  Bool-cases, Option-cases, inl, inr, leb, ltb, length, length-append, truthy, ◌==◌,
}
use agent_workflow_platform.Sse.Framing.Pieces.{join}
use agent_workflow_platform.Agent.Config.{env_text, opted_in}
use agent_workflow_platform.Agent.Attachments.{
  Bytes, max_attachment_bytes, read_chunks, nonempty, ContentLength, acceptable,
  read_remote_attachment, AttachmentRef, Outside, attachment_request, AttachmentRequest,
  upload_id_from_ref, is_allowed, is_loopback, Address,
}

read_chunks-join :
    (chunks : List Bytes) (read : Bytes)
    → length read ≤ max_attachment_bytes
    → read_chunks chunks read ≡ (
        if leb (length (read ++ join chunks)) max_attachment_bytes
        then some (read ++ join chunks)
        else none)
unfolding read_chunks
read_chunks-join [] read h =
    let fits : leb (length read) max_attachment_bytes ≡ true = ground arith in
    rw (append-nil read, fits) refl
read_chunks-join (chunk ∷ rest) read h =
    elim (Bool-cases (ltb max_attachment_bytes (length (read ++ chunk)))) [
      | inl big ↦
          let over : max_attachment_bytes < length (read ++ chunk) = ground (arith, big) in
          let more : leb (length (read ++ (chunk ++ join rest))) max_attachment_bytes ≡ false =
            ground (
              arith,
              over,
              length-append read (chunk ++ join rest),
              length-append chunk (join rest),
              length-append read chunk,
            ) in
          rw (big, more) refl
      | inr fits ↦ rw fits (
          read_chunks-join rest (read ++ chunk) (ground (arith, fits))
          ∙ ap (λ b. if leb (length b) max_attachment_bytes then some b else none)
              (append_assoc read chunk (join rest)))
    ]

nonempty-if :
    (b : Bool) (bytes : Bytes)
    → nonempty (if b then some bytes else none)
      ≡ (if ltb 0 (length bytes) && b then some bytes else none)
unfolding nonempty
nonempty-if true [] = refl
nonempty-if true (x ∷ bytes) = let t : ltb 0 (length (x ∷ bytes)) ≡ true = ground arith in rw t refl
nonempty-if false [] = refl
nonempty-if false (x ∷ bytes) =
    let t : ltb 0 (length (x ∷ bytes)) ≡ true = ground arith in rw t refl

-- Where the declared length is acceptable, the bytes of an attachment are those of all chunks of the
-- body together, if these are at least one byte and at most 26,214,400; otherwise there are none.
pub read_remote_attachment_lem :
    (header : ContentLength) (chunks : List Bytes)
    → acceptable header ≡ true
    → read_remote_attachment header (some chunks) ≡ (
        if ltb 0 (length (join chunks)) && leb (length (join chunks)) max_attachment_bytes
        then some (join chunks)
        else none)
unfolding read_remote_attachment
read_remote_attachment_lem header chunks h =
    rw (h, read_remote_attachment)
      (ap nonempty (read_chunks-join chunks [] (omega arith))
        ∙ nonempty-if (leb (length (join chunks)) max_attachment_bytes) (join chunks))

and-true : (a b : Bool) → (a && b) ≡ true → (a ≡ true) × (b ≡ true)
and-true true b h = (refl, h)
and-true false b h = cc

or-true : (a b : Bool) → (a || b) ≡ true → (a ≡ true) ⊎ (b ≡ true)
or-true true b h = inl refl
or-true false b h = inr h

not-true : (a b : Bool) → not (a || b) ≡ true → (a ≡ false) × (b ≡ false)
not-true true b h = cc
not-true false true h = cc
not-true false false h = (refl, refl)

empty : (s : String) → truthy s ≡ false → s ≡ ""
empty String.[] h = refl
empty (String.◌∷◌ c s) h = cc

-- What the checks of an address mean.
IsPlain : Address → Type 0
IsPlain a =
    (a.protocol ≡ "https:" ⊎ ((a.protocol ≡ "http:") × (is_loopback a.hostname ≡ true)))
    × (a.username ≡ "")
    × (a.password ≡ "")

is_allowed-IsPlain : (a : Address) → is_allowed a ≡ true → IsPlain a
unfolding is_allowed IsPlain
is_allowed-IsPlain a h =
    let (scheme, clean) =
      and-true (a.protocol == "https:" || (a.protocol == "http:" && is_loopback a.hostname))
        (not (truthy a.username || truthy a.password)) h in
    let (u, p) = not-true (truthy a.username) (truthy a.password) clean in
    (
      elim (or-true (a.protocol == "https:") (a.protocol == "http:" && is_loopback a.hostname)
          scheme) [
            | inl https ↦ inl ((eq_iff a.protocol "https:").0 https)
            | inr http ↦
                (let (plain, loopback) =
                    and-true (a.protocol == "http:") (is_loopback a.hostname) http in
                  inr ((eq_iff a.protocol "http:").0 plain, loopback))
          ],
      empty a.username u,
      empty a.password p,
    )

-- A request for an attachment is only made with the consent to remote calls, for an upload, to an
-- address that is https, or http on the own machine, and that has no user name and no password.
pub attachment_request-IsAllowed :
    (o : Outside) (ref : AttachmentRef) (request : AttachmentRequest)
    → attachment_request o ref ≡ some request
    → (opted_in o.env "AWP_AGENT_REMOTE_API_OPT_IN" ≡ true)
      × ((id : String) × (upload_id_from_ref ref ≡ some id))
      × (request.address.protocol ≡ "https:"
          ⊎ ((request.address.protocol ≡ "http:") × (is_loopback request.address.hostname ≡ true)))
      × (request.address.username ≡ "")
      × (request.address.password ≡ "")
unfolding attachment_request IsPlain
attachment_request-IsAllowed o ref request e = elim (Option-cases (upload_id_from_ref ref)) [
  | inl n ↦ (let r = rw (n, attachment_request) at e in absurd (none≢some r))
  | inr (id, f) ↦
      let template = env_text o.env "AWP_AGENT_ATTACHMENT_URL_TEMPLATE" in
      let consent = opted_in o.env "AWP_AGENT_REMOTE_API_OPT_IN" in
      elim (Bool-cases (truthy template && (consent && o.has_placeholder template))) [
        | inr n ↦ (let r = rw (f, n, attachment_request) at e in absurd (none≢some r))
        | inl g ↦
            let (given, both) =
              and-true (truthy template) (consent && o.has_placeholder template) g in
            let (consents, placeholder) = and-true consent (o.has_placeholder template) both in
            elim (Option-cases (o.address template id)) [
              | inl n ↦ (let r = rw (f, g, n, attachment_request) at e in absurd (none≢some r))
              | inr (a, k) ↦ elim (Bool-cases (is_allowed a)) [
                | inr n ↦ (let r = rw (f, g, k, n, attachment_request) at e in absurd (none≢some r))
                | inl fine ↦
                    let r = rw (f, g, k, fine, attachment_request) at e in
                    let same : a ≡ request.address = ap (λ q. (get_or q request).address) r in
                    let plain = subst (λ x. IsPlain x) same (is_allowed-IsPlain a fine) in
                    (consents, (id, f), plain.0, plain.1, plain.2)
              ]
            ]
      ]
]
