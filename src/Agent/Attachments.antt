-- ===== src/Agent/Attachments.antt =====
-- The attachments of a message (`_uploadIdFromRef`, `_readRemoteAttachment`,
-- `_fetchAttachmentBytes`, `_buildAttachmentBlocks` of cc-wrapper.ts). The file system, the server,
-- the URL parser and the encodings are parameters; bytes are numbers.
pub mod Bytes
use Prim.Native.Char.{Char, code}
use Prim.Native.String
use agent_workflow_platform.Prelude.{
  ℕ, zero, suc, ◌+◌, String, Bool, true, false, ◌&&◌, ◌||◌, not, List, [], ◌∷◌, ◌++◌, Option, none,
  some, get_or, ◌==◌, ◌⧺◌, if◌then◌else◌, eqb, leb, ltb, any, truthy, trim, length, decimal,
}
use agent_workflow_platform.Agent.Session.{ContentBlock, text_block, document_block, image_block}
use agent_workflow_platform.Agent.Config.{Env, env_text, opted_in}

pub record AttachmentRef : Type 0 where
  pub path : Option String
  pub filename : Option String
  pub sandbox_relpath : Option String

abbrev pub max_attachment_bytes : ℕ
max_attachment_bytes = 26214400

abbrev pub Bytes : Type 0
Bytes = List ℕ

is_slash : Char → Bool
is_slash c = eqb (code c) 47 || eqb (code c) 92

-- `split(/[\\/]/).pop()`
unfoldable pub last_segment : String → String → String
unfolding is_slash
last_segment part String.[] = part
last_segment part (String.◌∷◌ c s) =
    let fresh = last_segment "" s in
    let same = last_segment (part ⧺ String.◌∷◌ c "") s in if is_slash c then fresh else same

is_alphanumeric : ℕ → Bool
is_alphanumeric c =
    (leb b'A' c && leb c b'Z') || (leb b'a' c && leb c b'z') || (leb b'0' c && leb c b'9')

-- the letters and digits in front of the first underscore, where nothing else is in front of it
id_run : String → String → Option String
unfolding is_alphanumeric
id_run run String.[] = none
id_run run (String.◌∷◌ c s) =
    let more = id_run (run ⧺ String.◌∷◌ c "") s in
    if eqb (code c) b'_' then some run else if is_alphanumeric (code c) then more else none

text_length : String → ℕ
text_length String.[] = 0
text_length (String.◌∷◌ c s) = suc (text_length s)

either : Option String → Option String → String
either a b = if truthy (get_or a "") then get_or a "" else get_or b ""

-- `_uploadIdFromRef`: `/^([A-Za-z0-9]{6,32})_/` on the last part of the path
unfoldable pub upload_id_from_ref : AttachmentRef → Option String
unfolding last_segment id_run text_length either
upload_id_from_ref ref = elim (id_run "" (last_segment "" (either ref.path ref.sandbox_relpath))) [
  | none ↦ none
  | some run ↦ if leb 6 (text_length run) && leb (text_length run) 32 then some run else none
]

-- The loop of the reader; it is cancelled where the bytes are too many.
unfoldable pub read_chunks : List Bytes → Bytes → Option Bytes
read_chunks [] read = some read
read_chunks (chunk ∷ rest) read =
    let more = read_chunks rest (read ++ chunk) in
    if ltb max_attachment_bytes (length (read ++ chunk)) then none else more

nonempty : Option Bytes → Option Bytes
nonempty none = none
nonempty (some []) = none
nonempty (some (b ∷ bs)) = some (b ∷ bs)

-- The header with the length: it is missing or empty, a safe integer from 0 on, or neither.
pub data ContentLength : Type 0 where
  absent invalid : ContentLength
  declared : ℕ → ContentLength

unfoldable pub acceptable : ContentLength → Bool
acceptable absent = true
acceptable invalid = false
acceptable (declared n) = leb n max_attachment_bytes

-- `_readRemoteAttachment`, from the chunks of the body, where there is one
unfoldable pub read_remote_attachment : ContentLength → Option (List Bytes) → Option Bytes
unfolding acceptable read_chunks nonempty
read_remote_attachment header none = none
read_remote_attachment header (some chunks) =
    if acceptable header then nonempty (read_chunks chunks []) else none

-- What the file system says of a path: it throws, or there is something, with its bytes, where
-- reading them does not throw.
pub data LocalFile : Type 0 where
  unreadable : LocalFile
  entry : (is_file is_symbolic_link : Bool) (size : ℕ) (bytes : Option Bytes) → LocalFile

-- What `try` gives: a result, or nothing, so that the code goes on behind it.
pub data Attempt : Type 0 where
  answered : Option Bytes → Attempt
  goes_on : Attempt

read_local : LocalFile → Attempt
read_local unreadable = goes_on
read_local (entry is_file is_link size bytes) =
    if not is_file || is_link || ltb max_attachment_bytes size then answered none else elim bytes [
      | none ↦ goes_on
      | some b ↦ answered (if leb (length b) max_attachment_bytes then some b else none)
    ]

-- A parsed URL.
pub record Address : Type 0 where
  pub protocol : String
  pub hostname : String
  pub username : String
  pub password : String

-- A request, with the address and the token.
pub record AttachmentRequest : Type 0 where
  pub address : Address
  pub bearer : Option String

-- What is around a message: the environment, the files, the parser of the address that the template
-- gives for an id, and the answers of the server, `none` where the request fails.
pub record Outside : Type 0 where
  pub env : Env
  pub is_absolute : String → Bool
  pub file : String → LocalFile
  pub has_placeholder : String → Bool
  pub address : String → String → Option Address
  pub answer : AttachmentRequest → Option (ContentLength × Option (List Bytes))

unfoldable pub is_loopback : String → Bool
is_loopback host = host == "localhost" || host == "127.0.0.1" || host == "[::1]"

-- the checks of the address
unfoldable pub is_allowed : Address → Bool
unfolding is_loopback
is_allowed a =
    (a.protocol == "https:" || (a.protocol == "http:" && is_loopback a.hostname))
    && not (truthy a.username || truthy a.password)

-- the request for an attachment, where one is made
unfoldable pub attachment_request : Outside → AttachmentRef → Option AttachmentRequest
unfolding upload_id_from_ref env_text opted_in is_allowed
attachment_request o ref = elim (upload_id_from_ref ref) [
  | none ↦ none
  | some id ↦
      let template = env_text o.env "AWP_AGENT_ATTACHMENT_URL_TEMPLATE" in
      if truthy template
        && (opted_in o.env "AWP_AGENT_REMOTE_API_OPT_IN" && o.has_placeholder template)
      then elim (o.address template id) [
        | none ↦ none
        | some a ↦
            let token = env_text o.env "AWP_AGENT_ATTACHMENT_BEARER_TOKEN" in
            if is_allowed a
            then some (record { address = a; bearer = if truthy token then some token else none })
            else none
      ]
      else none
]

fetch_remote : Outside → AttachmentRef → Option Bytes
unfolding attachment_request read_remote_attachment
fetch_remote o ref = elim (attachment_request o ref) [
  | none ↦ none
  | some request ↦ elim (o.answer request) [
    | none ↦ none
    | some (header, body) ↦ read_remote_attachment header body
  ]
]

local_attempt : Outside → AttachmentRef → Attempt
unfolding read_local
local_attempt o ref =
    let candidate = trim (get_or ref.path "") in
    if truthy candidate && o.is_absolute candidate then read_local (o.file candidate) else goes_on

unfoldable pub fetch_attachment_bytes : Outside → AttachmentRef → Option Bytes
unfolding local_attempt fetch_remote
fetch_attachment_bytes o ref = elim (local_attempt o ref) [
  | answered result ↦ result
  | goes_on ↦ fetch_remote o ref
]

-- What turns bytes into texts, and `path.extname` in small letters.
pub record Encodings : Type 0 where
  pub extension : String → String
  pub base64 : Bytes → String
  pub utf8 : Bytes → String

-- `IMAGE_EXT`
unfoldable pub image_type : String → Option String
image_type ext =
    if ext == ".png"
    then some "image/png"
    else if ext == ".jpg" || ext == ".jpeg"
    then some "image/jpeg"
    else if ext == ".gif"
    then some "image/gif"
    else if ext == ".webp"
    then some "image/webp"
    else none

-- `TEXT_EXT`
abbrev text_extensions : List String
text_extensions =
    ".txt" ∷ ".md" ∷ ".log" ∷ ".json" ∷ ".yaml" ∷ ".yml" ∷ ".csv" ∷ ".tsv" ∷ ".py" ∷ ".tex" ∷ ".svg"
    ∷ ".html" ∷ ".css" ∷ ".js" ∷ ".ts" ∷ ".tsx" ∷ ".vue" ∷ ".xml" ∷ []

-- the name that is shown
unfoldable pub attachment_name : AttachmentRef → String
unfolding last_segment
attachment_name ref =
    let given = get_or ref.filename "" in
    let part = last_segment "" (get_or ref.path "") in
    if truthy given then given else if truthy part then part else "file"

-- the block of the bytes that were read
unfoldable pub bytes_block : Encodings → String → Bytes → ContentBlock
unfolding image_type
bytes_block x name bytes =
    let ext = x.extension name in
    if ext == ".pdf"
    then document_block "application/pdf" (x.base64 bytes)
    else elim (image_type ext) [
      | some media ↦ image_block media (x.base64 bytes)
      | none ↦
          if any (λ t. t == ext) text_extensions
          then text_block
              ("<attached_file name=\"" ⧺ name ⧺ "\">\n" ⧺ x.utf8 bytes ⧺ "\n</attached_file>")
          else text_block
              ("[Attached binary file: " ⧺ name ⧺ " (" ⧺ decimal (length bytes) ⧺ " bytes)]")
    ]

unfoldable pub attachment_block : Outside → Encodings → AttachmentRef → ContentBlock
unfolding attachment_name fetch_attachment_bytes bytes_block
attachment_block o x ref =
    let name = attachment_name ref in
    elim (fetch_attachment_bytes o ref) [
      | none ↦ text_block ("[Attachment unavailable: " ⧺ name ⧺ "]")
      | some bytes ↦ bytes_block x name bytes
    ]

-- `_buildAttachmentBlocks`
unfoldable pub build_attachment_blocks :
    Outside → Encodings → List AttachmentRef → List ContentBlock
unfolding attachment_block
build_attachment_blocks o x [] = []
build_attachment_blocks o x (ref ∷ refs) =
    attachment_block o x ref ∷ build_attachment_blocks o x refs
