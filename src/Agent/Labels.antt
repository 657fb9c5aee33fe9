-- ===== src/Agent/Labels.antt =====
-- `_toolStatusLabel` of cc-wrapper.ts.
use Prim.Native.Char.{Char, code}
use Prim.Native.String.{[], ◌∷◌}
use agent_workflow_platform.Prelude.{
  String, Bool, true, false, ◌≡◌, refl, ◌||◌, Option, none, some, get_or, ◌==◌, ◌⧺◌, eqb, ltb,
  if◌then◌else◌, truthy, trim, utf16_length, slice_units,
}
use agent_workflow_platform.Agent.Json.{Json, get_in, as_text}

-- the text behind a prefix
unfoldable pub strip_text : String → String → Option String
strip_text [] s = some s
strip_text (c ∷ t) [] = none
strip_text (c ∷ t) (d ∷ s) = if eqb (code c) (code d) then strip_text t s else none

-- behind `[^_]+__`, where `started` says that a unit of the name was read
after_name : Bool → String → Option String
after_name started [] = none
after_name started (c ∷ []) = none
after_name started (c ∷ d ∷ s) =
    let more = after_name true (d ∷ s) in
    if eqb (code c) b'_' then (if started then strip_text "_" (d ∷ s) else none) else more

-- `.replace(/^mcp__[^_]+__(?:[^_]+__)?/, '')`
unfoldable pub strip_server : String → String
unfolding strip_text after_name
strip_server name = elim (strip_text "mcp__" name) [
  | none ↦ name
  | some rest ↦ elim (after_name false rest) [
    | none ↦ name
    | some tool ↦ get_or (after_name false tool) tool
  ]
]

-- `text(key)`
text_of : Option Json → String → String
text_of input key = get_or (as_text (get_in key input)) ""

first_line : String → String
first_line [] = ""
first_line (c ∷ s) = let rest = first_line s in if eqb (code c) 10 then "" else c ∷ rest

-- `head(value)`
head : String → String
unfolding first_line
head value =
    let first = trim (first_line value) in
    if ltb 40 (utf16_length first) then slice_units 40 first ⧺ "..." else first

is_slash : Char → Bool
is_slash c = eqb (code c) 47 || eqb (code c) 92

-- `.replace(/[\\/]+$/, '')`
trim_slashes : String → String
unfolding is_slash
trim_slashes [] = ""
trim_slashes (c ∷ s) =
    let rest = trim_slashes s in if truthy rest then c ∷ rest else if is_slash c then "" else c ∷ ""

-- the part behind the last slash
last_part : String → String → String
unfolding is_slash
last_part part [] = part
last_part part (c ∷ s) =
    let fresh = last_part "" s in
    let same = last_part (part ⧺ (c ∷ "")) s in if is_slash c then fresh else same

-- `base(value)`
base : String → String
unfolding trim_slashes last_part
base value = let part = last_part "" (trim_slashes value) in if truthy part then part else value

-- `a || b`
either_text : String → String → String
either_text a b = if truthy a then a else b

-- the label of a file, where there is one
file_label : String → String → String → String
unfolding base
file_label file what plain = if truthy file then what ⧺ base file else plain

unfoldable pub tool_status_label : String → Option Json → String
unfolding strip_server text_of head base either_text file_label
tool_status_label raw_name input =
    let name = strip_server raw_name in
    let command = either_text (text_of input "command") (text_of input "cmd") in
    let file = either_text (text_of input "path") (text_of input "file_path") in
    if name == "vm_exec" || name == "vm_exec_stream" || name == "Bash"
    then (if truthy command then "Running: " ⧺ head command else "Running command")
    else if name == "vm_write_file" || name == "Write"
    then file_label file "Writing " "Writing file"
    else if name == "vm_read_file" || name == "Read"
    then file_label file "Reading " "Reading file"
    else if name == "Edit" || name == "MultiEdit"
    then file_label (text_of input "file_path") "Editing " "Editing file"
    else if name == "awp_save_artifact"
    then "Saving artifact"
    else if name == "awp_open_file_in_tab"
    then "Opening file"
    else if name == "awp_notify_user"
    then ""
    else if name == "Grep"
    then "Searching code"
    else if name == "Glob"
    then "Finding files"
    else if name == "WebSearch" || name == "WebFetch"
    then "Retrieving information"
    else if name == "TodoWrite"
    then "Updating task list"
    else if name == "Task"
    then "Running subtask"
    else "Working"

label_test : tool_status_label "mcp__vm__vm_exec" none ≡ "Running command"
unfolding tool_status_label as_text get_in
label_test = refl
