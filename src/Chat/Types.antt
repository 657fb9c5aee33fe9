-- ===== src/Chat/Types.antt =====
-- The data of the chat store: messages, threads, stream chunks, and what the store asks of others.
-- `undefined` and `null` are one value, `none`. A chunk's field of another type than the one the
-- code tests for is `none` too.
use agent_workflow_platform.Prelude.{ℕ, String, Bool, List, Option}

pub data Role : Type 0 where
  user assistant : Role

pub record TokenUsage : Type 0 where
  pub input_tokens : ℕ
  pub output_tokens : ℕ
  pub total_tokens : ℕ

pub record ChatMessage : Type 0 where
  pub role : Role
  pub content : String
  pub token_usage : Option TokenUsage

pub record TodoItem : Type 0 where
  pub label : String
  pub done : Bool
  pub tool : Option String

pub record ErrorInfo : Type 0 where
  pub code : Option String
  pub message : String

pub record Thread : Type 0 where
  pub id : String
  pub conversation_id : Option String
  pub title : String
  pub messages : List ChatMessage
  pub model : String
  pub created_at : String
  pub updated_at : String
  pub cc_session_id : Option String
  pub is_streaming : Bool
  pub bg_streaming_reply : Option String
  pub bg_session_id : Option String
  pub bg_conv_id : Option String
  pub cc_todo_list : Option (List TodoItem)
  pub cc_status : Option String
  pub stream_started_at : Option ℕ
  pub stream_error_chunk : Option ErrorInfo

-- `choices[0]` of a chunk
pub record Choice : Type 0 where
  pub content : Option String
  pub finish_reason : Option String

pub record Usage : Type 0 where
  pub input_tokens : ℕ
  pub output_tokens : ℕ

pub record Chunk : Type 0 where
  pub type : Option String
  pub delta : Option String
  pub done : Bool
  pub conversation_id : Option String
  pub usage : Option Usage
  pub choice : Option Choice
  pub label : Option String
  pub tool : Option String
  pub target : Option String
  pub cc_session_id : Option String
  pub code : Option String
  pub message : Option String
  pub error : Option String

pub record ChunkSource : Type 0 where
  pub session_id : Option String
  pub conv_id : Option String

pub record UploadedFileRef : Type 0 where
  pub path : String
  pub filename : String
  pub size : ℕ

-- What the store asks of the API client, of the main process and of the toasts.
pub data Effect : Type 0 where
  append_message : String → Role → String → Effect
  patch_conversation : String → String → Effect
  cc_start : String → String → Option String → Effect
  cc_stop : String → Effect
  cc_send_message : String → String → Option (List UploadedFileRef) → Effect
  stream_message :
      String → List ChatMessage → Option String → Option (List UploadedFileRef) → Effect
  close_stream : Effect
  warning : String → Effect

-- What a call takes from its surroundings: a fresh UUID, the date as a text and as a number.
pub record Now : Type 0 where
  pub uuid : String
  pub iso : String
  pub ms : ℕ

-- The texts of the chosen language.
pub record Locale : Type 0 where
  pub welcome_message : String
  pub default_thread_title : String
  pub cc_fell_back_to_adapter : String

-- Which thread a chunk belongs to: the position of the thread in the list, if there is one.
pub record ChunkTarget : Type 0 where
  pub thread : Option ℕ
  pub is_active : Bool
  pub orphan : Bool
