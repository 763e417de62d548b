-- ===== src/Api.antt =====
-- What the program reads of the OpenAI client library's requests and responses, and the metadata
-- of internal/types/types.go. The text of a message, of a response and of a chunk stays opaque.
use resillm.Common.{String, Bool, List, ℤ, FloatOps}

pub record Message : Type 0 where
  pub role : String
  pub content : String

pub record ChatRequest (F : FloatOps) : Type 0 where
  pub model : String
  pub messages : List Message
  pub max_tokens : ℤ
  pub temperature : F.Float
  pub top_p : F.Float
  pub stream : Bool

pub record Usage : Type 0 where
  pub prompt_tokens : ℤ
  pub completion_tokens : ℤ
  pub total_tokens : ℤ

pub record ChatResponse : Type 0 where
  pub body : String
  pub usage : Usage

pub record ExecutionMeta (F : FloatOps) : Type 0 where
  pub provider : String
  pub actual_model : String
  pub retries : ℤ
  pub fallback : Bool
  pub cost : F.Float
