-- ===== src/Api/Http.antt =====
-- frontend/src/api/client.ts: requests, responses, and what is thrown.
use virtual_office_sagara_ag.Prelude.{ℕ, String, Bool, Option, List}
use virtual_office_sagara_ag.Prelude.JsMap.{Map}

-- An exception that is no `ApiError`: the `DOMException` of an aborted request, or another one with
-- its message.
pub data Failure : Type 0 where
  aborted : Failure
  failure : String → Failure

-- What an `ApiError` carries as `data`: `null`, a parsed body, the text of a body, the message of
-- what failed, or what failed itself.
pub data ErrorData {ℓ} (J : Type ℓ) : Type ℓ where
  null_data : ErrorData J
  body_json : J → ErrorData J
  body_text : String → ErrorData J
  original_error : String → ErrorData J
  original : Failure → ErrorData J

pub record ApiError {ℓ} (J : Type ℓ) : Type ℓ where
  pub status : ℕ
  pub status_text : String
  pub error_data : ErrorData J

pub data Thrown {ℓ} (J : Type ℓ) : Type ℓ where
  api_error : ApiError J → Thrown J
  other : Failure → Thrown J

-- How an `async` function ends.
pub data Result {ℓ κ} (J : Type ℓ) (A : Type κ) : Type (ℓ ⊔ κ) where
  ok : A → Result J A
  thrown : Thrown J → Result J A

-- The body of a response: JSON, or a text that does not parse, with the message of the parser.
pub data Body {ℓ} (J : Type ℓ) : Type ℓ where
  json : J → Body J
  not_json : (text message : String) → Body J

-- A body can be read once.
pub record Response {ℓ} (J : Type ℓ) : Type ℓ where
  pub status : ℕ
  pub status_text : String
  pub body : Body J
  pub body_used : Bool

pub data Outcome {ℓ} (J : Type ℓ) : Type ℓ where
  response : Response J → Outcome J
  failed : Failure → Outcome J

-- A body that is given: `FormData` or a `Blob`, by its name here, or a value that is made JSON.
pub data RequestBody {ℓ} (B : Type ℓ) : Type ℓ where
  binary : String → RequestBody B
  value : B → RequestBody B

pub record Request {ℓ} (B : Type ℓ) : Type ℓ where
  pub method : String
  pub url : String
  pub headers : Map String
  pub body : Option (RequestBody B)
  pub credentials : Option String

-- `params` has the values as texts, `none` where they are `null` or `undefined`.
pub record RequestOptions {ℓ} (B : Type ℓ) : Type ℓ where
  pub method : String
  pub params : Option (List (String × Option String))
  pub body : Option (RequestBody B)
  pub headers : Map String
  pub credentials : Option String

pub record ApiClient : Type 0 where
  pub base_url : String
  pub default_credentials : Option String
