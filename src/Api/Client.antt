-- ===== src/Api/Client.antt =====
-- frontend/src/api/client.ts: the HTTP client. `fetch` is a parameter: what it does with a request is
-- an outcome, a response or an exception. The text of a query string is that of `URLSearchParams`.
pub mod Outcomes
use mathlib.Core.Option
use virtual_office_sagara_ag.Prelude.{
  ℕ, String, Bool, true, false, not, ◌&&◌, Option, none, some, List, [], ◌∷◌, ◌==◌, if◌then◌else◌,
  or_else, or_some, leb, eqb, append_text,
}
use virtual_office_sagara_ag.Prelude.JsMap
use virtual_office_sagara_ag.Prelude.JsMap.{Map}
use virtual_office_sagara_ag.Prelude.Texts.{text_includes, starts_with_slash, strip_slashes}
use virtual_office_sagara_ag.Api.Http.{
  ApiClient, ApiError, Body, ErrorData, Failure, Outcome, Request, RequestBody, RequestOptions,
  Response, Result, Thrown,
}

-- `new ApiClient(config)`; `env_url` is what the environment configures
unfoldable pub new_api_client : Option String → Option String → Option String → ApiClient
new_api_client env_url config_url credentials = record {
  base_url = strip_slashes (or_else config_url (or_else env_url ""));
  default_credentials = credentials;
}

-- the loop that appends the parameters
unfoldable pub present_params : List (String × Option String) → List (String × String)
present_params [] = []
present_params ((key, none) ∷ rest) = present_params rest
present_params ((key, some val) ∷ rest) = (key, val) ∷ present_params rest

unfoldable pub request_url :
    (List (String × String) → String)
    → String
    → String
    → Option (List (String × Option String))
    → String
unfolding present_params
request_url encode_query base_url endpoint params =
    let slash = if starts_with_slash endpoint then "" else "/" in
    let url = append_text base_url (append_text slash endpoint) in
    elim params [
      | none ↦ url
      | some entries ↦
          let query = encode_query (present_params entries) in
          if query == ""
          then url
          else append_text url (append_text (if text_includes url "?" then "&" else "?") query)
    ]

-- `{ Accept: 'application/json', ...headers }`
unfoldable pub spread {ℓ} : {V : Type ℓ} → Map V → Map V → Map V
spread m [] = m
spread m ((key, v) ∷ rest) = spread (JsMap.set m key v) rest

unfoldable pub request_headers {ℓ} : {B : Type ℓ} → Map String → Option (RequestBody B) → Map String
unfolding spread
request_headers headers body =
    let all_headers = spread (("Accept", "application/json") ∷ []) headers in
    elim body [
      | none ↦ all_headers
      | some given ↦ elim given [
        | RequestBody.binary _ ↦ all_headers
        | RequestBody.value _ ↦ JsMap.set all_headers "Content-Type" "application/json"
      ]
    ]

unfoldable pub build_request {ℓ} :
    {B : Type ℓ}
    → (List (String × String) → String)
    → ApiClient
    → String
    → RequestOptions B
    → Request B
unfolding request_url request_headers
build_request encode_query client endpoint options = record {
  method = options.method;
  url = request_url encode_query client.base_url endpoint options.params;
  headers = request_headers options.headers options.body;
  body = options.body;
  credentials = or_some options.credentials client.default_credentials;
}

-- What a read of a body gives: a value, or the message of the exception.
pub data Reading {ℓ} (A : Type ℓ) : Type ℓ where
  got : A → Reading A
  raised : String → Reading A

abbrev pub body_used_message : String
body_used_message = "Body is unusable: Body has already been read"

-- `response.ok`
abbrev pub is_ok : ℕ → Bool
is_ok status = leb 200 status && leb status 299

module _ {ℓ} {J : Type ℓ} where
  abbrev use_body : Response J → Response J
  use_body r = record r { body_used = true }

  -- `response.json()`
  unfoldable pub read_json : Response J → Response J × Reading J
  read_json r = if r.body_used then (r, Reading.raised body_used_message) else elim r.body [
    | Body.json j ↦ (use_body r, Reading.got j)
    | Body.not_json _ message ↦ (use_body r, Reading.raised message)
  ]

  -- `response.text()`; the text of a JSON body is printed by `print`
  unfoldable pub read_text : (J → String) → Response J → Response J × Reading String
  read_text print r = if r.body_used then (r, Reading.raised body_used_message) else elim r.body [
    | Body.json j ↦ (use_body r, Reading.got (print j))
    | Body.not_json text _ ↦ (use_body r, Reading.got text)
  ]

  -- `errorData`: the JSON of the body, and where that throws, its text
  unfoldable pub read_error_data : (J → String) → Response J → Reading (ErrorData J)
  unfolding read_json read_text
  read_error_data print r =
      let (r', parsed) = read_json r in
      elim parsed [
        | Reading.got j ↦ Reading.got (ErrorData.body_json j)
        | Reading.raised _ ↦ elim (read_text print r').1 [
          | Reading.got text ↦ Reading.got (ErrorData.body_text text)
          | Reading.raised message ↦ Reading.raised message
        ]
      ]

  -- The `try` block after `fetch`; `ok none` is `undefined`.
  unfoldable pub receive : (J → String) → Response J → Result J (Option J)
  unfolding read_error_data read_json
  receive print r =
      if not (is_ok r.status)
      then elim (read_error_data print r) [
        | Reading.got error_data ↦ Result.thrown (
            Thrown.api_error
              (record { status = r.status; status_text = r.status_text; error_data = error_data }))
        | Reading.raised message ↦ Result.thrown (Thrown.other (Failure.failure message))
      ]
      else if eqb r.status 204
      then Result.ok none
      else elim (read_json r).1 [
        | Reading.got j ↦ Result.ok (some j)
        | Reading.raised message ↦ Result.thrown (Thrown.other (Failure.failure message))
      ]

  -- The `catch` block.
  unfoldable pub rethrow {κ} : {A : Type κ} → Thrown J → Result J A
  rethrow (Thrown.api_error e) = Result.thrown (Thrown.api_error e)
  rethrow (Thrown.other Failure.aborted) = Result.thrown (Thrown.other Failure.aborted)
  rethrow (Thrown.other (Failure.failure message)) = Result.thrown (
      Thrown.api_error (record {
        status = 0;
        status_text = "Network / Connection Failed";
        error_data = ErrorData.original_error message;
      }))

  unfoldable pub catch {κ} : {A : Type κ} → Result J A → Result J A
  unfolding rethrow
  catch (Result.ok a) = Result.ok a
  catch (Result.thrown e) = rethrow e

  -- `request`, after the request is built
  unfoldable pub handle_outcome : (J → String) → Outcome J → Result J (Option J)
  unfolding receive catch
  handle_outcome print (Outcome.response r) = catch (receive print r)
  handle_outcome print (Outcome.failed e) = catch (Result.thrown (Thrown.other e))

-- `request`
unfoldable pub request {ℓ κ} :
    {B : Type ℓ} {J : Type κ}
    → (List (String × String) → String)
    → (J → String)
    → (Request B → Outcome J)
    → ApiClient
    → String
    → RequestOptions B
    → Result J (Option J)
unfolding build_request handle_outcome
request encode_query print fetch client endpoint options =
    handle_outcome print (fetch (build_request encode_query client endpoint options))

-- `get`, `post`, `patch` and `delete` set the method and the body.
abbrev pub get_options {ℓ} :
    {B : Type ℓ} → Option (List (String × Option String)) → RequestOptions B
get_options params = record {
  method = "GET";
  params = params;
  body = none;
  headers = [];
  credentials = none;
}

abbrev pub post_options {ℓ} : {B : Type ℓ} → Option B → Map String → RequestOptions B
post_options body headers = record {
  method = "POST";
  params = none;
  body = Option.map RequestBody.value body;
  headers = headers;
  credentials = none;
}

abbrev pub patch_options {ℓ} : {B : Type ℓ} → B → RequestOptions B
patch_options body = record {
  method = "PATCH";
  params = none;
  body = some (RequestBody.value body);
  headers = [];
  credentials = none;
}

abbrev pub delete_options {ℓ} : {B : Type ℓ} → RequestOptions B
delete_options = record {
  method = "DELETE";
  params = none;
  body = none;
  headers = [];
  credentials = none;
}
