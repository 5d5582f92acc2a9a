-- ===== src/Api/Client/Outcomes.antt =====
-- What a caller of the client learns from the outcome of `fetch`.
use virtual_office_sagara_ag.Prelude.{
  ◌≡◌, ◌≢◌, ◌⊎◌, inl, inr, refl, String, true, false, Option, none, some, List, arith, Bool-cases,
  if_cases, not, eqb,
}
use virtual_office_sagara_ag.Api.Client.{
  Reading, read_json, read_text, catch, is_ok, body_used_message, build_request, handle_outcome,
  receive, request,
}
use virtual_office_sagara_ag.Api.Http.{
  Failure, ErrorData, ApiError, Thrown, Result, Body, Response, Outcome, Request, RequestOptions,
  ApiClient,
}

-- What an outcome must have been, from what the caller got: a value is the JSON of a successful
-- response, `undefined` comes of the status 204, an error with a status is that of a response with JSON,
-- and another exception than an `ApiError` is an abort.
pub record IsFaithful {ℓ} {J : Type ℓ} (o : Outcome J) (result : Result J (Option J)) : Type ℓ where
  pub returned :
      (j : J)
      → result ≡ Result.ok (some j)
      → (r : Response J) × (o ≡ Outcome.response r)
        × (is_ok r.status ≡ true)
        × (r.body ≡ Body.json j)
  pub empty :
      result ≡ Result.ok none → (r : Response J) × (o ≡ Outcome.response r) × (r.status ≡ 204)
  pub refused :
      (e : ApiError J)
      → result ≡ Result.thrown (Thrown.api_error e)
      → e.status ≢ 0
      → (r : Response J) × (j : J) × (o ≡ Outcome.response r)
        × (is_ok r.status ≡ false)
        × (e.status ≡ r.status)
        × (r.body ≡ Body.json j)
        × (e.error_data ≡ ErrorData.body_json j)
  pub excepted :
      (f : Failure)
      → result ≡ Result.thrown (Thrown.other f)
      → (f ≡ Failure.aborted) × (o ≡ Outcome.failed Failure.aborted)

-- The `ApiError` for an exception with a message.
abbrev pub connection_failed {ℓ} : {J : Type ℓ} → String → ApiError J
connection_failed message = record {
  status = 0;
  status_text = "Network / Connection Failed";
  error_data = ErrorData.original_error message;
}

abbrev with_json {ℓ} : {J : Type ℓ} → Response J → J → ApiError J
with_json r j = record {
  status = r.status;
  status_text = r.status_text;
  error_data = ErrorData.body_json j;
}

-- What comes of a response.
data FromResponse {ℓ} {J : Type ℓ} (r : Response J) : Result J (Option J) → Type ℓ where
  no_content : r.status ≡ 204 → FromResponse r (Result.ok none)
  content :
      (j : J) → is_ok r.status ≡ true → r.body ≡ Body.json j → FromResponse r (Result.ok (some j))
  error :
      (j : J)
      → is_ok r.status ≡ false
      → r.body ≡ Body.json j
      → FromResponse r (Result.thrown (Thrown.api_error (with_json r j)))
  lost :
      (message : String)
      → FromResponse r (Result.thrown (Thrown.api_error (connection_failed message)))

module _ {ℓ} {J : Type ℓ} (print : J → String) where
  body-cases :
      (b : Body J)
      → ((j : J) × (b ≡ Body.json j))
        ⊎ ((text : String) × (message : String) × (b ≡ Body.not_json text message))
  body-cases (Body.json j) = inl (j, refl)
  body-cases (Body.not_json text message) = inr (text, message, refl)

  -- The JSON of the body is read, or its reading raises, and then the body is used.
  read_json-cases :
      (r : Response J)
      → ((j : J) × (r.body ≡ Body.json j) × ((read_json r).1 ≡ Reading.got j))
        ⊎ ((message : String) × ((read_json r).1 ≡ Reading.raised message)
            × ((read_json r).0.body_used ≡ true))
  unfolding read_json
  read_json-cases r = elim (Bool-cases r.body_used) [
    | inl used ↦ inr (body_used_message, ground arith, ground arith)
    | inr free ↦ elim (body-cases r.body) [
      | inl (j, e) ↦ inl (j, e, ground arith)
      | inr (text, message, e) ↦ inr (message, ground arith, ground arith)
    ]
  ]

  read_text-used :
      (r : Response J)
      → r.body_used ≡ true
      → (read_text print r).1 ≡ Reading.raised body_used_message
  unfolding read_text
  read_text-used r h = ground arith

  response-cases : (r : Response J) → FromResponse r (handle_outcome print (Outcome.response r))
  unfolding handle_outcome
  response-cases r =
      if_cases (λ x. FromResponse r (catch x)) (not (is_ok r.status))
        (λ bad. elim (read_json-cases r) [
          | inl (j, e, h) ↦ rw h (FromResponse.error j (ground arith) e)
          | inr (message, h, used) ↦
              rw (h, read_text-used (read_json r).0 used) (FromResponse.lost body_used_message)
        ])
        (λ good.
          if_cases (λ x. FromResponse r (catch x)) (eqb r.status 204)
            (λ e. FromResponse.no_content (ground arith))
            (λ other. elim (read_json-cases r) [
              | inl (j, e, h) ↦ rw h (FromResponse.content j (ground arith) e)
              | inr (message, h, used) ↦ rw h (FromResponse.lost message)
            ]))

  receive-lost :
      (r : Response J) (text message : String)
      → is_ok r.status ≡ false
      → r.body ≡ Body.not_json text message
      → receive print r ≡ Result.thrown (Thrown.other (Failure.failure body_used_message))
  unfolding receive
  receive-lost r text message bad body = ground arith

  response-IsFaithful :
      (r : Response J) (result : Result J (Option J))
      → FromResponse r result
      → IsFaithful (Outcome.response r) result
  response-IsFaithful r _ (FromResponse.no_content e) = record {
    returned = λ j h. cc;
    empty = λ h. (r, refl, e);
    refused = λ e' h ne. cc;
    excepted = λ f h. cc;
  }
  response-IsFaithful r _ (FromResponse.content j good e) = record {
    returned = λ j' h. (r, refl, good, cc);
    empty = λ h. cc;
    refused = λ e' h ne. cc;
    excepted = λ f h. cc;
  }
  response-IsFaithful r _ (FromResponse.error j bad e) = record {
    returned = λ j' h. cc;
    empty = λ h. cc;
    refused = λ e' h ne. (r, j, refl, bad, ground arith, e, ground arith);
    excepted = λ f h. cc;
  }
  response-IsFaithful r _ (FromResponse.lost message) = record {
    returned = λ j' h. cc;
    empty = λ h. cc;
    refused = λ e' h ne. absurd (ne (ground arith));
    excepted = λ f h. cc;
  }

  outcome-IsFaithful : (o : Outcome J) → IsFaithful o (handle_outcome print o)
  unfolding handle_outcome
  outcome-IsFaithful (Outcome.failed Failure.aborted) = record {
    returned = λ j h. cc;
    empty = λ h. cc;
    refused = λ e h ne. cc;
    excepted = λ f h. (cc, refl);
  }
  outcome-IsFaithful (Outcome.failed (Failure.failure message)) = record {
    returned = λ j h. cc;
    empty = λ h. cc;
    refused = λ e h ne. absurd (ne (ground arith));
    excepted = λ f h. cc;
  }
  outcome-IsFaithful (Outcome.response r) =
      response-IsFaithful r (handle_outcome print (Outcome.response r)) (response-cases r)

module _ {ℓ κ} {B : Type ℓ} {J : Type κ} (encode_query : List (String × String) → String)
    (print : J → String) (fetch : Request B → Outcome J) (client : ApiClient) (endpoint : String)
    (options : RequestOptions B) where
  -- Whatever `fetch` does with the request: a value that the caller gets is the JSON of a successful
  -- response, `undefined` comes of the status 204, an `ApiError` with a status other than 0 has the
  -- status and the JSON of a response that is no success, and another exception is an abort.
  pub request-IsFaithful :
      IsFaithful
        (fetch (build_request encode_query client endpoint options))
        (request encode_query print fetch client endpoint options)
  unfolding request
  request-IsFaithful =
      outcome-IsFaithful print (fetch (build_request encode_query client endpoint options))

  -- Of a response that is no success and whose body is not JSON, the caller learns neither the status
  -- nor the text, but the status 0 of a failed connection: `json` has used the body up, so that `text`
  -- throws, and that exception hides the response.
  pub request-status_lost :
      (r : Response J) (text message : String)
      → fetch (build_request encode_query client endpoint options) ≡ Outcome.response r
      → is_ok r.status ≡ false
      → r.body ≡ Body.not_json text message
      → request encode_query print fetch client endpoint options
        ≡ Result.thrown (Thrown.api_error (connection_failed body_used_message))
  unfolding request handle_outcome
  request-status_lost r text message answer bad body =
      rw (answer, receive-lost print r text message bad body) refl
