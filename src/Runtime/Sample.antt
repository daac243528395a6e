-- ===== src/Runtime/Sample.antt =====
-- A run time and services for the tests: the body of an answer is one byte, which names its value.
use consent_plugin.Common.{ℕ, true, Option, none, some, [], ◌∷◌, ◌==◌, nat_eq, if◌then◌else◌}
use consent_plugin.Json.{Value, bool, str, arr, obj, nil, cons, end, member}
use consent_plugin.Runtime.{Bytes, HttpRequest, response, Runtime, World}

abbrev pub search_answer : Value
search_answer = obj (member "userIdentifier" (str "u1") end)

abbrev pub consents_answer : Value
consents_answer = obj (
    member "consents"
      (arr (
        cons (obj (member "status" (str "granted") (member "consumer" (str "http://consumer") end)))
          nil))
      end)

abbrev pub resolver_answer : Value
resolver_answer = obj (
    member "consentRequired" (bool true)
      (member "claims" (arr (cons (obj (member "ownerId" (str "alice") end)) nil)) end))

abbrev pub answer_of : HttpRequest → ℕ
answer_of req =
    if req.url == "http://resolver"
    then 3
    else if req.url == "http://consent/v1/users/identifier/search"
    then 1
    else 2

abbrev byte_value : ℕ → Value
byte_value n =
    if nat_eq n 1 then search_answer else if nat_eq n 2 then consents_answer else resolver_answer

abbrev read_value : Bytes → Option Value
read_value [] = none
read_value (n ∷ rest) = some (byte_value n)

abbrev pub sample : Runtime
sample = record {
  send = λ n req. response 200 (answer_of req ∷ []);
  now = λ n. n;
  url_error = λ url. none;
  parse_json = read_value;
  fingerprint = λ secret. "ab";
  others = λ n caches. caches;
  path_escape = λ text. text;
}

abbrev pub fresh : World
fresh = record {
  cred_cache = [];
  identifier_cache = [];
  participant_sd_cache = [];
  sent = [];
  ticks = 0;
}
