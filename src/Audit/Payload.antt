-- ===== src/Audit/Payload.antt =====
-- internal/audit/audit.go, `export` and `buildPayload`: the OTLP request of a batch.
use consent_plugin.Common.{ℕ, String, Option, none, some, List, [], ◌∷◌, leb, if◌then◌else◌}
use consent_plugin.Common.Map.{Map, put}
use consent_plugin.Common.Text.{itoa}
use consent_plugin.Consent.{show_decision}
use consent_plugin.Failure.{Failure, Result, ok, err}
use consent_plugin.Json.{Value, num, str, arr, obj, Items, nil, cons, end, member}
use consent_plugin.Runtime.{HttpRequest}
use consent_plugin.Audit.{QueuedEvent, Emitter}

-- What the encoding takes from Go's library: encoding/json's reading of bytes as a text, and
-- http.CanonicalHeaderKey.
pub record Encoding : Type 0 where
  pub text_of : List ℕ → String
  pub canonical : String → String

-- anyValue, and keyValue
abbrev any_value : String → Value
any_value text = obj (member "stringValue" (str text) end)

abbrev key_value : String → String → Value
key_value key text = obj (member "key" (str key) (member "value" (any_value text) end))

abbrev attributes : List (String × String) → Items
attributes [] = nil
attributes ((k, v) ∷ kvs) = cons (key_value k v) (attributes kvs)

module _ (enc : Encoding) where
  -- logRecord
  unfoldable pub log_record : QueuedEvent → Value
  log_record ev =
      let ts = itoa ev.time in
      obj (
        member "timeUnixNano" (str ts) (
          member "observedTimeUnixNano" (str ts) (
            member "severityNumber" (num "9") (
              member "severityText" (str "INFO") (
                member "body" (any_value "consent access decision") (
                  member "attributes"
                    (arr (
                      attributes (
                        ("event.domain", "audit")
                        ∷ ("event.name", "consent.access.decision")
                        ∷ ("consent.decision", show_decision ev.decision)
                        ∷ ("consent.reason", enc.text_of ev.reason)
                        ∷ ("enduser.id", ev.subject)
                        ∷ ("http.request.method", ev.method)
                        ∷ ("url.path", ev.resource)
                        ∷ ("http.request.id", ev.request_id)
                        ∷ [])))
                    end))))))

  unfoldable pub log_records : List QueuedEvent → Items
  unfolding log_record
  log_records [] = nil
  log_records (ev ∷ evs) = cons (log_record ev) (log_records evs)

  -- buildPayload
  unfoldable pub build_payload : Emitter → List QueuedEvent → Value
  unfolding log_records
  build_payload e batch = obj (
      member "resourceLogs"
        (arr (
          cons
            (obj (
              member "resource"
                (obj (
                  member "attributes" (arr (attributes (("service.name", e.service_name) ∷ [])))
                    end))
                (member "scopeLogs"
                  (arr (
                    cons
                      (obj (
                        member "scope" (obj (member "name" (str "consent-plugin/audit") end))
                          (member "logRecords" (arr (log_records batch)) end)))
                      nil))
                  end)))
            nil))
        end)

  -- Header.Set of each of the emitter's headers, in the order in which the map is run through
  unfoldable pub set_headers : Map String → Map String → Map String
  set_headers [] set = set
  set_headers ((name, value) ∷ rest) set = set_headers rest (put (enc.canonical name) value set)

  -- the request of `export`
  unfoldable pub export_request : Emitter → List QueuedEvent → HttpRequest
  unfolding build_payload set_headers
  export_request e batch = record {
    method = "POST";
    url = e.endpoint;
    host = "";
    headers = set_headers e.headers (("Content-Type", "application/json") ∷ []);
    body = some (build_payload e batch);
  }

  -- `export`: the request that is sent, none where it cannot be built, and the line that is logged,
  -- as its key in the rate limiter ("" for none) and its template. `url_error` is the error of
  -- http.NewRequestWithContext for a URL, and the exchange yields a status or an error.
  unfoldable pub export :
      (String → Option Failure)
      → (HttpRequest → Result ℕ)
      → Emitter
      → List QueuedEvent
      → Option HttpRequest × Option (String × String)
  unfolding export_request
  export url_error send e batch = elim (url_error e.endpoint) [
    | some f ↦ (none, some ("", "audit: failed to build the export request: %s"))
    | none ↦
        let request = export_request e batch in
        (
          some request,
          elim (send request) [
            | err f ↦ some ("audit-export", "audit: export to %s failed: %s")
            | ok status ↦
                if leb 300 status
                then some ("audit-export-status", "audit: export to %s returned HTTP %d")
                else none
          ],
        )
  ]
