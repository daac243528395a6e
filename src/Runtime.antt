-- ===== src/Runtime.antt =====
-- What the plugin takes from Go's run time and from the services that it calls, and the state that
-- its packages share. `Exec A` is an action: it may fail, and what it changed before failing stays
-- changed. Other calls use the same caches meanwhile: they run during every exchange and before every
-- reading of the clock, and may then change the caches in any way, which is more than the locks of the
-- code let them.
pub mod Sample
use consent_plugin.Common.{
  ℕ, suc, ◌+◌, String, ◌≡◌, refl, ◌⊎◌, inl, inr, Bool, Option, none, some, List, [], ◌∷◌, ◌++◌,
  length,
}
use consent_plugin.Common.Map.{Map}
use consent_plugin.Failure.{Failure, Result, ok, err}
use consent_plugin.Json.{Value}

-- The bytes of an HTTP body.
abbrev pub Bytes : Type 0
Bytes = List ℕ

-- An outgoing request. `host` is the override of the Host header ("" for none), and `body` is the
-- value that json.Marshal is given.
pub record HttpRequest : Type 0 where
  pub method : String
  pub url : String
  pub host : String
  pub headers : Map String
  pub body : Option Value

-- The outcome of an exchange: no response, a response whose body could not be read, or a response.
pub data Reply : Type 0 where
  failed : Failure → Reply
  unreadable : Failure → Reply
  response : ℕ → Bytes → Reply

-- cacheEntry, identifierEntry and participantSDEntry of client.go
pub record CacheEntry : Type 0 where
  pub token : String
  pub token_expiry : ℕ
  pub provider_sd : String

pub record IdentifierEntry : Type 0 where
  pub user_identifier : String
  pub expiry : ℕ

pub record ParticipantSdEntry : Type 0 where
  pub self_description_url : String
  pub expiry : ℕ
  pub unknown : Bool

-- The caches of the consent package.
pub record Caches : Type 0 where
  pub cred_cache : Map CacheEntry
  pub identifier_cache : Map IdentifierEntry
  pub participant_sd_cache : Map ParticipantSdEntry

-- The services, the clock and the library functions. The n-th exchange is answered by `send n`, and
-- the n-th reading of the clock is `now n`, so both may change from one call to the next in any way.
pub record Runtime : Type 0 where
  -- http.Client.Do and io.ReadAll
  pub send : ℕ → HttpRequest → Reply
  -- time.Now, in nanoseconds
  pub now : ℕ → ℕ
  -- the error of http.NewRequestWithContext for a URL, if it has one
  pub url_error : String → Option Failure
  -- encoding/json's reading of a text, none for a syntax error
  pub parse_json : Bytes → Option Value
  -- hex.EncodeToString of sha256.Sum256
  pub fingerprint : String → String
  -- what the other calls on the caches make of them until the n-th point at which they may run
  pub others : ℕ → Caches → Caches
  -- url.PathEscape
  pub path_escape : String → String

-- The caches of the consent package, the requests sent so far, the oldest first, and the number of
-- readings of the clock.
pub record World : Type 0 where
  pub cred_cache : Map CacheEntry
  pub identifier_cache : Map IdentifierEntry
  pub participant_sd_cache : Map ParticipantSdEntry
  pub sent : List HttpRequest
  pub ticks : ℕ

-- internal/consent/reset.go, ResetCaches
unfoldable pub reset_caches : World → World
reset_caches w = record w { cred_cache = []; identifier_cache = []; participant_sd_cache = [] }

abbrev pub Exec : Type 0 → Type 0
Exec A = World → Result A × World

module _ {A : Type 0} where
  abbrev pub pure : A → Exec A
  pure a w = (ok a, w)

  abbrev pub raise : Failure → Exec A
  raise f w = (err f, w)

  abbrev pub lift : Result A → Exec A
  lift r w = (r, w)

module _ {A B : Type 0} where
  abbrev pub continue : Result A → (A → Exec B) → Exec B
  continue (ok a) k w = k a w
  continue (err f) k w = (err f, w)

  infixl 10 ◌>>=◌ ◌>>◌
  abbrev pub ◌>>=◌ : Exec A → (A → Exec B) → Exec B
  ◌>>=◌ m k w = let (r, w') = m w in continue r k w'

  abbrev pub ◌>>◌ : Exec A → Exec B → Exec B
  m >> n = m >>= λ _. n

pub Outcome-cases :
    {A : Type 0} (p : Result A × World)
    → ((f : Failure) × (w : World) × (p ≡ (err f, w))) ⊎ ((a : A) × (w : World) × (p ≡ (ok a, w)))
Outcome-cases (err f, w) = inl (f, w, refl)
Outcome-cases (ok a, w) = inr (a, w, refl)

pub Reply-cases :
    (r : Reply)
    → ((f : Failure) × (r ≡ failed f))
      ⊎ ((f : Failure) × (r ≡ unreadable f))
      ⊎ ((status : ℕ) × (body : Bytes) × (r ≡ response status body))
Reply-cases (failed f) = inl (f, refl)
Reply-cases (unreadable f) = inr (inl (f, refl))
Reply-cases (response status body) = inr (inr (status, body, refl))

-- The other calls run: they may change the caches in any way.
unfoldable pub interleave : Runtime → World → World
interleave rt w =
    let caches = rt.others (length w.sent + w.ticks) (record {
      cred_cache = w.cred_cache;
      identifier_cache = w.identifier_cache;
      participant_sd_cache = w.participant_sd_cache;
    }) in
    record w {
      cred_cache = caches.cred_cache;
      identifier_cache = caches.identifier_cache;
      participant_sd_cache = caches.participant_sd_cache;
    }

-- time.Now()
unfoldable pub read_clock : Runtime → Exec ℕ
unfolding interleave
read_clock rt w =
    let w' = interleave rt w in (ok (rt.now w'.ticks), record w' { ticks = suc w'.ticks })

-- One exchange: the request joins the log, the reply is that of its place in it, and the other calls
-- run until it comes.
unfoldable pub exchange : Runtime → HttpRequest → Exec Reply
unfolding interleave
exchange rt req w =
    let w' = interleave rt w in
    (ok (rt.send (length w'.sent) req), record w' { sent = w'.sent ++ req ∷ [] })
