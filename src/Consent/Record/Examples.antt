-- ===== src/Consent/Record/Examples.antt =====
-- Consent records at concrete requests.
use consent_plugin.Common.{String, ◌≡◌, ◌↔◌, refl, true, false, [], ◌∷◌, Some}
use consent_plugin.Consent.{ConsentRequest}
use consent_plugin.Consent.Record.{
  ConsentRecord, no_record, no_participant, granted_to, any_granted, matches, covers_purpose,
  covers_resource,
}
use consent_plugin.Consent.Record.Authority.{Authorizes, any_granted_iff}

abbrev bob : ConsentRecord
bob = record no_record {
  status = "granted";
  consumer = record no_participant { did = "did:bob" };
  resources = "/data" ∷ [];
  recipients = "did:carol" ∷ "did:dave" ∷ [];
}

abbrev revoked : ConsentRecord
revoked = record bob { status = "revoked" }

abbrev asking : String → ConsentRequest
asking consumer = record {
  subject = "alice";
  resource = "/path";
  method = "GET";
  data_resource = "/data";
  consumer = consumer;
  purpose = "";
}

only_granted : any_granted (asking "did:bob") (revoked ∷ bob ∷ []) ≡ true
unfolding any_granted granted_to matches covers_purpose covers_resource
only_granted = refl

not_second_recipient : any_granted (asking "did:dave") (bob ∷ []) ≡ false
unfolding any_granted granted_to matches covers_purpose covers_resource
not_second_recipient = refl

any_granted_iff_example :
    (any_granted (asking "did:bob") (revoked ∷ bob ∷ []) ≡ true)
    ↔ Some (Authorizes (asking "did:bob")) (revoked ∷ bob ∷ [])
any_granted_iff_example = any_granted_iff (asking "did:bob") (revoked ∷ bob ∷ [])
