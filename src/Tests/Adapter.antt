-- ===== src/Tests/Adapter.antt =====
-- The adapter with a client that delivers to each address.
use push_dispatch.Base.{
  refl, ℕ, suc, ◌++◌, true, false, none, String, List, [], ◌∷◌, Distinct, str_eq, length, map,
}
use push_dispatch.Push.Errors.{ok}
use push_dispatch.Push.Types.{Target, target_key, target_keys}
use push_dispatch.Push.Payload.{Library}
use push_dispatch.Push.Batch.Settling.{result_keys}
use push_dispatch.Push.Fcm.{Messaging, SendResponse, send_fcm}
use push_dispatch.Push.Fcm.Answers.{send_fcm-Distinct}
use push_dispatch.Tests.Data.{phone, tablet, greeting, at_dusk}

abbrev library : Library
library = record {
  trim_space = λ s. s;
  rune_count = λ s. 5;
  has_prefix = λ s prefix. false;
  matches_label = λ s. true;
  encoded_length = λ m. ok 200;
}

abbrev delivered_response : String → SendResponse
delivered_response address = record { success = true; message_id = address; error = none }

abbrev messaging : Messaging ℕ
messaging = record {
  send_each = λ m calls. (
    ok (record {
      responses = map delivered_response (m.tokens ++ m.fids);
      success_count = length (m.tokens ++ m.fids);
      failure_count = 0;
    }),
    suc calls,
  );
  now = λ calls. (at_dusk, calls);
  unix_seconds = λ t. "1";
  is_unregistered = λ e. false;
  is_quota_exceeded = λ e. false;
  is_internal = λ e. false;
  is_unavailable = λ e. true;
  is_third_party_auth_error = λ e. false;
  is_invalid_argument = λ e. false;
  is_sender_id_mismatch = λ e. false;
}

abbrev mixed : List Target
mixed = tablet ∷ phone ∷ []

mixed-Distinct : Distinct (target_keys mixed)
unfolding target_key str_eq
mixed-Distinct = (refl, (refl, tt))

send_fcm-Distinct_example :
    Distinct (result_keys (send_fcm library messaging greeting mixed 0).0.0.results)
send_fcm-Distinct_example = send_fcm-Distinct library messaging greeting mixed 0 mixed-Distinct
