-- ===== src/Tests/Handles.antt =====
-- The theorems on handles and on the requests to their service, at a concrete service.
use sudo_secure_communicatio.Prelude.{
  ℕ, lookup, String, ◌≡◌, refl, Bool, false, not, none, some, [], ◌∷◌, ◌==◌, keep, if◌then◌else◌,
}
use sudo_secure_communicatio.Errors.{thrown, plain, handle_not_found, unacceptable_words}
use sudo_secure_communicatio.Exec.{ok, err}
use sudo_secure_communicatio.Api.{CallError, failed, answered, ErrorMaps, perform}
use sudo_secure_communicatio.Api.Requests.{GraphQlClient, api_client}
use sudo_secure_communicatio.Api.Laws.{perform-Reports}
use sudo_secure_communicatio.Handles.Entities.{GraphQlHandle, GraphQlSession}
use sudo_secure_communicatio.Handles.Service.{HandleApi}
use sudo_secure_communicatio.Handles.UseCases.{
  ProvisionHandleInput, provision_handle, deprovision_handle, update_handle_use_case,
}
use sudo_secure_communicatio.Handles.UseCases.Laws.{
  Provisioned, Deprovisioned, provision_handle-Provisioned, deprovision_handle-Deprovisioned,
  unacceptable_name,
}
use sudo_secure_communicatio.Sessions.Invariant.{TimersOwned}
use sudo_secure_communicatio.Tests.Samples.{platform, session, sessions}

abbrev is_polite : String → Bool
is_polite word = not (word == "rude")

abbrev handle_of : String → String → GraphQlHandle
handle_of id name = record {
  id = id;
  name = name;
  owner = "owner";
  owners = record { id = "sudo"; issuer = "sudoplatform" } ∷ [];
  created_at_epoch_ms = 1;
  updated_at_epoch_ms = 2;
  version = 1;
}

abbrev session_of : String → String → String → GraphQlSession
session_of id name device_id = record {
  handle_id = id;
  handle_name = name;
  device_id = device_id;
  owner = "owner";
  owners = [];
  token = "fresh";
  created_at_epoch_ms = 1;
  expires_at_epoch_ms = 2;
}

abbrev missing : CallError
missing = record {
  is_network_error = false;
  graph_ql_errors = some (
      record { error_type = some "sudoplatform.securecomms.HandleNotFound"; message = "no handle" }
      ∷ []);
  error_type = none;
  message = "GraphQL";
}

-- Only Ann's handle can be deleted.
abbrev client : GraphQlClient ℕ
client = record {
  create_secure_comms_handle =
      λ id name device_id s. (answered [] (some (session_of "bob" name device_id)), s);
  get_secure_comms_session =
      λ handle_id device_id s. (answered [] (some (session_of handle_id "Ann" device_id)), s);
  get_secure_comms_handle_by_name = λ name s. (answered [] (some none), s);
  update_secure_comms_handle = λ id name s. (answered [] (some (handle_of id name)), s);
  delete_secure_comms_handle = λ id s.
      (if id == "ann" then answered [] (some (handle_of "ann" "Ann")) else failed missing, s);
  list_secure_comms_handles =
      λ limit next_token s. (answered [] (some (record { items = some []; next_token = none })), s);
  check_secure_comms_word_validity = λ words s. (answered [] (some (keep is_polite words)), s);
}

abbrev maps : ErrorMaps
maps = record {
  graph_ql = λ e. thrown plain none;
  network = λ e. thrown plain none;
  unknown_graph_ql = λ e. thrown plain none;
}

abbrev api : HandleApi ℕ
unfolding api_client
api = api_client maps client

abbrev named : String → ProvisionHandleInput
named name = record { id = none; name = name; store_passphrase = none; device_id = none }

sessions-TimersOwned : TimersOwned sessions
unfolding lookup
sessions-TimersOwned = ((session, refl, refl), tt)

provision_handle-Provisioned_example :
    Provisioned (provision_handle platform api (named "Bob") sessions)
provision_handle-Provisioned_example =
    provision_handle-Provisioned platform api (named "Bob") sessions refl sessions-TimersOwned

bob_provisioned :
    (provision_handle platform api (named "Bob") sessions).0
    ≡ ok (record { handle_id = "bob"; name = "Bob"; owner = "owner"; owners = [] })
unfolding provision_handle perform api lookup
bob_provisioned = refl

deprovision_handle-Deprovisioned_example :
    Deprovisioned "ann" (deprovision_handle platform api "ann" sessions)
deprovision_handle-Deprovisioned_example =
    deprovision_handle-Deprovisioned platform api "ann" sessions sessions-TimersOwned

unacceptable_name_example :
    (provision_handle platform api (named "rude") sessions
      ≡ (err (thrown unacceptable_words none), sessions))
    × (update_handle_use_case platform api "ann" "rude" sessions
        ≡ (err (thrown unacceptable_words none), sessions))
unfolding perform api
unacceptable_name_example =
    unacceptable_name platform api is_polite (named "rude") "ann" sessions (λ asked. refl) refl

perform-Reports_example :
    perform maps (some "deleteSecureCommsHandle") (client.delete_secure_comms_handle "bob") 9900
    ≡ (err (thrown handle_not_found (some "no handle")), 9900)
perform-Reports_example =
    perform-Reports maps
      (record {
        error_type = some "sudoplatform.securecomms.HandleNotFound";
        message = "no handle";
      })
      handle_not_found refl (some "deleteSecureCommsHandle")
      (client.delete_secure_comms_handle "bob") 9900 (refl, refl)
