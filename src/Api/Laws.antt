-- ===== src/Api/Laws.antt =====
-- However the service reports an error, it becomes the class that the service names.
use sudo_secure_communicatio.Prelude.{
  String, ◌≡◌, ◌∙◌, ap, false, Option, none, some, [], or_else, arith, if◌then◌else◌,
}
use sudo_secure_communicatio.Errors.{ErrorClass, thrown, GraphQlError}
use sudo_secure_communicatio.Errors.Laws.{error_type_of, to_client_error-named}
use sudo_secure_communicatio.Exec.{err}
use sudo_secure_communicatio.Api.{
  CallError, Outcome, failed, answered, ErrorMaps, first_error, by_type, by_first,
  map_graph_ql_call_error, error_or_data, result_of, perform,
}

-- The error is the first of those that are attached, or if there is none, what is thrown has its
-- type and its message.
abbrev pub Attached : GraphQlError → Option GraphQlError → CallError → Type 0
Attached e (some first) call = first ≡ e
Attached e none call =
    (call.error_type ≡ e.error_type)
    × (call.message ≡ e.message)
    × ((type : String) × (e.error_type ≡ some type))

-- How the service reports an error: an error is thrown that is not one of the network and has it
-- attached, or it is the first of the errors of an answer, with data or without.
abbrev pub Reports : {A : Type 0} → GraphQlError → Outcome A → Type 0
Reports e (failed call) =
    (call.is_network_error ≡ false)
    × Attached e (first_error (or_else call.graph_ql_errors [])) call
Reports e (answered errors result) = first_error errors ≡ some e

module _ (maps : ErrorMaps) (e : GraphQlError) (c : ErrorClass)
    (named : error_type_of c ≡ some (or_else e.error_type e.message)) where
  by_first-Attached :
      (call : CallError) (first : Option GraphQlError)
      → Attached e first call
      → by_first maps call first ≡ thrown c (some e.message)
  unfolding by_first by_type
  by_first-Attached call (some first) h = rw h (to_client_error-named maps.graph_ql e c named)
  by_first-Attached call none (same_type, same_message, (type, typed)) =
      let typed_call : call.error_type ≡ some type = same_type ∙ typed in
      rw typed_call (
        to_client_error-named maps.graph_ql
          (record { error_type = some type; message = call.message }) c
          (ground (arith, named, typed))
        ∙ ap (λ m. thrown c (some m)) same_message)

  result_of-Reports :
      {A : Type 0} (callee_name : Option String) (outcome : Outcome A)
      → Reports e outcome
      → result_of maps callee_name outcome ≡ err (thrown c (some e.message))
  unfolding result_of map_graph_ql_call_error error_or_data
  result_of-Reports callee_name (failed call) (other, attached) =
      ap (λ network. err (if network then maps.network call else map_graph_ql_call_error maps call))
        other
      ∙ ap err (by_first-Attached call (first_error (or_else call.graph_ql_errors [])) attached)
  result_of-Reports callee_name (answered errors result) first =
      rw first (ap err (to_client_error-named maps.graph_ql e c named))

  -- If the service reports an error whose type (or whose message, if it has no type) is its name
  -- for a class, as an error that the client throws or as the first error of its answer, with data
  -- or without, then the request throws an error of that class with the error's message.
  pub perform-Reports :
      {S A : Type 0} (callee_name : Option String) (request : S → Outcome A × S) (s : S)
      → Reports e (request s).0
      → perform maps callee_name request s ≡ (err (thrown c (some e.message)), (request s).1)
  unfolding perform
  perform-Reports callee_name request s reports =
      ap (λ r. (r, (request s).1)) (result_of-Reports callee_name (request s).0 reports)
