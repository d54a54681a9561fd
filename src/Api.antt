-- ===== src/Api.antt =====
-- ApiClient (src/private/data/common/apiClient.ts): a request to the GraphQL service, and what becomes of
-- the three ways in which it can fail.
pub mod Requests
pub mod Laws
use Prim.Native.String.{◌++◌}
use sudo_secure_communicatio.Prelude.{
  String, Bool, Option, none, some, List, [], ◌∷◌, or_else, if◌then◌else◌,
}
use sudo_secure_communicatio.Errors.{Error, thrown, fatal, GraphQlError, to_client_error}
use sudo_secure_communicatio.Exec.{Exec, Result, ok, err}

-- What the GraphQL client throws: `graph_ql_errors` is there if it is an array, `error_type` if it
-- is a property of the error.
pub record CallError : Type 0 where
  pub is_network_error : Bool
  pub graph_ql_errors : Option (List GraphQlError)
  pub error_type : Option String
  pub message : String

-- A request that throws, or its `errors` (none, if they are missing) with its `data`.
pub data Outcome (A : Type 0) : Type 0 where
  failed : CallError → Outcome A
  answered : List GraphQlError → Option A → Outcome A

-- `mapGraphQLToClientError`, `mapNetworkErrorToClientError` and `UnknownGraphQLError` of
-- @sudoplatform/sudo-common
pub record ErrorMaps : Type 0 where
  pub graph_ql : GraphQlError → Error
  pub network : CallError → Error
  pub unknown_graph_ql : CallError → Error

abbrev pub first_error : List GraphQlError → Option GraphQlError
first_error [] = none
first_error (e ∷ es) = some e

module _ (maps : ErrorMaps) where
  by_type : CallError → Option String → Error
  by_type e none = maps.unknown_graph_ql e
  by_type e (some error_type) =
      to_client_error maps.graph_ql (record { error_type = some error_type; message = e.message })

  by_first : CallError → Option GraphQlError → Error
  unfolding by_type
  by_first e none = by_type e e.error_type
  by_first e (some error) = to_client_error maps.graph_ql error

  -- mapGraphQLCallError
  unfoldable pub map_graph_ql_call_error : CallError → Error
  unfolding by_first
  map_graph_ql_call_error e = by_first e (first_error (or_else e.graph_ql_errors []))

  data_or_fatal : {A : Type 0} → Option String → Option A → Result A
  data_or_fatal callee_name none =
      err (thrown fatal (some (or_else callee_name "<no callee>" ++ " did not return any result")))
  data_or_fatal callee_name (some result) = ok result

  error_or_data : {A : Type 0} → Option String → Option A → Option GraphQlError → Result A
  unfolding data_or_fatal
  error_or_data callee_name result none = data_or_fatal callee_name result
  error_or_data callee_name result (some error) = err (to_client_error maps.graph_ql error)

  result_of : {A : Type 0} → Option String → Outcome A → Result A
  unfolding map_graph_ql_call_error error_or_data
  result_of callee_name (failed e) =
      err (if e.is_network_error then maps.network e else map_graph_ql_call_error e)
  result_of callee_name (answered errors result) =
      error_or_data callee_name result (first_error errors)

  -- performQuery and performMutation, which differ in the method of the client that they call
  unfoldable pub perform : {S A : Type 0} → Option String → (S → Outcome A × S) → Exec S A
  unfolding result_of
  perform callee_name request s = let (outcome, t) = request s in (result_of callee_name outcome, t)
