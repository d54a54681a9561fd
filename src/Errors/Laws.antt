-- ===== src/Errors/Laws.antt =====
-- Which error classes the service's error types become.
use mathlib.Core.Path
use mathlib.Core.Option.{some-injective}
use sudo_secure_communicatio.Prelude.{
  String, ◌≡◌, refl, ◌≢◌, inl, inr, Option, none, some, arith, eq_iff, ◌==◌, or_else, Option-cases,
  Bool-cases, Dict, lookup, All, [], ◌∷◌,
}
use sudo_secure_communicatio.Errors.{
  ErrorClass, not_registered, service, invalid_argument, handle_not_available, handle_not_found,
  invalid_handle_name, invalid_handle_id, alias_not_available, channel_name_not_available,
  invalid_channel_alias, channel_not_found, invalid_channel_state, not_allowed, Error, thrown,
  GraphQlError, error_classes, or_mapped, to_client_error,
}

-- The service's name for an error class, if it has one.
abbrev pub error_type_of : ErrorClass → Option String
error_type_of not_registered = some "sudoplatform.securecomms.IdentityContextMissing"
error_type_of service = some "sudoplatform.ServiceError"
error_type_of invalid_argument = some "sudoplatform.InvalidArgumentError"
error_type_of handle_not_available = some "sudoplatform.securecomms.HandleNotAvailable"
error_type_of handle_not_found = some "sudoplatform.securecomms.HandleNotFound"
error_type_of invalid_handle_name = some "sudoplatform.securecomms.InvalidHandleName"
error_type_of invalid_handle_id = some "sudoplatform.securecomms.InvalidHandleId"
error_type_of alias_not_available = some "sudoplatform.securecomms.AliasNotAvailable"
error_type_of channel_name_not_available = some "sudoplatform.securecomms.NameNotAvailable"
error_type_of invalid_channel_alias = some "sudoplatform.securecomms.InvalidRoomAlias"
error_type_of channel_not_found = some "sudoplatform.securecomms.ChannelNotFound"
error_type_of invalid_channel_state = some "sudoplatform.securecomms.InvalidChannelState"
error_type_of not_allowed = some "sudoplatform.securecomms.NotAllowed"
error_type_of _ = none

carry :
    {c : ErrorClass} (u : String) {t : String}
    → some u ≡ some t
    → lookup u error_classes ≡ some c
    → lookup t error_classes ≡ some c
carry {c} u h e = Path.subst (λ v. lookup v error_classes ≡ some c) (some-injective _ _ h) e

lookup-type_of :
    (c : ErrorClass) (t : String) → error_type_of c ≡ some t → lookup t error_classes ≡ some c
unfolding lookup
lookup-type_of not_registered t h = carry _ h refl
lookup-type_of service t h = carry _ h refl
lookup-type_of invalid_argument t h = carry _ h refl
lookup-type_of handle_not_available t h = carry _ h refl
lookup-type_of handle_not_found t h = carry _ h refl
lookup-type_of invalid_handle_name t h = carry _ h refl
lookup-type_of invalid_handle_id t h = carry _ h refl
lookup-type_of alias_not_available t h = carry _ h refl
lookup-type_of channel_name_not_available t h = carry _ h refl
lookup-type_of invalid_channel_alias t h = carry _ h refl
lookup-type_of channel_not_found t h = carry _ h refl
lookup-type_of invalid_channel_state t h = carry _ h refl
lookup-type_of not_allowed t h = carry _ h refl
lookup-type_of _ t h = cc

type_of-lookup :
    (table : Dict ErrorClass) (c : ErrorClass) (t : String)
    → All (λ row. error_type_of row.1 ≡ some row.0) table
    → lookup t table ≡ some c
    → error_type_of c ≡ some t
unfolding lookup
type_of-lookup [] c t rows h = cc
type_of-lookup ((u, d) ∷ table) c t (here, rows) h = elim (Bool-cases (u == t)) [
  | inl same ↦ let e = (eq_iff u t).0 same in ground arith
  | inr other ↦ type_of-lookup table c t rows (ground arith)
]

-- An error whose type (or whose message, if it has no type) is the service's name for a class
-- becomes that class, with the error's message.
pub to_client_error-named :
    (map_graph_ql : GraphQlError → Error) (e : GraphQlError) (c : ErrorClass)
    → error_type_of c ≡ some (or_else e.error_type e.message)
    → to_client_error map_graph_ql e ≡ thrown c (some e.message)
unfolding to_client_error
to_client_error-named f e c h = rw (lookup-type_of c _ h, or_mapped)

-- An error whose type (or whose message, if it has no type) is the service's name for no class is
-- left to `mapGraphQLToClientError`.
pub to_client_error-unnamed :
    (map_graph_ql : GraphQlError → Error) (e : GraphQlError)
    → ((c : ErrorClass) → error_type_of c ≢ some (or_else e.error_type e.message))
    → to_client_error map_graph_ql e ≡ map_graph_ql e
unfolding to_client_error
to_client_error-unnamed f e none_fits =
    let t = or_else e.error_type e.message in
    let rows : All (λ row. error_type_of row.1 ≡ some row.0) error_classes = ground arith in
    elim (Option-cases (lookup t error_classes)) [
      | inl missing ↦ rw (missing, or_mapped)
      | inr (c, found) ↦ absurd (none_fits c (type_of-lookup error_classes c t rows found))
    ]
