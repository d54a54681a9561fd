-- ===== src/Errors/Tests.antt =====
-- Tests of the error transformer.
use sudo_secure_communicatio.Prelude.{◌≡◌, refl, none, some}
use sudo_secure_communicatio.Errors.{thrown, plain, handle_not_found, to_client_error}

to_client_error_tests :
    (to_client_error
        (λ e. thrown plain none)
        (record {
          error_type = some "sudoplatform.securecomms.HandleNotFound";
          message = "no handle";
        })
      ≡ thrown handle_not_found (some "no handle"))
    × (to_client_error
          (λ e. thrown plain none)
          (record { error_type = some "other"; message = "m" })
        ≡ thrown plain none)
unfolding to_client_error
to_client_error_tests = (refl, refl)
