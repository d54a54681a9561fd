-- ===== src/Handles/UseCases/Laws.antt =====
-- A handle that has been provisioned has a session, and one that has been deprovisioned has none.
use mathlib.Core.Path.{subst}
use sudo_secure_communicatio.Prelude.{
  String, ◌≡◌, refl, ◌∙◌, Bool, true, false, Option, none, some, List, [], ◌∷◌, lookup, keep,
}
use sudo_secure_communicatio.Errors.{thrown, unacceptable_words}
use sudo_secure_communicatio.Exec.{Result, ok, err, pure, ◌>>◌}
use sudo_secure_communicatio.Exec.Laws.{post-bind}
use sudo_secure_communicatio.Words.{validate_words}
use sudo_secure_communicatio.Words.Laws.{validate_words_lem}
use sudo_secure_communicatio.Sessions.State.{Platform, Manager, reach}
use sudo_secure_communicatio.Sessions.Invariant.{TimersOwned}
use sudo_secure_communicatio.Sessions.Ensure.{ensure_valid_session}
use sudo_secure_communicatio.Sessions.Ensure.Laws.{Ensured, ensure_valid_session-Ensured}
use sudo_secure_communicatio.Sessions.Refresh.Laws.{Holds}
use sudo_secure_communicatio.Sessions.Delete.{delete_session}
use sudo_secure_communicatio.Sessions.Delete.Laws.{after-reach, Deleted, delete_session-Deleted}
use sudo_secure_communicatio.Handles.Entities.{OwnedHandle, SecureCommsSession}
use sudo_secure_communicatio.Handles.Service.{HandleApi, create_session, delete_handle}
use sudo_secure_communicatio.Handles.UseCases.{
  ProvisionHandleInput, owned_handle, device_id_or_new, provision_handle, deprovision_handle,
  update_handle_use_case,
}

-- The timers are owned, and a handle that is returned has a session.
abbrev pub Provisioned : {S : Type 0} → Result OwnedHandle × Manager S → Type 0
Provisioned (err e, t) = TimersOwned t
Provisioned (ok handle, t) = TimersOwned t × ((token : String) × Holds handle.handle_id token t)

-- The timers are owned, and the handle of the id has no session.
abbrev pub Deprovisioned : {S : Type 0} → String → Result OwnedHandle × Manager S → Type 0
Deprovisioned id (err e, t) = TimersOwned t
Deprovisioned id (ok handle, t) = TimersOwned t × (lookup id t.sessions ≡ none)

module _ {S : Type 0} (platform : Platform S) (api : HandleApi S) where
  ensure_and_return-Provisioned :
      (passphrase device_id : Option String) (session : SecureCommsSession) (state : Manager S)
      → platform.decode "" ≡ none
      → TimersOwned state
      → Provisioned (
          (ensure_valid_session platform session.handle_id passphrase device_id
              >> pure (owned_handle session))
            state)
  ensure_and_return-Provisioned passphrase device_id session state no_claims owned =
      let ensured =
        ensure_valid_session-Ensured platform no_claims session.handle_id passphrase device_id state
          owned in
      post-bind Provisioned (ensure_valid_session platform session.handle_id passphrase device_id) _
        state (λ e t done. subst (Ensured session.handle_id) done ensured)
        (λ token t done.
          let (kept, held) = subst (Ensured session.handle_id) done ensured in
          (kept, (token, held)))

  -- If every timer that is set is owned by a session, so it is after a handle has been provisioned,
  -- whether that returns or throws; and a handle that is returned has a session. (`JWT.decode` is
  -- taken to find no claims in the empty text.)
  pub provision_handle-Provisioned :
      (input : ProvisionHandleInput) (state : Manager S)
      → platform.decode "" ≡ none
      → TimersOwned state
      → Provisioned (provision_handle platform api input state)
  unfolding provision_handle
  provision_handle-Provisioned input state no_claims owned =
      let check = validate_words api.check_word_validity (input.name ∷ []) in
      let device = device_id_or_new platform api input.device_id in
      post-bind Provisioned (reach check) _ state
        (λ e t done. after-reach TimersOwned check state t owned done)
        (λ u t done.
          let owned1 = after-reach TimersOwned check state t owned done in
          post-bind Provisioned (reach device) _ t
            (λ e t1 done1. after-reach TimersOwned device t t1 owned1 done1)
            (λ device_id t1 done1.
              let create = create_session api input.id input.name device_id in
              let owned2 = after-reach TimersOwned device t t1 owned1 done1 in
              post-bind Provisioned (reach create) _ t1
                (λ e t2 done2. after-reach TimersOwned create t1 t2 owned2 done2)
                (λ session t2 done2.
                  ensure_and_return-Provisioned input.store_passphrase (some device_id) session t2
                    no_claims (after-reach TimersOwned create t1 t2 owned2 done2))))

  -- If every timer that is set is owned by a session, so it is after a handle has been
  -- deprovisioned, whether that returns or throws; and if it returns, the handle has no session.
  pub deprovision_handle-Deprovisioned :
      (id : String) (state : Manager S)
      → TimersOwned state
      → Deprovisioned id (deprovision_handle platform api id state)
  unfolding deprovision_handle
  deprovision_handle-Deprovisioned id state owned =
      let delete = delete_handle api id in
      post-bind (Deprovisioned id) (reach delete) _ state
        (λ e t done. after-reach TimersOwned delete state t owned done)
        (λ handle t done.
          let deleted =
            delete_session-Deleted platform id true t
              (after-reach TimersOwned delete state t owned done) in
          post-bind (Deprovisioned id) (delete_session platform id true) _ t
            (λ e t1 done1. subst (Deleted id) done1 deleted)
            (λ u t1 done1. subst (Deleted id) done1 deleted))

  -- Where the service answers with the valid ones of the words that it is asked about, a name that
  -- is not valid is neither provisioned nor given to a handle: UnacceptableWordsError is thrown, and
  -- nothing has changed.
  pub unacceptable_name :
      (valid : String → Bool) (input : ProvisionHandleInput) (handle_id : String)
      (state : Manager S)
      → ((asked : List String)
          → api.check_word_validity asked state.outside ≡ (ok (keep valid asked), state.outside))
      → valid input.name ≡ false
      → (provision_handle platform api input state ≡ (err (thrown unacceptable_words none), state))
        × (update_handle_use_case platform api handle_id input.name state
            ≡ (err (thrown unacceptable_words none), state))
  unfolding provision_handle update_handle_use_case
  unacceptable_name valid input handle_id state answers invalid =
      let refused : validate_words api.check_word_validity (input.name ∷ []) state.outside
          ≡ (err (thrown unacceptable_words none), state.outside) =
        validate_words_lem valid api.check_word_validity (input.name ∷ []) state.outside answers
        ∙ rw invalid refl in
      (rw refused refl, rw refused refl)
