-- ===== src/Api/Registered.antt =====
-- api/devices.go over push/store: what a registration that is answered with a receipt has done.
use push_dispatch.Base.{
  ◌≡◌, ◌≢◌, inl, inr, refl, ap, subst, sym, ◌∙◌, String, Bool, false, Option, none, some, lookup,
  str_eq, arith,
}
use push_dispatch.Push.Errors.{Error, Result, ok, err}
use push_dispatch.Push.Installation.{
  Installation, InstallationLibrary, RegistrationRequest, new_installation, address_of,
}
use push_dispatch.Push.Store.Documents.{Snapshot, Config, Database}
use push_dispatch.Push.Store.Callbacks.{preserved}
use push_dispatch.Push.Store.Operations.{
  upsert, heartbeat, disable_one, with_updated_at, with_created_at,
}
use push_dispatch.Push.Store.Stamped.{preserved-address, stamped-address}
use push_dispatch.Push.Store.Laws.{IsFirestore}
use push_dispatch.Push.Store.Ownership.{IsOwned, Same-IsOwned, installations_in}
use push_dispatch.Push.Store.Done.{IsRegistered, upsert_done}
use push_dispatch.Api.{answered, Request, bad_uid}
use push_dispatch.Api.Devices.{
  InstallationStore, register_device, register_body, register_checked, receipt, store_error,
}
use push_dispatch.Api.Refused.{wrap_guards, refused_of_answered}

-- The store of push/store as the interface of the handlers.
abbrev pub store_of : {W : Type 0} → Database W → Config → InstallationStore W
store_of database config = record {
  now = database.now;
  upsert = upsert database config;
  heartbeat = heartbeat database config;
  disable = disable_one database config;
}

store_error_refuses : {A : Type 0} {a : A} (e : Error) → store_error e ≢ answered a
unfolding store_error
store_error_refuses e h = ground arith

answered-injective : {A : Type 0} {a b : A} → answered a ≡ answered b → a ≡ b
answered-injective h = ground arith

module _ {W : Type 0} (library : InstallationLibrary) (contains_separator : String → Bool)
    (database : Database W) (config : Config) (stored : W → Snapshot)
    (laws : IsFirestore database stored) where
  -- A registration of the installation that the body describes, for the user of the request.
  pub record IsReceipt (request : Request RegistrationRequest) (w after : W) (id : String)
      : Type 0 where
    pub uid : String
    pub is_user : request.authenticated ≡ ok uid
    pub body : RegistrationRequest
    pub is_body : request.body ≡ some body
    pub installation : Installation
    pub made : new_installation library body (database.now w).0 ≡ ok (id, installation)
    pub installed : Installation
    pub same_address : address_of installed ≡ address_of installation
    pub registered : IsRegistered (stored after) uid id installed

  named_of_valid : (uid : String) → bad_uid contains_separator uid ≡ false → str_eq uid "" ≡ false
  named_of_valid uid h = ground arith

  by_upsert :
      (request : Request RegistrationRequest) (w : W) (uid : String) (body : RegistrationRequest)
      (id' : String) (i : Installation) {id : String}
      → IsOwned (stored w)
      → request.authenticated ≡ ok uid
      → str_eq uid "" ≡ false
      → request.body ≡ some body
      → new_installation library body (database.now w).0 ≡ ok (id', i)
      → (answer : Option Error × W) → upsert database config uid id' i (database.now w).1 ≡ answer
      → (receipt id' answer).0 ≡ answered id
      → IsReceipt request w (receipt id' answer).1 id
  by_upsert request w uid body id' i o user named is_body made (some e, w') put h =
      absurd (store_error_refuses e h)
  by_upsert request w uid body id' i o user named is_body made (none, w') put h =
      let w₁ = (database.now w).1 in
      let kept =
        preserved (lookup id' (installations_in ((stored w₁).users uid)))
          (with_created_at database config (with_updated_at database config i w₁).0) in
      let done =
        upsert_done database config stored laws uid id' i w₁ named
          (Same-IsOwned (stored w₁) (stored w) (laws.now_effect w) o) (ap (λ a. a.0) put) in
      subst (λ k. IsReceipt request w w' k) (answered-injective h)
        (record {
          uid = uid;
          is_user = user;
          body = body;
          is_body = is_body;
          installation = i;
          made = made;
          installed = kept;
          same_address =
              preserved-address (lookup id' (installations_in ((stored w₁).users uid))) _
              ∙ stamped-address database config i w₁;
          registered = subst (λ v. IsRegistered (stored v) uid id' kept) (ap (λ a. a.1) put) done;
        })

  by_made :
      (request : Request RegistrationRequest) (w : W) (uid : String) (body : RegistrationRequest)
      {id : String}
      → IsOwned (stored w)
      → request.authenticated ≡ ok uid
      → str_eq uid "" ≡ false
      → request.body ≡ some body
      → (made : Result (String × Installation))
      → new_installation library body (database.now w).0 ≡ made
      → (register_checked library contains_separator
          (store_of database config)
          uid
          made
          (database.now w).1).0
        ≡ answered id
      → IsReceipt request w
          (register_checked library contains_separator
            (store_of database config)
            uid
            made
            (database.now w).1).1
          id
  by_made request w uid body o user named is_body (err e) made h =
      absurd (refused_of_answered _ _ h)
  by_made request w uid body o user named is_body (ok (id', i)) made h =
      by_upsert request w uid body id' i o user named is_body made
        (upsert database config uid id' i (database.now w).1) refl h

  by_body :
      (request : Request RegistrationRequest) (w : W) (uid : String) {id : String}
      → IsOwned (stored w)
      → request.authenticated ≡ ok uid
      → str_eq uid "" ≡ false
      → (body : Option RegistrationRequest) → request.body ≡ body
      → (register_body library contains_separator (store_of database config) body uid w).0
        ≡ answered id
      → IsReceipt request w
          (register_body library contains_separator (store_of database config) body uid w).1
          id
  by_body request w uid o user named none is_body h = absurd (refused_of_answered _ _ h)
  by_body request w uid o user named (some body) is_body h =
      by_made request w uid body o user named is_body
        (new_installation library body (database.now w).0) refl h

  -- For a Firestore that does what it documents, and owners that are right: where `POST` of a device
  -- is answered with an id, the id and the installation are those that `NewInstallation` makes of the
  -- body, and the user whom `Authenticate` names owns the target, which no other user holds, and has
  -- an installation with its address among at most twenty.
  pub register_device_done :
      (request : Request RegistrationRequest) (w : W) {id : String}
      → IsOwned (stored w)
      → (register_device library contains_separator (store_of database config) request w).0
        ≡ answered id
      → IsReceipt request w
          (register_device library contains_separator (store_of database config) request w).1
          id
  unfolding register_device
  register_device_done request w {id} o h =
      let next = register_body library contains_separator (store_of database config) request.body in
      elim (wrap_guards contains_separator next request w) [
        | inl refusal ↦ absurd (refused_of_answered _ _ (sym (ap (λ a. a.0) refusal) ∙ h))
        | inr (inl refusal) ↦ absurd (refused_of_answered _ _ (sym (ap (λ a. a.0) refusal) ∙ h))
        | inr (inr s) ↦
            subst (λ a. IsReceipt request w a.1 id) (sym s.served)
              (by_body request w s.uid o s.is_user (named_of_valid s.uid s.valid_user) request.body
                refl (sym (ap (λ a. a.0) s.served) ∙ h))
      ]
