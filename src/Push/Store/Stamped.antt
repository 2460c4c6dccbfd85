-- ===== src/Push/Store/Stamped.antt =====
-- push/store/store.go, `UpsertPushInstallation`: the defaults and what is preserved leave the address.
use push_dispatch.Base.{◌≡◌, inl, inr, refl, ◌∙◌, Option, none, some, Bool-cases, is_zero_time}
use push_dispatch.Push.Installation.{Installation, address_of, preserve_registration_state}
use push_dispatch.Push.Store.Documents.{Config, Database}
use push_dispatch.Push.Store.Callbacks.{preserved}
use push_dispatch.Push.Store.Operations.{with_updated_at, with_created_at}

pub preserved-address :
    (existing : Option Installation) (i : Installation)
    → address_of (preserved existing i) ≡ address_of i
unfolding preserve_registration_state
preserved-address none i = refl
preserved-address (some e) i = refl

module _ {W : Type 0} (database : Database W) (config : Config) where
  created-address :
      (x : Installation) → address_of (with_created_at database config x) ≡ address_of x
  created-address x = elim (Bool-cases (is_zero_time x.created_at)) [
    | inl zero ↦ rw zero refl
    | inr set ↦ rw set refl
  ]

  updated-address :
      (i : Installation) (w : W) → address_of (with_updated_at database config i w).0 ≡ address_of i
  updated-address i w = elim (Bool-cases (is_zero_time i.updated_at)) [
    | inl zero ↦ rw zero refl
    | inr set ↦ rw set refl
  ]

  pub stamped-address :
      (i : Installation) (w : W)
      → address_of (with_created_at database config (with_updated_at database config i w).0)
        ≡ address_of i
  stamped-address i w =
      created-address (with_updated_at database config i w).0 ∙ updated-address i w
