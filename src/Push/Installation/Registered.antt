-- ===== src/Push/Installation/Registered.antt =====
-- What holds of a new installation.
use push_dispatch.Base.{
  ◌≤◌, ◌≡◌, inl, inr, refl, subst, ap, String, len, true, false, ◌&&◌, not, none, Time,
  is_zero_time, time_sub, within, str_eq, str_eq_iff, ltb, Bool-cases, Option-cases, arith,
}
use push_dispatch.Push.Errors.{Result, ok, err}
use push_dispatch.Push.Types.{TargetType, fid, token, other, valid_target_type}
use push_dispatch.Push.Installation.{
  Installation, RegistrationRequest, InstallationLibrary, installation_active_window,
  max_target_length, or_unknown, enabled_or_true, address_by, address_of, active_at,
  installation_id, validate_timezone, check_target, check_texts, installation_of, new_installation,
  fid_for, token_for,
}

-- What a registration at `now` makes of a request.
pub record IsRegistered (library : InstallationLibrary) (request : RegistrationRequest) (now : Time)
    (r : String × Installation) : Type 0 where
  pub address : address_of r.1 ≡ library.trim_space request.target
  pub has_address : str_eq (address_of r.1) "" ≡ false
  pub short : len (address_of r.1) ≤ max_target_length
  pub same_id : r.0 ≡ installation_id library r.1.provider r.1.target_type (address_of r.1)
  pub seen : r.1.last_seen_at ≡ now
  pub active :
      (t : Time)
      → active_at r.1 t ≡ (
          enabled_or_true request.enabled
          && str_eq request.permission "granted"
          && not (is_zero_time now)
          && within (time_sub t now) installation_active_window)

address_by_lem :
    (t : TargetType) (target : String)
    → valid_target_type t ≡ true
    → address_by t (fid_for t target) (token_for t target) ≡ target
unfolding address_by
address_by_lem fid target h = refl
address_by_lem token target h = refl
address_by_lem (other s) target h = absurd (ground arith)

or_unknown-granted : (p : String) → str_eq (or_unknown p) "granted" ≡ str_eq p "granted"
or_unknown-granted p = elim (Bool-cases (str_eq p "")) [
  | inr given ↦ rw given
  | inl empty ↦ let e : p ≡ "" = ground (arith, str_eq_iff p "") in rw e (unfold str_eq in refl)
]

installation_of-IsRegistered :
    (library : InstallationLibrary) (request : RegistrationRequest) (now : Time)
    → check_target library request ≡ none
    → IsRegistered library request now (
      installation_id library request.provider request.target_type
          (library.trim_space request.target),
      installation_of library request now,
    )
unfolding check_target installation_of active_at
installation_of-IsRegistered library request now h =
    let target = library.trim_space request.target in
    let typed : valid_target_type request.target_type ≡ true = ground arith in
    let at = address_by_lem request.target_type target typed in
    let present : str_eq target "" ≡ false = ground arith in
    let bounded : ltb max_target_length (len target) ≡ false = ground arith in
    record {
      address = at;
      has_address = rw at present;
      short = rw at (ground arith);
      same_id = rw at;
      seen = refl;
      active = λ t. ground (arith, at, present, or_unknown-granted request.permission);
    }

-- A registration that `NewInstallation` accepts has the trimmed target as its address, which is not
-- empty and at most 4096 bytes long; its id is the hash of its provider, target type and address; and
-- it is active exactly while it is enabled, its permission was granted, and at most 45 days have
-- passed since its registration, which is at an instant that is not the zero time.
pub new_installation-IsRegistered :
    (library : InstallationLibrary) (request : RegistrationRequest) (now : Time)
    {r : String × Installation}
    → new_installation library request now ≡ ok r
    → IsRegistered library request now r
unfolding new_installation
new_installation-IsRegistered library request now {r} h =
    elim (Option-cases (check_target library request)) [
      | inr (e, bad) ↦ absurd (ground (arith, rw (bad, new_installation) at h))
      | inl target ↦ elim (Option-cases (validate_timezone library request.timezone)) [
        | inr (e, bad) ↦ absurd (ground (arith, rw (target, bad, new_installation) at h))
        | inl zone ↦ elim (Option-cases (check_texts library request)) [
          | inr (e, bad) ↦ absurd (ground (arith, rw (target, zone, bad, new_installation) at h))
          | inl texts ↦
              let same = ok_injective (rw (target, zone, texts, new_installation) at h) in
              subst (IsRegistered library request now) same
                (installation_of-IsRegistered library request now target)
        ]
      ]
    ]
  where
    value_of : Result (String × Installation) → String × Installation → String × Installation
    value_of (ok a) d = a
    value_of (err e) d = d

    ok_injective : {a b : String × Installation} → ok a ≡ ok b → a ≡ b
    ok_injective {a} e = ap (λ x. value_of x a) e
