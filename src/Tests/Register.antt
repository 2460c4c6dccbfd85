-- ===== src/Tests/Register.antt =====
-- A registration that is accepted.
use push_dispatch.Base.{◌≡◌, refl, none, String, str_eq}
use push_dispatch.Push.Errors.{ok}
use push_dispatch.Push.Types.{token}
use push_dispatch.Push.Installation.{
  InstallationLibrary, RegistrationRequest, Installation, new_installation, installation_of,
  installation_id, check_target, check_texts, validate_timezone,
}
use push_dispatch.Push.Installation.Registered.{IsRegistered, new_installation-IsRegistered}
use push_dispatch.Tests.Data.{at_dusk}

abbrev pub library : InstallationLibrary
library = record {
  trim_space = λ s. s;
  to_lower = λ s. s;
  load_location = λ s. none;
  sha256_hex = λ s. s;
}

abbrev pub request : RegistrationRequest
request = record {
  provider = "fcm";
  target_type = token;
  target = "t1";
  platform = "ios";
  permission = "granted";
  timezone = "";
  locale = "en";
  app_version = "1.0";
  enabled = none;
}

abbrev pub registered : String × Installation
registered = (installation_id library "fcm" token "t1", installation_of library request at_dusk)

registration_result : new_installation library request at_dusk ≡ ok registered
unfolding new_installation check_target str_eq validate_timezone check_texts
registration_result = refl

new_installation-IsRegistered_example : IsRegistered library request at_dusk registered
new_installation-IsRegistered_example =
    new_installation-IsRegistered library request at_dusk registration_result
