-- ===== src/Push/Store/Removed.antt =====
-- push/store/store.go, `DisablePushInstallation`: what holds after a removal that succeeds.
use push_dispatch.Base.{
  ◌≡◌, inl, inr, refl, ap, subst, ◌∙◌, String, true, false, none, some, [], ◌∷◌, Map, lookup,
  insert, lookup-insert, Time, arith, str_eq, str_eq_refl, Option-cases,
}
use push_dispatch.Push.Errors.{Result, ok, Ensures, Ensures-bind}
use push_dispatch.Push.Types.{TargetType, fid, token, other}
use push_dispatch.Push.Installation.{Installation, address_by, address_of}
use push_dispatch.Push.Store.Prune.{retire, retired}
use push_dispatch.Push.Store.Documents.{
  Fetched, found, not_found, unavailable, Snapshot, Config, Database, decoded,
}
use push_dispatch.Push.Store.Callbacks.{disable_body, disable_read, disable_writes, retire_all}
use push_dispatch.Push.Store.Operations.{disable_one}
use push_dispatch.Push.Store.Laws.{IsFirestore, apply_writes, Reads}
use push_dispatch.Push.Store.Ownership.{installations_in}
use push_dispatch.Push.Store.Ownership.Updates.{stored-eq}

-- The user's installation with the id has lost its address and is disabled, and is otherwise, as
-- all others are, as before.
pub record IsRetired (before after : Snapshot) (uid id : String) (t : Time) : Type 0 where
  pub installation : Installation
  pub known : lookup id (installations_in (before.users uid)) ≡ some installation
  pub users :
      after.users uid
      ≡ found (ok (insert id (retired t installation) (installations_in (before.users uid))))
  pub others : (u : String) → str_eq uid u ≡ false → after.users u ≡ before.users u

-- The callback for one id that must match.
disable_writes-IsRetired :
    (s d : Snapshot) (uid id : String) (t : Time) (stored : Map Installation)
    → installations_in (d.users uid) ≡ stored
    → Ensures
        (λ ws. IsRetired d (apply_writes ws d) uid id t)
        (disable_writes uid t true (retire_all (id ∷ []) t (stored, false)))
unfolding retire_all retire
disable_writes-IsRetired s d uid id t stored e = elim (Option-cases (lookup id stored)) [
  | inl absent ↦ rw (absent, retire) tt
  | inr (i, at) ↦
      rw (at, retire)
        (record {
          installation = i;
          known = ap (lookup id) e ∙ at;
          users = rw (e, str_eq_refl uid) refl;
          others = λ u differs. rw differs refl;
        })
]

pub disable_body-IsRetired :
    (s d : Snapshot) (uid id : String) (t : Time)
    → Reads s d
    → Ensures (λ ws. IsRetired d (apply_writes ws d) uid id t) (disable_body uid (id ∷ []) t true s)
unfolding disable_body
disable_body-IsRetired s d uid id t reads = by_read (s.users uid) refl
  where
    by_read :
        (v : Fetched (Result (Map Installation)))
        → s.users uid ≡ v
        → Ensures
            (λ ws. IsRetired d (apply_writes ws d) uid id t)
            (disable_read uid (id ∷ []) t true v)
    by_read not_found h = tt
    by_read (unavailable e) h = tt
    by_read (found r) h = Ensures-bind _ (decoded _ r) _ (λ stored k.
        disable_writes-IsRetired s d uid id t stored (stored-eq s d uid r stored _ reads h k))

-- The installation has no address and is disabled since `t`, and is otherwise as before.
pub record IsDisabled (i after : Installation) (t : Time) : Type 0 where
  pub no_fid : after.fid_text ≡ ""
  pub no_token : after.token_text ≡ ""
  pub no_address : address_of after ≡ ""
  pub disabled : after.enabled ≡ false
  pub disabled_time : after.disabled_at ≡ t
  pub updated_time : after.updated_at ≡ t
  pub same_provider : after.provider ≡ i.provider
  pub same_type : after.target_type ≡ i.target_type
  pub same_platform : after.platform ≡ i.platform
  pub same_permission : after.permission ≡ i.permission
  pub same_timezone : after.timezone ≡ i.timezone
  pub same_locale : after.locale ≡ i.locale
  pub same_version : after.app_version ≡ i.app_version
  pub same_created : after.created_at ≡ i.created_at
  pub same_seen : after.last_seen_at ≡ i.last_seen_at
  pub same_delivered : after.delivered ≡ i.delivered

-- The user had the installation, and has it disabled; nothing else of the documents has changed.
pub record IsRemoved (before after : Snapshot) (uid id : String) (t : Time) : Type 0 where
  pub installation : Installation
  pub had : lookup id (installations_in (before.users uid)) ≡ some installation
  pub kept : Map Installation
  pub stored : after.users uid ≡ found (ok kept)
  pub left : Installation
  pub has_left : lookup id kept ≡ some left
  pub is_disabled : IsDisabled installation left t
  pub rest :
      (j : String)
      → str_eq id j ≡ false
      → lookup j kept ≡ lookup j (installations_in (before.users uid))
  pub other_users : (u : String) → str_eq uid u ≡ false → after.users u ≡ before.users u

no_address_by : (k : TargetType) → address_by k "" "" ≡ ""
unfolding address_by str_eq
no_address_by fid = refl
no_address_by token = refl
no_address_by (other s) = ground arith

retired-IsDisabled : (t : Time) (i : Installation) → IsDisabled i (retired t i) t
retired-IsDisabled t i = record {
  no_fid = refl;
  no_token = refl;
  no_address = no_address_by i.target_type;
  disabled = refl;
  disabled_time = refl;
  updated_time = refl;
  same_provider = refl;
  same_type = refl;
  same_platform = refl;
  same_permission = refl;
  same_timezone = refl;
  same_locale = refl;
  same_version = refl;
  same_created = refl;
  same_seen = refl;
  same_delivered = refl;
}

IsRetired-IsRemoved :
    (before after : Snapshot) (uid id : String) (t : Time)
    → IsRetired before after uid id t
    → IsRemoved before after uid id t
IsRetired-IsRemoved before after uid id t r =
    let m = installations_in (before.users uid) in
    let i = retired t r.installation in
    record {
      installation = r.installation;
      had = r.known;
      kept = insert id i m;
      stored = r.users;
      left = i;
      has_left = lookup-insert id id i m ∙ rw (str_eq_refl id) refl;
      is_disabled = retired-IsDisabled t r.installation;
      rest = λ j differs. lookup-insert id j i m ∙ rw differs refl;
      other_users = r.others;
    }

module _ {W : Type 0} (database : Database W) (config : Config) (stored : W → Snapshot)
    (laws : IsFirestore database stored) where
  -- For a Firestore that does what it documents: after `DisablePushInstallation` without an error,
  -- the user, who had the installation, has it with no address, disabled, with the given time as
  -- the time it was disabled and updated, and otherwise as before. The user's other installations
  -- and the documents of the other users are as they were.
  pub disable_one_done :
      (uid id : String) (t : Time) (w : W)
      → (disable_one database config uid id t w).0 ≡ none
      → IsRemoved (stored w) (stored (disable_one database config uid id t w).1) uid id t
  unfolding disable_one
  disable_one_done uid id t w h =
      let c = laws.transact_done (disable_body uid (id ∷ []) t true) w h in
      let r =
        subst (Ensures (λ ws. IsRetired (stored w) (apply_writes ws (stored w)) uid id t))
          c.are_writes (disable_body-IsRetired c.reads (stored w) uid id t c.are_reads) in
      IsRetired-IsRemoved _ _ uid id t (record {
        installation = r.installation;
        known = r.known;
        users = c.made.users uid ∙ r.users;
        others = λ u differs. c.made.users u ∙ r.others u differs;
      })
