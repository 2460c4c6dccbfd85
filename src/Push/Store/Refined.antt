-- ===== src/Push/Store/Refined.antt =====
-- push/store/store.go against its contract: who can be reached at which target. What the store keeps
-- of installations, documents and owners is forgotten.
pub mod Calls
use push_dispatch.Base.{
  ◌≡◌, ◌⊎◌, inl, inr, refl, ap, subst, sym, ◌∙◌, String, Bool, true, false, not, ◌&&◌, some, List,
  [], ◌∷◌, Map, lookup, lookup-insert, Time, str_eq, str_eq_iff, str_eq_refl, Bool-cases,
  if◌then◌else◌, arith,
}
use push_dispatch.Push.Installation.{Installation}
use push_dispatch.Push.Store.Documents.{Snapshot}
use push_dispatch.Push.Store.Callbacks.{preserved}
use push_dispatch.Push.Store.Laws.{Same}
use push_dispatch.Push.Store.Prune.{retired}
use push_dispatch.Push.Store.Ownership.{has_address, holds_in, holds, installations_in, IsOwned}
use push_dispatch.Push.Store.Ownership.Pruned.{pruned_own, holds-installations}
use push_dispatch.Push.Store.Ownership.Updates.{retired-address}
use push_dispatch.Push.Store.Ownership.Moves.{IsRegistration}
use push_dispatch.Push.Store.Ownership.Runs.{
  Call, upsert_call, heartbeat_call, disable_one_call, disable_call, mark_call, targets_call,
  newest_call,
}
use push_dispatch.Push.Store.Stamped.{preserved-address}
use push_dispatch.Push.Store.Done.{registration-IsRegistered}
use push_dispatch.Push.Store.Removed.{IsRetired}

-- The contract: who holds which target, and what a call may do to it.
abbrev pub Holding : Type 0
Holding = String → String → Bool

abbrev pub Unchanged : Holding → Holding → Type 0
Unchanged before after = (u j : String) → after u j ≡ before u j

abbrev pub Fewer : Holding → Holding → Type 0
Fewer before after = (u j : String) → after u j ≡ true → before u j ≡ true

abbrev pub Lost : String → String → Holding → Holding → Type 0
Lost uid id before after =
    (u j : String) → after u j ≡ (before u j && not (str_eq uid u && str_eq id j))

-- The user gets the target, which all others lose, and may lose other ones.
pub record IsGrant (uid id : String) (addressed : Bool) (before after : Holding) : Type 0 where
  pub others : (u j : String) → str_eq uid u ≡ false → after u j ≡ (before u j && not (str_eq id j))
  pub own : (j : String) → after uid j ≡ true → (str_eq id j ≡ true) ⊎ (before uid j ≡ true)
  pub granted : after uid id ≡ addressed

abbrev pub Allows : Call → Holding → Holding → Type 0
Allows (upsert_call uid id i) before after =
    Unchanged before after ⊎ IsGrant uid id (has_address (some i)) before after
Allows (disable_one_call uid id t) before after = Unchanged before after ⊎ Lost uid id before after
Allows (heartbeat_call uid id beat) before after = Fewer before after
Allows (disable_call refs t) before after = Fewer before after
Allows (mark_call refs key value) before after = Fewer before after
Allows (targets_call uid now) before after = Unchanged before after
Allows (newest_call uid now) before after = Unchanged before after

-- Steps of the contract, one for each call.
abbrev pub AllowsAll : List Call → Holding → Holding → Type 0
AllowsAll [] before after = Unchanged before after
AllowsAll (call ∷ calls) before after =
    (between : Holding) × Allows call before between × AllowsAll calls between after

pub Same-Unchanged : (a b : Snapshot) → Same a b → Unchanged (holds b) (holds a)
Same-Unchanged a b s u j = ap (λ v. holds_in v j) (s.users u)

keep_unless : (a b c : Bool) → (c ≡ true → a ≡ false) → (c ≡ false → a ≡ b) → a ≡ (b && not c)
keep_unless a b true f g = f refl ∙ ground arith
keep_unless a b false f g = g refl ∙ ground arith

and_right : (a b : Bool) → (a && b) ≡ true → b ≡ true
and_right a b h = ground arith

-- A registration is a grant.
pub registration-IsGrant :
    (before after : Snapshot) (uid id : String) (original : Installation)
    → IsRegistration before after uid id original
    → IsOwned before
    → IsGrant uid id (has_address (some original)) (holds before) (holds after)
registration-IsGrant before after uid id original r o =
    let i = preserved (lookup id r.stored) original in
    let done = registration-IsRegistered before after uid id original o r in
    record {
      others = λ u j differs.
          let same = ap (λ v. holds_in v j) (r.is_pruned.others u differs) in
          keep_unless _ _ _
            (λ this.
              same
              ∙ subst (λ k. holds r.freed u k ≡ false) ((str_eq_iff id j).0 this)
                  (r.is_freed.free u differs))
            (λ apart. same ∙ r.is_freed.rest u j apart);
      own = λ j h.
          elim (pruned_own r.freed after uid r.stored id i i.updated_at r.dropped j r.is_pruned
            r.is_freed.owned h) [
              | inl this ↦ inl this
              | inr was ↦ inr (sym (ap (λ v. holds_in v j) r.is_freed.user) ∙ was)
            ];
      granted =
          ap (λ v. holds_in v id) done.stored
          ∙ (ap has_address done.installed
              ∙ ap (λ a. not (str_eq a "")) (preserved-address _ original));
    }

pub removal-Lost :
    (before after : Snapshot) (uid id : String) (t : Time)
    → IsRetired before after uid id t
    → Lost uid id (holds before) (holds after)
removal-Lost before after uid id t r u j = elim (Bool-cases (str_eq uid u)) [
  | inr differs ↦
      keep_unless _ _ _ (λ this. absurd (ground (arith, differs, this)))
        (λ apart. ap (λ v. holds_in v j) (r.others u differs))
  | inl same ↦
      subst (λ v. holds after v j ≡ (holds before v j && not (str_eq uid v && str_eq id j)))
        ((str_eq_iff uid u).0 same)
        (keep_unless _ _ _
          (λ this.
            own_lost
            ∙ rw (and_right (str_eq uid uid) (str_eq id j) this) (retired-address t r.installation))
          (λ apart.
            let other_id : str_eq id j ≡ false = rw (str_eq_refl uid) at apart in
            own_lost ∙ rw other_id (sym (holds-installations (before.users uid) j))))
]
  where
    m : Map Installation
    m = installations_in (before.users uid)

    own_lost :
        holds after uid j
        ≡ has_address (if str_eq id j then some (retired t r.installation) else lookup j m)
    own_lost =
        ap (λ v. holds_in v j) r.users
        ∙ ap has_address (lookup-insert id j (retired t r.installation) m)

-- Up to the documents that the store does not write.
pub Same-IsGrant :
    (a b : Snapshot) (uid id : String) (addressed : Bool) (before : Holding)
    → Same a b
    → IsGrant uid id addressed before (holds b)
    → IsGrant uid id addressed before (holds a)
Same-IsGrant a b uid id addressed before s g = record {
  others = λ u j differs. Same-Unchanged a b s u j ∙ g.others u j differs;
  own = λ j h. g.own j (sym (Same-Unchanged a b s uid j) ∙ h);
  granted = Same-Unchanged a b s uid id ∙ g.granted;
}

pub Unchanged-IsGrant :
    (a b after : Snapshot) (uid id : String) (addressed : Bool)
    → Same a b
    → IsGrant uid id addressed (holds a) (holds after)
    → IsGrant uid id addressed (holds b) (holds after)
Unchanged-IsGrant a b after uid id addressed s g = record {
  others = λ u j differs.
      g.others u j differs ∙ ap (λ x. x && not (str_eq id j)) (Same-Unchanged a b s u j);
  own = λ j h. elim (g.own j h) [
    | inl this ↦ inl this
    | inr was ↦ inr (sym (Same-Unchanged a b s uid j) ∙ was)
  ];
  granted = g.granted;
}
