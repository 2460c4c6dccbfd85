-- ===== src/Push/Store/Ownership/Beats.antt =====
-- push/store/store.go: heartbeats keep the owners right.
use push_dispatch.Base.{
  ◌≡◌, refl, ◌∙◌, sym, String, true, Option, none, some, List, ◌∷◌, Map, map, lookup, insert,
  str_eq, str_eq_iff, str_eq_refl, arith,
}
use push_dispatch.Push.Errors.{Result, ok, ◌>>=◌}
use push_dispatch.Push.Installation.{Installation, InstallationHeartbeat}
use push_dispatch.Push.Store.Prune.{prune}
use push_dispatch.Push.Store.Documents.{
  Fetched, found, not_found, unavailable, Snapshot, set_installations, delete_owner, decoded,
}
use push_dispatch.Push.Store.Callbacks.{
  beat, heartbeat_writes, heartbeat_body, read_beating, with_address, owned_pruned_targets,
}
use push_dispatch.Push.Store.Laws.{apply_write, apply_writes, Reads}
use push_dispatch.Push.Store.Ownership.{
  has_address, installations_in, holds, IsOwned, Shrinks, Lessens, Lessens-bind,
}
use push_dispatch.Push.Store.Ownership.Writes.{
  owned_pruned_targets-owned, delete_owners-users, delete_owners-owners,
}
use push_dispatch.Push.Store.Ownership.Pruned.{
  holds_read, holders_eq, false_of_absurd, IsPruned, pruned-IsOwned, pruned-Less,
}
use push_dispatch.Push.Store.Ownership.Updates.{stored-eq}

with_address-ok :
    (o : Option Installation) {i : Installation} → with_address o ≡ ok i → has_address o ≡ true
with_address-ok none h = absurd (ground arith)
with_address-ok (some i) h = ground arith

heartbeat-IsPruned :
    (s d : Snapshot) (uid id : String) (hb : InstallationHeartbeat) (stored : Map Installation)
    (i : Installation) (dropped : List String)
    → IsOwned d
    → Reads s d
    → installations_in (d.users uid) ≡ stored
    → has_address (lookup id stored) ≡ true
    → let m = prune (insert id i stored) id hb.seen_at in
      owned_pruned_targets s uid m.1 ≡ ok dropped
      → IsPruned d
          (apply_writes (set_installations uid m.0 (some hb.seen_at) ∷ map delete_owner dropped) d)
          uid
          stored
          id
          i
          hb.seen_at
          dropped
heartbeat-IsPruned s d uid id hb stored i dropped o reads e at h =
    let m = prune (insert id i stored) id hb.seen_at in
    let own = o.owned uid id (holds_read (d.users uid) stored id e ∙ at) in
    let d' = apply_write (set_installations uid m.0 (some hb.seen_at)) d in
    record {
      read = e;
      user = delete_owners-users dropped d' uid ∙ rw (str_eq_refl uid);
      others = λ u differs. delete_owners-users dropped d' u ∙ rw differs;
      owners = λ j. ground (arith, delete_owners-owners dropped d' j, str_eq_iff id j, own.0);
      of_user = owned_pruned_targets-owned s d uid m.1 reads h;
      free = λ u differs.
          false_of_absurd (holds d u id) (str_eq uid u)
            (λ k. (str_eq_iff uid u).1 (sym (holders_eq d u uid id o k own.0))) differs;
      named = own.1;
    }

heartbeat_writes-Lessens :
    (s d : Snapshot) (uid id : String) (hb : InstallationHeartbeat) (stored : Map Installation)
    → IsOwned d
    → Reads s d
    → installations_in (d.users uid) ≡ stored
    → Lessens d (heartbeat_writes s uid id hb stored)
unfolding heartbeat_writes beat
heartbeat_writes-Lessens s d uid id hb stored o reads e =
    Lessens-bind d (with_address (lookup id stored)) _ (λ i at.
      let i' = beat hb i in
      Lessens-bind d (owned_pruned_targets s uid (prune (insert id i' stored) id hb.seen_at).1) _
        (λ dropped kept.
          let held = with_address-ok (lookup id stored) at in
          let p = heartbeat-IsPruned s d uid id hb stored i' dropped o reads e held kept in
          (
            pruned-IsOwned d _ uid stored id i' hb.seen_at dropped p o,
            pruned-Less d _ uid stored id i' hb.seen_at dropped p o held,
          )))

pub heartbeat_body-Shrinks :
    (uid id : String) (hb : InstallationHeartbeat) → Shrinks (heartbeat_body uid id hb)
unfolding heartbeat_body
heartbeat_body-Shrinks uid id hb s d o reads = by_read (s.users uid) refl
  where
    by_read :
        (v : Fetched (Result (Map Installation)))
        → s.users uid ≡ v
        → Lessens d (read_beating v >>= λ stored. heartbeat_writes s uid id hb stored)
    by_read not_found h = tt
    by_read (unavailable e) h = tt
    by_read (found r) h = Lessens-bind d (decoded _ r) _ (λ stored k.
        heartbeat_writes-Lessens s d uid id hb stored o reads
          (stored-eq s d uid r stored _ reads h k))
