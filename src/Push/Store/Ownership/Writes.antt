-- ===== src/Push/Store/Ownership/Writes.antt =====
-- What the writes of the transactions leave in the documents.
use push_dispatch.Base.{
  ◌≡◌, ◌⊎◌, inl, inr, refl, subst, ◌∙◌, sym, ◌++◌, String, true, List, [], ◌∷◌, map, has,
  str_eq_iff, str_lt, sort, if◌then◌else◌, arith,
}
use push_dispatch.Push.Errors.{Result, ok, err, >>=-ok}
use push_dispatch.Push.Store.Documents.{
  Fetched, found, not_found, unavailable, Snapshot, Write, delete_owner,
}
use push_dispatch.Push.Store.Callbacks.{add_owned, owned_among, owned_pruned_targets}
use push_dispatch.Push.Store.Prune.Lookups.{has-sort}
use push_dispatch.Push.Store.Laws.{apply_write, apply_writes, Reads, ReadOf-found}

pub apply_writes-append :
    (ws vs : List Write) (d : Snapshot)
    → apply_writes (ws ++ vs) d ≡ apply_writes vs (apply_writes ws d)
apply_writes-append [] vs d = refl
apply_writes-append (w ∷ ws) vs d = apply_writes-append ws vs (apply_write w d)

pub delete_owners-users :
    (ids : List String) (d : Snapshot) (u : String)
    → (apply_writes (map delete_owner ids) d).users u ≡ d.users u
delete_owners-users [] d u = refl
delete_owners-users (id ∷ ids) d u = delete_owners-users ids (apply_write (delete_owner id) d) u

pub delete_owners-owners :
    (ids : List String) (d : Snapshot) (j : String)
    → (apply_writes (map delete_owner ids) d).owners j
      ≡ (if has ids j then not_found else d.owners j)
delete_owners-owners [] d j = refl
delete_owners-owners (id ∷ ids) d j =
    ground (arith, delete_owners-owners ids (apply_write (delete_owner id) d) j)

-- One of the ids, or the one of the target whose document names the user.
abbrev IsKept : String → String → Fetched (Result String) → List String → String → Type 0
IsKept uid id r refs j = (has refs j ≡ true) ⊎ (id ≡ j) × (r ≡ found (ok uid))

add_owned-ok :
    (uid id : String) (r : Fetched (Result String)) (rest : Result (List String))
    {kept : List String}
    → add_owned uid id r rest ≡ ok kept
    → (refs : List String) × (rest ≡ ok refs)
      × ((j : String) → has kept j ≡ true → IsKept uid id r refs j)
add_owned-ok uid id not_found rest h = (_, h, λ j k. inl k)
add_owned-ok uid id (unavailable e) rest h = absurd (ground arith)
add_owned-ok uid id (found (err e)) rest h = absurd (ground arith)
add_owned-ok uid id (found (ok owner)) rest h =
    let (refs, e, f) = >>=-ok rest _ h in
    (refs, e, λ j k. grind (arith, str_eq_iff id j, str_eq_iff owner uid))

-- The targets that the user owns are among those asked for, and their documents say so.
pub owned_among-owned :
    (s d : Snapshot) (uid : String) (ids : List String) {kept : List String}
    → Reads s d
    → owned_among s uid ids ≡ ok kept
    → (j : String) → has kept j ≡ true
    → (has ids j ≡ true) × (d.owners j ≡ found (ok uid))
unfolding owned_among
owned_among-owned s d uid [] r h j k = absurd (ground arith)
owned_among-owned s d uid (id ∷ ids) r h j k =
    let (refs, e, f) = add_owned-ok uid id (s.owners id) (owned_among s uid ids) h in
    elim (f j k) [
      | inl later ↦ let o = owned_among-owned s d uid ids r e j later in (ground arith, o.1)
      | inr (here, read) ↦ (
        ground (arith, str_eq_iff id j),
        subst (λ i. d.owners i ≡ found (ok uid)) here
            (ReadOf-found (s.owners id) (d.owners id) (ok uid) (r.owners id) read),
      )
    ]

pub owned_pruned_targets-owned :
    (s d : Snapshot) (uid : String) (ids : List String) {kept : List String}
    → Reads s d
    → owned_pruned_targets s uid ids ≡ ok kept
    → (j : String) → has kept j ≡ true
    → (has ids j ≡ true) × (d.owners j ≡ found (ok uid))
owned_pruned_targets-owned s d uid ids r h j k =
    let o = owned_among-owned s d uid (sort str_lt ids) r h j k in (sym (has-sort ids j) ∙ o.0, o.1)
