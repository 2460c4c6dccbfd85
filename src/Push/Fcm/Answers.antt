-- ===== src/Push/Fcm/Answers.antt =====
-- The adapter answers at most once for each target of a request with different keys.
use push_dispatch.Base.{
  ◌≡◌, ◌⊎◌, inl, inr, refl, sym, ap, subst, ◌∙◌, ◌++◌, String, Bool, true, false, List, [], ◌∷◌,
  has, Distinct, length, str_eq_iff, ltb, ◌==◌, Bool-cases, Option-cases, arith,
}
use push_dispatch.Push.Errors.{Result, Result-cases, ok, err}
use push_dispatch.Push.Types.{
  Target, TargetType, fid, token, other, Message, target_key, target_keys, max_batch_targets,
}
use push_dispatch.Push.Payload.{Library, validate_message}
use push_dispatch.Push.Batch.Settling.{result_keys}
use push_dispatch.Push.Send.Report.{has-append, target_keys-append}
use push_dispatch.Push.Fcm.{
  Messaging, SendResponse, BatchResponse, is_token, is_fid, of_kind, ordered_targets, result_of,
  results_of, read_response, to_multicast_message, send_multicast, send_fcm,
}

of_kind-has :
    (kind : TargetType → Bool) (ts : List Target) (k : String)
    → has (target_keys ts) k ≡ false
    → has (target_keys (of_kind kind ts)) k ≡ false
unfolding of_kind
of_kind-has kind [] k h = refl
of_kind-has kind (t ∷ ts) k h = ground (arith, of_kind-has kind ts k)

ordered_targets-has :
    (ts : List Target) (k : String)
    → has (target_keys ts) k ≡ false
    → has (target_keys (of_kind is_token ts) ++ target_keys (of_kind is_fid ts)) k ≡ false
ordered_targets-has ts k h = ground (
  arith,
  has-append (target_keys (of_kind is_token ts)) (target_keys (of_kind is_fid ts)) k,
  of_kind-has is_token ts k h,
  of_kind-has is_fid ts k h,
)

-- A new key between two parts.
Distinct-between :
    (xs ys : List String) (k : String)
    → has (xs ++ ys) k ≡ false
    → Distinct (xs ++ ys)
    → Distinct (xs ++ (k ∷ ys))
Distinct-between [] ys k h d = (h, d)
Distinct-between (x ∷ xs) ys k h d = (
  ground (arith, has-append xs (k ∷ ys) x, has-append xs ys x, str_eq_iff x k, str_eq_iff k x, d.0),
  Distinct-between xs ys k (ground arith) d.1,
)

kind_cases :
    (x : TargetType)
    → ((is_token x ≡ true) × (is_fid x ≡ false))
      ⊎ ((is_token x ≡ false) × (is_fid x ≡ true))
      ⊎ ((is_token x ≡ false) × (is_fid x ≡ false))
kind_cases token = inl (refl, refl)
kind_cases fid = inr (inl (refl, refl))
kind_cases (other s) = inr (inr (refl, refl))

ordered_targets-Distinct :
    (ts : List Target)
    → Distinct (target_keys ts)
    → Distinct (target_keys (of_kind is_token ts) ++ target_keys (of_kind is_fid ts))
unfolding of_kind
ordered_targets-Distinct [] d = tt
ordered_targets-Distinct (t ∷ ts) d = elim (kind_cases t.target_type) [
  | inl (a, b) ↦
      rw (a, b) (ordered_targets-has ts (target_key t) d.0, ordered_targets-Distinct ts d.1)
  | inr (inl (a, b)) ↦
      rw (a, b)
        (Distinct-between (target_keys (of_kind is_token ts)) (target_keys (of_kind is_fid ts))
          (target_key t) (ordered_targets-has ts (target_key t) d.0)
          (ordered_targets-Distinct ts d.1))
  | inr (inr (a, b)) ↦ rw (a, b) (ordered_targets-Distinct ts d.1)
]

module _ {W : Type 0} (library : Library) (messaging : Messaging W) where
  results_of-keys :
      (ts : List Target) (rs : List SendResponse)
      → length rs ≡ length ts
      → result_keys (results_of library messaging ts rs) ≡ target_keys ts
  unfolding results_of result_of
  results_of-keys [] rs h = refl
  results_of-keys (t ∷ ts) [] h = absurd (omega arith)
  results_of-keys (t ∷ ts) (r ∷ rs) h = elim (Bool-cases r.success) [
    | inl good ↦ rw good (ap (λ l. target_key t ∷ l) (results_of-keys ts rs (omega arith)))
    | inr bad ↦ rw bad (ap (λ l. target_key t ∷ l) (results_of-keys ts rs (omega arith)))
  ]

  read_response-keys :
      (ordered : List Target) (answer : Result BatchResponse)
      → let keys = result_keys (read_response library messaging ordered answer).0.results in
        (keys ≡ []) ⊎ (keys ≡ target_keys ordered)
  unfolding read_response
  read_response-keys ordered (err e) = inl refl
  read_response-keys ordered (ok response) =
      elim (Bool-cases (length response.responses == length ordered)) [
        | inr unequal ↦ inl (rw unequal)
        | inl same ↦ inr (rw same (results_of-keys ordered response.responses (ground arith)))
      ]

  send_multicast-keys :
      (m : Message) (targets : List Target) (w : W)
      → let keys = result_keys (send_multicast library messaging m targets w).0.0.results in
        (keys ≡ []) ⊎ (keys ≡ target_keys (ordered_targets targets))
  unfolding send_multicast
  send_multicast-keys m targets w =
      elim (Result-cases (to_multicast_message library messaging m (messaging.now w).0)) [
        | inr (e, h) ↦ inl (rw (h, send_multicast))
        | inl (multicast, h) ↦
            elim (Bool-cases (length (ordered_targets targets) == length targets)) [
              | inr fewer ↦ inl (rw (h, fewer, send_multicast))
              | inl all ↦
                  rw (h, all, send_multicast) (read_response-keys (ordered_targets targets) _)
            ]
      ]

  -- The results of `SendBatch` are none, or one for each token of the request and then one for each
  -- installation, each kind in the order of the request.
  send_fcm-keys :
      (m : Message) (targets : List Target) (w : W)
      → let keys = result_keys (send_fcm library messaging m targets w).0.0.results in
        (keys ≡ []) ⊎ (keys ≡ target_keys (ordered_targets targets))
  unfolding send_fcm
  send_fcm-keys m targets w = elim (Bool-cases (length targets == 0)) [
    | inl empty ↦ inl (rw (empty, send_fcm))
    | inr some_targets ↦ elim (Bool-cases (ltb max_batch_targets (length targets))) [
      | inl many ↦ inl (rw (some_targets, many, send_fcm))
      | inr few ↦ elim (Option-cases (validate_message library m)) [
        | inr (e, bad) ↦ inl (rw (some_targets, few, bad, send_fcm))
        | inl valid ↦ rw (some_targets, few, valid, send_fcm) (send_multicast-keys m targets w)
      ]
    ]
  ]

  -- For a request with different keys, whatever the client answers, no two results of `SendBatch`
  -- are for the same target.
  pub send_fcm-Distinct :
      (m : Message) (targets : List Target) (w : W)
      → Distinct (target_keys targets)
      → Distinct (result_keys (send_fcm library messaging m targets w).0.0.results)
  unfolding ordered_targets
  send_fcm-Distinct m targets w d = elim (send_fcm-keys m targets w) [
    | inl nothing ↦ subst Distinct (sym nothing) tt
    | inr all ↦
        subst Distinct
          (sym (all ∙ target_keys-append (of_kind is_token targets) (of_kind is_fid targets)))
          (ordered_targets-Distinct targets d)
  ]
