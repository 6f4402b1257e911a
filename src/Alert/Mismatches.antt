-- ===== src/Alert/Mismatches.antt =====
-- What the reconciliation service notifies of, and what it remembers
-- (backend/internal/service/reconciliation/service.go).
use wcs_transfer.Base.{
  ◌≡◌, refl, sym, ap, ◌∙◌, inl, inr, Bool, true, not, ◌||◌, some, List, [], ◌∷◌, ◌++◌, arith,
  if◌then◌else◌, Bool-cases, ℤ, eqb_ℤ, eqb_ℤ_iff, int_eq, lookup-insert, lookup-erase,
}
use mathlib.Core.Path.{fun_ext}
use mathlib.Core.List.{append-nil, append_assoc}
use wcs_transfer.Entity.{Money}
use wcs_transfer.Alert.{
  Alerted, Poll, Reconciliation, is_alerted, mark_alerted, clear_alerted, in_tolerance,
  check_mismatch, check_mismatches, run_reconciliation, start,
}

module _ (threshold : Money) where
  -- Whether users are marked once an item has been looked at.
  abbrev pub marks_after : (ℤ → Bool) → Reconciliation → ℤ → Bool
  marks_after marked item k =
      if eqb_ℤ item.user_id k then not (in_tolerance threshold item) else marked k

  abbrev pub marks_after_all : (ℤ → Bool) → List Reconciliation → ℤ → Bool
  marks_after_all marked [] = marked
  marks_after_all marked (item ∷ items) = marks_after_all (marks_after marked item) items

  -- The mismatches of users that are not marked when their item is looked at.
  abbrev pub alarms : (ℤ → Bool) → List Reconciliation → List Reconciliation
  alarms marked [] = []
  alarms marked (item ∷ items) =
      let rest = alarms (marks_after marked item) items in
      if in_tolerance threshold item || marked item.user_id then rest else item ∷ rest

  module _ (n : Bool) where
    check_mismatch-alerted :
        (item : Reconciliation) (p : Poll ℤ Reconciliation) (k : ℤ)
        → is_alerted k (check_mismatch n threshold item p).alerted
          ≡ marks_after (λ j. is_alerted j p.alerted) item k
    unfolding check_mismatch mark_alerted clear_alerted is_alerted
    check_mismatch-alerted item p k = ground (
      arith,
      eqb_ℤ_iff item.user_id k,
      lookup-insert item.user_id k true p.alerted,
      lookup-erase item.user_id k p.alerted,
    )

    check_mismatch-logged :
        (item : Reconciliation) (p : Poll ℤ Reconciliation)
        → (check_mismatch n threshold item p).logged ≡ (
            if in_tolerance threshold item || is_alerted item.user_id p.alerted
            then p.logged
            else p.logged ++ (item ∷ []))
    unfolding check_mismatch mark_alerted
    check_mismatch-logged item p = ground arith

    alarms-step :
        (marked : ℤ → Bool) (item : Reconciliation) (items before after : List Reconciliation)
        → after ≡ (
            if in_tolerance threshold item || marked item.user_id
            then before
            else before ++ (item ∷ []))
        → after ++ alarms (marks_after marked item) items ≡ before ++ alarms marked (item ∷ items)
    alarms-step marked item items before after h =
        elim (Bool-cases (in_tolerance threshold item || marked item.user_id)) [
          | inl quiet ↦
              rw quiet (ap (λ l. l ++ alarms (marks_after marked item) items) (rw quiet at h))
          | inr loud ↦ rw loud (
              ap (λ l. l ++ alarms (marks_after marked item) items) (rw loud at h)
              ∙ append_assoc before (item ∷ []) (alarms (marks_after marked item) items))
        ]

    check_mismatches-alarms :
        (items : List Reconciliation) (p : Poll ℤ Reconciliation)
        → ((check_mismatches n threshold items p).logged
            ≡ p.logged ++ alarms (λ k. is_alerted k p.alerted) items)
          × ((k : ℤ)
              → is_alerted k (check_mismatches n threshold items p).alerted
                ≡ marks_after_all (λ j. is_alerted j p.alerted) items k)
    unfolding check_mismatches
    check_mismatches-alarms [] p = (sym (append-nil p.logged), λ k. refl)
    check_mismatches-alarms (item ∷ items) p =
        let marks : (λ k. is_alerted k (check_mismatch n threshold item p).alerted)
            ≡ marks_after (λ j. is_alerted j p.alerted) item =
          fun_ext (check_mismatch-alerted item p) in
        let (logged, alerted) = check_mismatches-alarms items (check_mismatch n threshold item p) in
        (
          logged
              ∙ ap (λ marked. (check_mismatch n threshold item p).logged ++ alarms marked items)
                  marks
              ∙ alarms-step (λ k. is_alerted k p.alerted) item items p.logged
                  (check_mismatch n threshold item p).logged (check_mismatch-logged item p),
          λ k. alerted k ∙ ap (λ marked. marks_after_all marked items k) marks,
        )

    -- What is logged is also sent, if there is a notifier.
    abbrev IsSent : Poll ℤ Reconciliation → Type 0
    IsSent p = p.sent ≡ (if n then p.logged else [])

    check_mismatch-IsSent :
        (item : Reconciliation) (p : Poll ℤ Reconciliation)
        → IsSent p
        → IsSent (check_mismatch n threshold item p)
    unfolding check_mismatch mark_alerted
    check_mismatch-IsSent item p h = ground (arith, h)

    check_mismatches-IsSent :
        (items : List Reconciliation) (p : Poll ℤ Reconciliation)
        → IsSent p
        → IsSent (check_mismatches n threshold items p)
    unfolding check_mismatches
    check_mismatches-IsSent [] p h = h
    check_mismatches-IsSent (item ∷ items) p h =
        check_mismatches-IsSent items (check_mismatch n threshold item p)
          (check_mismatch-IsSent item p h)

    -- A poll of the reconciliation whose query answers logs every mismatch of a user who was not
    -- marked when the item came up, in order, and sends the same to the notifier, or nothing if there
    -- is none. An item in tolerance takes its user's mark away, a mismatch sets it, and users without
    -- an item keep theirs.
    pub run_reconciliation-alarms :
        (items : List Reconciliation) (alerted : Alerted ℤ)
        → ((run_reconciliation n threshold (some items) alerted).logged
            ≡ alarms (λ k. is_alerted k alerted) items)
          × ((run_reconciliation n threshold (some items) alerted).sent
              ≡ (if n then alarms (λ k. is_alerted k alerted) items else []))
          × ((k : ℤ)
              → is_alerted k (run_reconciliation n threshold (some items) alerted).alerted
                ≡ marks_after_all (λ j. is_alerted j alerted) items k)
    unfolding run_reconciliation
    run_reconciliation-alarms items alerted =
        let begin = start (λ (i : Reconciliation). i.user_id) n alerted in
        let (logged, marked) = check_mismatches-alarms items begin in
        let sent = check_mismatches-IsSent items begin (ground arith) in
        (logged, sent ∙ ap (λ l. if n then l else []) logged, marked)
