-- ===== src/Alert/Polls.antt =====
-- Which items a poll of an alert service notifies of, and what it remembers
-- (backend/internal/service/walletalert, billingalert and provideralert, `runOnce`).
use wcs_transfer.Base.{
  ℕ, zero, suc, ◌≡◌, refl, sym, ap, ◌∙◌, inl, inr, Bool, true, false, ◌&&◌, ◌||◌, none, some, List,
  [], ◌∷◌, ◌++◌, arith, if◌then◌else◌, Bool-cases, Eq, Table, lookup, insert, lookup-insert,
}
use mathlib.Core.Path.{fun_ext}
use mathlib.Core.List.{append-nil, append_assoc}
use wcs_transfer.Alert.{
  Present, present, Alerted, Poll, is_alerted, mark_alerted, is_active, clear_recovered, check_item,
  check_items, run_once, start,
}

module _ {K I : Type 0} ⦃e : Eq K⦄ (key : I → K) where
  abbrev pub is_among : List I → K → Bool
  is_among [] k = false
  is_among (item ∷ items) k = e.beq (key item) k || is_among items k

  -- The first item of each key that is not an old one.
  abbrev pub fresh : (K → Bool) → List I → List I
  fresh old [] = []
  fresh old (item ∷ items) =
      if old (key item)
      then fresh old items
      else item ∷ fresh (λ k. e.beq (key item) k || old k) items

  is_alerted-mark_alerted :
      (k j : K) (m : Alerted K) → is_alerted j (mark_alerted k m).0 ≡ e.beq k j || is_alerted j m
  unfolding is_alerted mark_alerted
  is_alerted-mark_alerted k j m = ground (arith, e.beq_iff k j, lookup-insert k j true m)

  is_active-insert :
      (k j : K) (active : Table K Present)
      → is_active j (insert k present active) ≡ e.beq k j || is_active j active
  unfolding is_active
  is_active-insert k j active = ground (arith, lookup-insert k j present active)

  lookup-clear_recovered :
      (active : Table K Present) (k : K) (m : Alerted K)
      → is_alerted k (clear_recovered active m) ≡ is_active k active && is_alerted k m
  unfolding is_alerted clear_recovered lookup
  lookup-clear_recovered active k [] = ground arith
  lookup-clear_recovered active k ((j, b) ∷ m) =
      ground (arith, e.beq_iff j k, lookup-clear_recovered active k m)

  is_active-none : (k : K) → is_active {K = K} k [] ≡ false
  unfolding is_active lookup
  is_active-none k = refl

  fresh-step :
      (old : K → Bool) (item : I) (items : List I) (before after : List I)
      → after ≡ (if old (key item) then before else before ++ (item ∷ []))
      → after ++ fresh (λ k. e.beq (key item) k || old k) items ≡ before ++ fresh old (item ∷ items)
  fresh-step old item items before after h = elim (Bool-cases (old (key item))) [
    | inl seen ↦
        (let same : (λ k. e.beq (key item) k || old k) ≡ old =
            fun_ext (λ k. ground (arith, e.beq_iff (key item) k, seen)) in
          rw seen
            (ap (λ f. after ++ fresh f items) same ∙ ap (λ l. l ++ fresh old items) (rw seen at h)))
    | inr new ↦ rw new (
        ap (λ l. l ++ fresh (λ k. e.beq (key item) k || old k) items) (rw new at h)
        ∙ append_assoc before (item ∷ []) (fresh (λ k. e.beq (key item) k || old k) items))
  ]

  module _ (n : Bool) where
    check_item-alerted :
        (item : I) (p : Poll K I) (k : K)
        → is_alerted k (check_item key n item p).alerted
          ≡ e.beq (key item) k || is_alerted k p.alerted
    unfolding check_item
    check_item-alerted item p k = elim (Bool-cases (mark_alerted (key item) p.alerted).1) [
      | inl old ↦ rw old (is_alerted-mark_alerted (key item) k p.alerted)
      | inr new ↦ rw new (is_alerted-mark_alerted (key item) k p.alerted)
    ]

    check_item-active :
        (item : I) (p : Poll K I) (k : K)
        → is_active k (check_item key n item p).active ≡ e.beq (key item) k || is_active k p.active
    unfolding check_item
    check_item-active item p k = elim (Bool-cases (mark_alerted (key item) p.alerted).1) [
      | inl old ↦ rw old (is_active-insert (key item) k p.active)
      | inr new ↦ rw new (is_active-insert (key item) k p.active)
    ]

    check_item-logged :
        (item : I) (p : Poll K I)
        → (check_item key n item p).logged
          ≡ (if is_alerted (key item) p.alerted then p.logged else p.logged ++ (item ∷ []))
    unfolding check_item mark_alerted
    check_item-logged item p = elim (Bool-cases (is_alerted (key item) p.alerted)) [
      | inl old ↦ rw old refl
      | inr new ↦ rw new refl
    ]

    check_items-alerted :
        (items : List I) (p : Poll K I) (k : K)
        → is_alerted k (check_items key n items p).alerted
          ≡ is_among items k || is_alerted k p.alerted
    unfolding check_items
    check_items-alerted [] p k = refl
    check_items-alerted (item ∷ items) p k =
        ground (
          arith,
          check_items-alerted items (check_item key n item p) k,
          check_item-alerted item p k,
        )

    check_items-active :
        (items : List I) (p : Poll K I) (k : K)
        → is_active k (check_items key n items p).active ≡ is_among items k || is_active k p.active
    unfolding check_items
    check_items-active [] p k = refl
    check_items-active (item ∷ items) p k =
        ground
          (arith, check_items-active items (check_item key n item p) k, check_item-active item p k)

    check_items-logged :
        (items : List I) (p : Poll K I)
        → (check_items key n items p).logged ≡ p.logged ++ fresh (λ k. is_alerted k p.alerted) items
    unfolding check_items
    check_items-logged [] p = sym (append-nil p.logged)
    check_items-logged (item ∷ items) p =
        let marks : (λ k. is_alerted k (check_item key n item p).alerted)
            ≡ (λ k. e.beq (key item) k || is_alerted k p.alerted) =
          fun_ext (check_item-alerted item p) in
        let rest =
          check_items-logged items (check_item key n item p)
          ∙ ap (λ old. (check_item key n item p).logged ++ fresh old items) marks in
        rest
        ∙ fresh-step (λ k. is_alerted k p.alerted) item items p.logged
            (check_item key n item p).logged (check_item-logged item p)

    -- A poll whose query answers notifies of the first item of each key that was not marked, in
    -- order. After it the marked keys are those of the items, whatever was marked before.
    pub run_once-fresh :
        (items : List I) (alerted : Alerted K)
        → ((run_once key n (some items) alerted).logged ≡ fresh (λ k. is_alerted k alerted) items)
          × ((k : K)
              → is_alerted k (run_once key n (some items) alerted).alerted ≡ is_among items k)
    unfolding run_once
    run_once-fresh items alerted =
        let p = start key n alerted in
        (
          check_items-logged items p,
          λ k. ground (
            arith,
            is_active-none k,
            lookup-clear_recovered (check_items key n items p).active k
                (check_items key n items p).alerted,
            check_items-active items p k,
            check_items-alerted items p k,
          ),
        )

    -- Polls whose query fails.
    abbrev pub failing : ℕ → Alerted K → Alerted K
    failing zero alerted = alerted
    failing (suc times) alerted = failing times (run_once key n none alerted).alerted

    failing-keeps : (times : ℕ) (alerted : Alerted K) → failing times alerted ≡ alerted
    unfolding run_once
    failing-keeps zero alerted = refl
    failing-keeps (suc times) alerted = failing-keeps times alerted

    -- A poll that follows one whose query answered, with any number of polls with a failing query
    -- between them, notifies of the first item of each key that the earlier poll did not have,
    -- whatever was marked before both.
    pub run_once-run_once :
        (times : ℕ) (earlier items : List I) (alerted : Alerted K)
        → (run_once key n
            (some items)
            (failing times (run_once key n (some earlier) alerted).alerted)).logged
          ≡ fresh (is_among earlier) items
    run_once-run_once times earlier items alerted =
        rw (failing-keeps times (run_once key n (some earlier) alerted).alerted) (
          (run_once-fresh items (run_once key n (some earlier) alerted).alerted).0
          ∙ ap (λ old. fresh old items) (fun_ext ((run_once-fresh earlier alerted).1)))
