-- ===== src/Alert/Marks.antt =====
-- What a poll has notified of, and a poll over the items of a query
-- (backend/internal/service/walletalert/service.go, which the other services repeat).
use wcs_transfer.Base.{
  Bool, true, false, Option, none, some, List, [], ◌∷◌, ◌++◌, if◌then◌else◌, ℤ, pos, is_positive,
  Eq, Table, lookup, insert, erase,
}
use wcs_transfer.Entity.{Duration}

-- `struct{}`
pub data Present : Type 0 where
  present : Present

-- `map[K]bool`
abbrev pub Alerted : Type 0 → Type 0
Alerted K = Table K Bool

abbrev pub or_default : ℤ → ℤ → ℤ
or_default default value = if is_positive value then value else default

abbrev pub minute : Duration
minute = pos 60000000000

module _ {K : Type 0} ⦃e : Eq K⦄ where
  -- `s.alerted[key]`, false for a key that is not there.
  unfoldable pub is_alerted : K → Alerted K → Bool
  is_alerted k m = elim (lookup k m) [ none ↦ false | some b ↦ b ]

  unfoldable pub mark_alerted : K → Alerted K → Alerted K × Bool
  mark_alerted k m = if is_alerted k m then (m, true) else (insert k true m, false)

  unfoldable pub clear_alerted : K → Alerted K → Alerted K
  clear_alerted k m = erase k m

  unfoldable pub is_active : K → Table K Present → Bool
  is_active k active = elim (lookup k active) [ none ↦ false | some present ↦ true ]

  unfoldable pub clear_recovered : Table K Present → Alerted K → Alerted K
  clear_recovered active [] = []
  clear_recovered active ((k, b) ∷ m) =
      let rest = clear_recovered active m in if is_active k active then (k, b) ∷ rest else rest

-- A poll under way: the state, the keys of this poll, the items logged and those sent.
pub record Poll (K I : Type 0) : Type 0 where
  pub alerted : Alerted K
  pub active : Table K Present
  pub logged : List I
  pub sent : List I

module _ {K I : Type 0} ⦃e : Eq K⦄ (key : I → K) (has_notifier : Bool) where
  abbrev pub notify : I → Poll K I → Poll K I
  notify item p = record p {
    logged = p.logged ++ (item ∷ []);
    sent = if has_notifier then p.sent ++ (item ∷ []) else p.sent;
  }

  -- The items that are anomalies: mark each, and notify of those that were not marked.
  unfoldable pub check_item : I → Poll K I → Poll K I
  unfolding mark_alerted
  check_item item p =
      let active = insert (key item) present p.active in
      let (alerted, already) = mark_alerted (key item) p.alerted in
      let marked = record p { alerted = alerted; active = active } in
      if already then marked else notify item marked

  unfoldable pub check_items : List I → Poll K I → Poll K I
  unfolding check_item
  check_items [] p = p
  check_items (item ∷ items) p = check_items items (check_item item p)

  abbrev pub start : Alerted K → Poll K I
  start alerted = record { alerted = alerted; active = []; logged = []; sent = [] }

  -- `none` is a query that failed.
  unfoldable pub run_once : Option (List I) → Alerted K → Poll K I
  unfolding check_items
  run_once none alerted = start alerted
  run_once (some items) alerted =
      let p = check_items items (start alerted) in
      record p { alerted = clear_recovered p.active p.alerted }

-- Users whose requests the wallet blocks.
