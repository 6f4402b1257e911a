-- ===== src/KeyHealth/Refines.antt =====
-- The tracker of cooldowns against what it promises: a book with the last penalty of each key, from
-- which nothing is ever deleted by a reading (backend/internal/service/keyhealth/tracker.go).
use wcs_transfer.Base.{
  ◌≡◌, refl, ap, ◌∙◌, true, ◌&&◌, Option, none, some, List, [], ◌∷◌, arith, if◌then◌else◌, ℤ, ◌+ℤ◌,
  ◌≤ℤ◌, eqb_ℤ, is_positive, eqb_ℤ_iff, Text, int_eq, lookup, lookup-insert, lookup-erase,
}
use wcs_transfer.Entity.{Time, Duration}
use wcs_transfer.KeyHealth.{State, Tracker, current, penalize, clear}
use wcs_transfer.KeyHealth.Laws.{live}

-- A call of one of the tracker's methods, with the time at which it is made.
pub data Call : Type 0 where
  penalized : ℤ → Duration → Text → Time → Call
  cleared : ℤ → Time → Call
  asked : ℤ → Time → Call

-- What the tracker answers to the readings among the calls.
unfoldable pub run : List Call → Tracker → List (Option State)
run [] t = []
run (penalized key_id duration reason now ∷ calls) t =
    run calls (penalize t key_id duration reason now)
run (cleared key_id now ∷ calls) t = run calls (clear t key_id)
run (asked key_id now ∷ calls) t = let (t', answer) = current t key_id now in answer ∷ run calls t'

abbrev pub Book : Type 0
Book = ℤ → Option State

abbrev pub note : ℤ → Option State → Book → Book
note key_id state book other = if eqb_ℤ key_id other then state else book other

-- The same calls on a book: a reading changes nothing, and is answered with the last penalty of the
-- key while it lasts. Keys without a positive id have none.
abbrev pub replay : List Call → Book → List (Option State)
replay [] book = []
replay (penalized key_id duration reason now ∷ calls) book = replay calls (
    if is_positive key_id && is_positive duration
    then note key_id (some (record { until = now +ℤ duration; reason = reason })) book
    else book)
replay (cleared key_id now ∷ calls) book = replay calls (note key_id none book)
replay (asked key_id now ∷ calls) book =
    (if is_positive key_id then live now (book key_id) else none) ∷ replay calls book

abbrev pub time_of : Call → Time
time_of (penalized key_id duration reason now) = now
time_of (cleared key_id now) = now
time_of (asked key_id now) = now

-- The clock does not run backwards.
abbrev pub InOrder : Time → List Call → Type 0
InOrder now [] = Unit {0}
InOrder now (call ∷ calls) = (now ≤ℤ time_of call) × InOrder (time_of call) calls

-- From a time on, table and book say the same of every key that can be in cooldown.
abbrev Agrees : Time → Tracker → Book → Type 0
Agrees now t book =
    (key_id : ℤ) (later : Time)
    → now ≤ℤ later
    → is_positive key_id ≡ true
    → live later (lookup key_id t) ≡ live later (book key_id)

penalize-Agrees :
    (t : Tracker) (book : Book) (key_id : ℤ) (duration : Duration) (reason : Text)
    (before now : Time)
    → before ≤ℤ now
    → Agrees before t book
    → Agrees now (penalize t key_id duration reason now) (
        if is_positive key_id && is_positive duration
        then note key_id (some (record { until = now +ℤ duration; reason = reason })) book
        else book)
unfolding penalize
penalize-Agrees t book key_id duration reason before now h same other later later_h p = ground (
  arith,
  h,
  later_h,
  p,
  same other later,
  lookup-insert key_id other (record { until = now +ℤ duration; reason = reason }) t,
)

clear-Agrees :
    (t : Tracker) (book : Book) (key_id : ℤ) (before now : Time)
    → before ≤ℤ now
    → Agrees before t book
    → Agrees now (clear t key_id) (note key_id none book)
unfolding clear
clear-Agrees t book key_id before now h same other later later_h p =
    ground (arith, same other later, lookup-erase key_id other t, eqb_ℤ_iff key_id other)

current-Agrees :
    (t : Tracker) (book : Book) (key_id : ℤ) (before now : Time)
    → before ≤ℤ now
    → Agrees before t book
    → Agrees now (current t key_id now).0 book
unfolding current
current-Agrees t book key_id before now h same other later later_h p =
    ground (arith, same other later, lookup-erase key_id other t, eqb_ℤ_iff key_id other)

current-live :
    (t : Tracker) (book : Book) (key_id : ℤ) (before now : Time)
    → before ≤ℤ now
    → Agrees before t book
    → (current t key_id now).1 ≡ (if is_positive key_id then live now (book key_id) else none)
unfolding current
current-live t book key_id before now h same = ground (arith, same key_id now)

run-replay :
    (calls : List Call) (t : Tracker) (book : Book) (before : Time)
    → InOrder before calls
    → Agrees before t book
    → run calls t ≡ replay calls book
unfolding run
run-replay [] t book before h same = refl
run-replay (penalized key_id duration reason now ∷ calls) t book before (h, rest) same =
    run-replay calls (penalize t key_id duration reason now) _ now rest
      (penalize-Agrees t book key_id duration reason before now h same)
run-replay (cleared key_id now ∷ calls) t book before (h, rest) same =
    run-replay calls (clear t key_id) (note key_id none book) now rest
      (clear-Agrees t book key_id before now h same)
run-replay (asked key_id now ∷ calls) t book before (h, rest) same =
    ap (λ answer. answer ∷ run calls (current t key_id now).0)
      (current-live t book key_id before now h same)
    ∙ ap (◌∷◌ (if is_positive key_id then live now (book key_id) else none)) (
        run-replay calls (current t key_id now).0 book now rest
          (current-Agrees t book key_id before now h same))

-- Whatever calls are made of a fresh tracker, at times that do not run backwards, every reading is
-- answered as from a book that keeps the last penalty of each key, ends it at its time or when the
-- key is cleared, and that no reading changes.
pub run_refines :
    (calls : List Call) (first : Time)
    → InOrder first calls
    → run calls [] ≡ replay calls (λ key_id. none)
unfolding lookup
run_refines calls first h = run-replay calls [] (λ key_id. none) first h (λ k later l p. refl)
