-- ===== src/Examples/Polling.antt =====
-- Quotas, alerts and tokens at concrete inputs.
use wcs_transfer.Base.{
  ℕ, ◌+◌, ◌-◌, ◌≡◌, refl, ap, ◌∙◌, ◌⊎◌, Bool, true, false, ◌&&◌, Option, none, some, List, [], ◌∷◌,
  ◌++◌, map, arith, ltb, if◌then◌else◌, All, ℤ, pos, negsuc, ◌+ℤ◌, ◌/ℤ◌, ◌≤ℤ◌, eqb_ℤ, eqb_ℤ_iff,
  Text, int_eq, lookup,
}
use wcs_transfer.Examples.{owner_key}
use wcs_transfer.Quota.{
  QuotaKey, rpm, daily_requests, daily_tokens, CounterStore, CounterLaws, minute_of,
}
use wcs_transfer.Quota.Limits.{admitted, admitted_bound}
use wcs_transfer.Alert.{Alerted, Reconciliation, is_alerted, run_reconciliation}
use wcs_transfer.Alert.Mismatches.{alarms, marks_after_all, run_reconciliation-alarms}
use wcs_transfer.Alert.Polls.{fresh}
use wcs_transfer.Tokens.{
  Codec, CodecLaws, IsPlain, dot, accepted, issue_token, parse_token, ClaimKind,
}
use wcs_transfer.Tokens.RoundTrip.{parse_token-issue_token}

abbrev same_quota : QuotaKey → QuotaKey → Bool
same_quota (rpm a m) (rpm b n) = eqb_ℤ a b && eqb_ℤ m n
same_quota (daily_requests a m) (daily_requests b n) = eqb_ℤ a b && eqb_ℤ m n
same_quota (daily_tokens a m) (daily_tokens b n) = eqb_ℤ a b && eqb_ℤ m n
same_quota (rpm a m) (daily_requests b n) = false
same_quota (rpm a m) (daily_tokens b n) = false
same_quota (daily_requests a m) (rpm b n) = false
same_quota (daily_requests a m) (daily_tokens b n) = false
same_quota (daily_tokens a m) (rpm b n) = false
same_quota (daily_tokens a m) (daily_requests b n) = false

same_quota_refl : (k : QuotaKey) → same_quota k k ≡ true
same_quota_refl (rpm a m) = ground (arith, eqb_ℤ_iff a a, eqb_ℤ_iff m m)
same_quota_refl (daily_requests a m) = ground (arith, eqb_ℤ_iff a a, eqb_ℤ_iff m m)
same_quota_refl (daily_tokens a m) = ground (arith, eqb_ℤ_iff a a, eqb_ℤ_iff m m)

same_quota-eq : (k j : QuotaKey) → same_quota k j ≡ true → j ≡ k
same_quota-eq (rpm a m) (rpm b n) e = ground (arith, eqb_ℤ_iff a b, eqb_ℤ_iff m n)
same_quota-eq (daily_requests a m) (daily_requests b n) e =
    ground (arith, eqb_ℤ_iff a b, eqb_ℤ_iff m n)
same_quota-eq (daily_tokens a m) (daily_tokens b n) e = ground (arith, eqb_ℤ_iff a b, eqb_ℤ_iff m n)
same_quota-eq (rpm a m) (daily_requests b n) e = cc
same_quota-eq (rpm a m) (daily_tokens b n) e = cc
same_quota-eq (daily_requests a m) (rpm b n) e = cc
same_quota-eq (daily_requests a m) (daily_tokens b n) e = cc
same_quota-eq (daily_tokens a m) (rpm b n) e = cc
same_quota-eq (daily_tokens a m) (daily_requests b n) e = cc

-- A store that never fails.
abbrev memory : CounterStore (QuotaKey → ℤ)
memory = record {
  increment_by_with_ttl = λ k amount ttl counts.
      (λ j. if same_quota k j then counts j +ℤ amount else counts j, some (counts k +ℤ amount));
  read_counter = λ k counts. some (counts k);
}

memory_laws : CounterLaws memory
memory_laws = record {
  count = λ counts k. counts k;
  increment-count = λ k amount ttl r n e. (ground (arith, e), ground (arith, e, same_quota_refl k));
  increment-failed = λ k amount ttl r h e. cc;
  increment-other = λ k j amount ttl r ne. ground (arith, ne, same_quota-eq k j);
  read-count = λ k r n e. ground (arith, e);
}

abbrev none_yet : QuotaKey → ℤ
none_yet k = pos 0

first_minute : minute_of (pos 1) ≡ pos 0
unfolding ◌/ℤ◌
first_minute = refl

first_minute_2 : minute_of (pos 2) ≡ pos 0
unfolding ◌/ℤ◌
first_minute_2 = refl

first_minute_3 : minute_of (pos 3) ≡ pos 0
unfolding ◌/ℤ◌
first_minute_3 = refl

-- Three requests in the first minute, of a key that may make two.
admitted_bound_example :
    (admitted memory memory_laws owner_key (pos 1 ∷ pos 2 ∷ pos 3 ∷ []) none_yet ≡ 0)
    ⊎ (pos 0 +ℤ pos (admitted memory memory_laws owner_key (pos 1 ∷ pos 2 ∷ pos 3 ∷ []) none_yet)
        ≤ℤ pos 2)
unfolding memory_laws
admitted_bound_example =
    admitted_bound memory memory_laws owner_key (pos 0) (pos 1 ∷ pos 2 ∷ pos 3 ∷ []) none_yet refl
      refl (first_minute, (first_minute_2, (first_minute_3, tt)))

-- Users 1 and 2 are anomalies, 2 twice; 1 was alerted before.
abbrev user : ℤ → ℤ
user u = u

abbrev seen : Alerted ℤ
seen = (pos 1, true) ∷ []

abbrev anomalies : List ℤ
anomalies = pos 1 ∷ pos 2 ∷ pos 2 ∷ []

fresh-anomalies : fresh user (λ k. is_alerted k seen) anomalies ≡ pos 2 ∷ []
unfolding is_alerted lookup
fresh-anomalies = refl

-- User 1 is out of tolerance and was alerted before, user 2 is out of it for the first time, and
-- user 1 comes up once more, in tolerance.
abbrev reconciliations : List Reconciliation
reconciliations =
    record { user_id = pos 1; wallet_vs_ledger_diff = pos 50; ledger_vs_logs_diff = pos 0 }
    ∷ record { user_id = pos 2; wallet_vs_ledger_diff = pos 0; ledger_vs_logs_diff = negsuc 20 }
    ∷ record { user_id = pos 1; wallet_vs_ledger_diff = pos 10; ledger_vs_logs_diff = pos 0 }
    ∷ []

run_reconciliation-alarms_example :
    ((run_reconciliation true (pos 10) (some reconciliations) seen).logged
      ≡ alarms (pos 10) (λ k. is_alerted k seen) reconciliations)
    × ((run_reconciliation true (pos 10) (some reconciliations) seen).sent
        ≡ alarms (pos 10) (λ k. is_alerted k seen) reconciliations)
    × ((k : ℤ)
        → is_alerted k (run_reconciliation true (pos 10) (some reconciliations) seen).alerted
          ≡ marks_after_all (pos 10) (λ j. is_alerted j seen) reconciliations k)
run_reconciliation-alarms_example = run_reconciliation-alarms (pos 10) true reconciliations seen

-- Claims that are a number, which is the subject and the time of expiry.
abbrev numbers : ClaimKind ℕ
numbers = record { has_subject = λ c. ltb 0 c; expires = λ c. pos c }

abbrev pub high : ℕ → ℕ
high c = c + 0x4000

abbrev pub low : ℕ → ℕ
low c = c - 0x4000

abbrev unmarshal_number : Text → Option ℕ
unmarshal_number [] = none
unmarshal_number (c ∷ s) = some c

-- Characters are moved out of the way of dots and spaces.
abbrev shifted : Codec ℕ
shifted = record {
  sign = λ secret value. map high (secret ++ value);
  encode_base64 = map high;
  decode_base64 = λ s. some (map low s);
  marshal = λ c. some (c ∷ []);
  unmarshal = unmarshal_number;
}

high-IsPlain : (c : ℕ) → IsPlain (high c)
high-IsPlain c = (ground arith, ground arith)

pub map-IsPlain : (s : Text) → All IsPlain (map high s)
map-IsPlain [] = tt
map-IsPlain (c ∷ s) = (high-IsPlain c, map-IsPlain s)

pub low-high : (s : Text) → map low (map high s) ≡ s
low-high [] = refl
low-high (c ∷ s) =
    let e : low (high c) ≡ c = omega arith in
    ap (λ d. d ∷ map low (map high s)) e ∙ ap (◌∷◌ c) (low-high s)

shifted_laws : CodecLaws shifted
shifted_laws = record {
  sign-IsPlain = λ secret value. map-IsPlain (secret ++ value);
  encode_base64-IsPlain = map-IsPlain;
  decode-encode = λ s. ap some (low-high s);
  unmarshal-marshal = λ c s e. ground (arith, e);
}

abbrev token : Text
token = high 9 ∷ dot ∷ high 1 ∷ high (high 9) ∷ []

issued : issue_token shifted numbers (1 ∷ []) 9 ≡ some token
unfolding issue_token
issued = refl

parse_token-issue_token_example : parse_token shifted numbers (1 ∷ []) (pos 8) token ≡ accepted 9
parse_token-issue_token_example =
    parse_token-issue_token shifted numbers shifted_laws (1 ∷ []) token 9 (pos 8) issued refl
      (omega arith)
