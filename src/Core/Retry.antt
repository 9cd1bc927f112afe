-- ===== src/Core/Retry.antt =====
-- retryWithBackoff of src/pkg/utils/retry.ts. The outside world is what each attempt would answer, by
-- its number; the delays that the loop waits are kept beside the result.
use Prim.Native.Nat.{◌^◌}
use native.Mathlib.Decide.{dec_lt}
use swiftbite_orders.Common.{
  ℕ, zero, suc, ◌+◌, ◌*◌, ◌≤◌, ◌<◌, ◌≡◌, refl, sym, arith, List, [], ◌∷◌, ◌⊎◌, inl, inr, leb,
  if◌then◌else◌, length, All,
}
use swiftbite_orders.Domain.Error.{Error, Result, ok, err}

pub record RetryOptions : Type 0 where
  pub retries : ℕ
  pub base_delay_ms : ℕ
  pub max_delay_ms : ℕ

abbrev min : ℕ → ℕ → ℕ
min a b = if leb a b then a else b

min-le : (a b : ℕ) → min a b ≤ b
min-le a b = ground arith

pub Result-cases {ℓ} :
    {A : Type ℓ} (r : Result A) → ((a : A) × (r ≡ ok a)) ⊎ ((e : Error) × (r ≡ err e))
Result-cases (ok a) = inl (a, refl)
Result-cases (err e) = inr (e, refl)

module _ {A : Type 0} (call : ℕ → Result A) (options : RetryOptions) where
  -- The loop at an attempt, with so many attempts left after it.
  unfoldable pub attempt_from : ℕ → ℕ → List ℕ × Result A
  attempt_from attempt zero = ([], call attempt)
  attempt_from attempt (suc left) = elim (call attempt) [
    | ok a ↦ ([], ok a)
    | err e ↦
        let (delays, result) = attempt_from (attempt + 1) left in
        (min (options.base_delay_ms * 2 ^ attempt) options.max_delay_ms ∷ delays, result)
  ]

  unfoldable pub retry_with_backoff : List ℕ × Result A
  retry_with_backoff = attempt_from 0 options.retries

  abbrev pub Fails : ℕ → Type 0
  Fails n = (e : Error) × (call n ≡ err e)

  -- The result is that of an attempt between the first and the last one allowed, before which all
  -- failed; it is a success, or the failure of the last one. One delay is waited for each failure
  -- but the last, and none is longer than the longest allowed.
  abbrev pub Retried : ℕ → ℕ → List ℕ × Result A → Type 0
  Retried attempt last (delays, result) =
      (n : ℕ) × (attempt ≤ n)
      × (n ≤ last)
      × (result ≡ call n)
      × ((m : ℕ) → attempt ≤ m → m < n → Fails m)
      × (attempt + length delays ≡ n)
      × (((a : A) × (result ≡ ok a)) ⊎ (n ≡ last))
      × All (λ d. d ≤ options.max_delay_ms) delays

  abbrev after_failure : ℕ → List ℕ × Result A → List ℕ × Result A
  after_failure attempt (delays, result) =
      (min (options.base_delay_ms * 2 ^ attempt) options.max_delay_ms ∷ delays, result)

  attempt_from-done :
      (attempt left : ℕ) {a : A}
      → call attempt ≡ ok a
      → attempt_from attempt (suc left) ≡ ([], ok a)
  unfolding attempt_from
  attempt_from-done attempt left done = rw (done, attempt_from) refl

  attempt_from-failed :
      (attempt left : ℕ) {e : Error}
      → call attempt ≡ err e
      → attempt_from attempt (suc left) ≡ after_failure attempt (attempt_from (attempt + 1) left)
  unfolding attempt_from
  attempt_from-failed attempt left failed = rw (failed, attempt_from) refl

  attempt_from-Retried :
      (attempt left last : ℕ)
      → attempt + left ≡ last
      → Retried attempt last (attempt_from attempt left)
  attempt_from-Retried attempt zero last h =
      unfold attempt_from in
      (
        attempt,
        omega arith,
        omega arith,
        refl,
        λ m low high. absurd (omega arith),
        omega arith,
        inr (omega arith),
        tt,
      )
  attempt_from-Retried attempt (suc left) last h = elim (Result-cases (call attempt)) [
    | inl (a, done) ↦ rw (attempt_from-done attempt left done) (
      attempt,
      omega arith,
      omega arith,
      sym done,
      λ m low high. absurd (omega arith),
      omega arith,
      inl (a, refl),
      tt,
    )
    | inr (e, failed) ↦
        let (n, low, high, same, before, waits, end, short) =
          attempt_from-Retried (attempt + 1) left last (omega arith) in
        rw (attempt_from-failed attempt left failed) (
          n,
          omega arith,
          high,
          same,
          λ m from until. elim (dec_lt attempt m) [
            | yes later ↦ before m (omega arith) until
            | no here ↦ let now : m ≡ attempt = omega arith in rw now (e, failed)
          ],
          omega arith,
          end,
          (min-le (options.base_delay_ms * 2 ^ attempt) options.max_delay_ms, short),
        )
  ]

  -- With its options, a retried call makes at most one attempt more than the retries allowed.
  pub retry_with_backoff-Retried : Retried 0 options.retries retry_with_backoff
  unfolding retry_with_backoff
  retry_with_backoff-Retried = attempt_from-Retried 0 options.retries options.retries (omega arith)
