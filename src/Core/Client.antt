-- ===== src/Core/Client.antt =====
-- src/lib/core-client/core-client.ts: what a call of the core service ends with. The network is what
-- each attempt of one call meets, by its number. The texts of errors are left out; a body that is no
-- JSON makes `res.json()` throw, which ends as a 500.
use native.Mathlib.Decide.{dec_lt}
use swiftbite_orders.Common.{
  ℕ, ◌⊎◌, refl, false, ◌≤◌, ◌<◌, ◌≡◌, sym, ◌∙◌, ap, arith, Bool, ◌&&◌, leb, ltb, if◌then◌else◌, inl,
  inr, Bool-cases,
}
use swiftbite_orders.Domain.Error.{Error, Result, ok, err, upstream, ok-injective}
use swiftbite_orders.Core.Retry.{
  RetryOptions, retry_with_backoff, retry_with_backoff-Retried, Result-cases,
}

-- sendSuccess of the core service wraps what it answers as { success, data }.
pub data Body (A : Type 0) : Type 0 where
  wrapped plain : A → Body A
  malformed : Body A

pub record Response (A : Type 0) : Type 0 where
  pub status : ℕ
  pub body : Body A

-- What `fetch` ends with.
pub data Fetched (A : Type 0) : Type 0 where
  network_error : Fetched A
  response : Response A → Fetched A

abbrev pub core_options : RetryOptions
core_options = record { retries = 3; base_delay_ms = 100; max_delay_ms = 500 }

-- `res.ok`
abbrev pub is_ok : ℕ → Bool
is_ok status = leb 200 status && ltb status 300

outside : (status : ℕ) → is_ok status ≡ false → (status < 200) ⊎ (300 ≤ status)
outside status h = ground arith

module _ {A : Type 0} where
  -- The callback of fetchWithRetry.
  abbrev pub checked_response : Fetched A → Result (Response A)
  checked_response network_error = err (upstream 503)
  checked_response (response res) = if leb 500 res.status then err (upstream 503) else ok res

  -- `catch { throw new AppError("Core service unavailable", 503) }`
  abbrev pub or_unavailable : Result (Response A) → Result (Response A)
  or_unavailable (ok res) = ok res
  or_unavailable (err e) = err (upstream 503)

  unfoldable pub fetch_with_retry : (ℕ → Fetched A) → Result (Response A)
  fetch_with_retry net =
      or_unavailable (retry_with_backoff (λ n. checked_response (net n)) core_options).1

  abbrev unwrap : Body A → Result A
  unwrap (wrapped a) = ok a
  unwrap (plain a) = ok a
  unwrap malformed = err (upstream 500)

  abbrev read_get : Response A → Result A
  read_get res = if is_ok res.status then unwrap res.body else err (upstream 502)

  -- `res.json().catch(() => ({}))`
  abbrev or_empty : A → Body A → A
  or_empty empty (wrapped a) = a
  or_empty empty (plain a) = a
  or_empty empty malformed = empty

  abbrev read_post : A → Response A → Result A
  read_post empty res =
      if is_ok res.status then ok (or_empty empty res.body) else err (upstream res.status)

  abbrev then_read : (Response A → Result A) → Result (Response A) → Result A
  then_read read (ok res) = read res
  then_read read (err e) = err e

  unfoldable pub core_client_get : (ℕ → Fetched A) → Result A
  core_client_get net = then_read read_get (fetch_with_retry net)

  unfoldable pub core_client_post : A → (ℕ → Fetched A) → Result A
  core_client_post empty net = then_read (read_post empty) (fetch_with_retry net)

  -- An attempt that is worth another one: the network failed, or the status is 500 or more.
  abbrev pub Down : Fetched A → Type 0
  Down network_error = Unit {0}
  Down (response res) = 500 ≤ res.status

  -- What an answer is made of: the value of a body with a status from 200 to 299, `unreadable` where
  -- that body is no JSON, and the error that `refusal` has for any other status.
  pub data Reads (unreadable : Result A) (refusal : ℕ → Error) (res : Response A) (r : Result A)
      : Type 0 where
    value :
        (a : A)
        → 200 ≤ res.status
        → res.status < 300
        → ((res.body ≡ wrapped a) ⊎ (res.body ≡ plain a))
        → r ≡ ok a
        → Reads unreadable refusal res r
    no_json :
        200 ≤ res.status
        → res.status < 300
        → res.body ≡ malformed
        → r ≡ unreadable
        → Reads unreadable refusal res r
    refused :
        ((res.status < 200) ⊎ (300 ≤ res.status))
        → r ≡ err (refusal res.status)
        → Reads unreadable refusal res r

  -- How a call may end: the first answer below 500 within four attempts is definitive, and read by
  -- its status and its body; where all four fail, the service is unavailable.
  pub data CallEnds (unreadable : Result A) (refusal : ℕ → Error) (net : ℕ → Fetched A)
      (r : Result A) : Type 0 where
    definitive :
        (n : ℕ) (res : Response A)
        → n ≤ 3
        → ((m : ℕ) → m < n → Down (net m))
        → net n ≡ response res
        → res.status < 500
        → Reads unreadable refusal res r
        → CallEnds unreadable refusal net r
    unavailable :
        ((m : ℕ) → m ≤ 3 → Down (net m))
        → r ≡ err (upstream 503)
        → CallEnds unreadable refusal net r

  checked_response-Down : (f : Fetched A) {e : Error} → checked_response f ≡ err e → Down f
  checked_response-Down network_error h = tt
  checked_response-Down (response res) h = ground arith

  checked_response-response :
      (f : Fetched A) {res : Response A}
      → checked_response f ≡ ok res
      → (f ≡ response res) × (res.status < 500)
  checked_response-response network_error h = cc
  checked_response-response (response r) {res} h = elim (Bool-cases (leb 500 r.status)) [
    | inl down ↦ cc (rw down at h)
    | inr up ↦
        let same : r ≡ res = ok-injective (rw up at h) in
        (ap response same, rw (← same) (ground arith))
  ]

  fetch_with_retry-ends :
      (read : Response A → Result A) (unreadable : Result A) (refusal : ℕ → Error)
      (net : ℕ → Fetched A)
      → ((res : Response A) → Reads unreadable refusal res (read res))
      → CallEnds unreadable refusal net (then_read read (fetch_with_retry net))
  unfolding fetch_with_retry
  fetch_with_retry-ends read unreadable refusal net reads =
      let (n, low, high, same, before, waits, end, short) =
        retry_with_backoff-Retried (λ n. checked_response (net n)) core_options in
      elim (Result-cases (checked_response (net n))) [
        | inl (res, got) ↦
            let (answer, definite) = checked_response-response (net n) got in
            definitive n res high
              (λ m lower. checked_response-Down (net m) ((before m (omega arith) lower).1)) answer
              definite (rw (ap (λ x. then_read read (or_unavailable x)) (same ∙ got)) (reads res))
        | inr (e, failed) ↦
            let last : n ≡ 3 = elim end [
              | inl (res, got) ↦ cc (sym got ∙ same ∙ failed)
              | inr at_last ↦ at_last
            ] in
            unavailable
              (λ m within. elim (dec_lt m n) [
                | yes lower ↦ checked_response-Down (net m) ((before m (omega arith) lower).1)
                | no higher ↦
                    let here : m ≡ n = omega arith in rw here (checked_response-Down (net n) failed)
              ])
              (ap (λ x. then_read read (or_unavailable x)) (same ∙ failed))
      ]

  unwrap-Reads :
      (refusal : ℕ → Error) (status : ℕ) (body : Body A)
      → 200 ≤ status
      → status < 300
      → Reads (err (upstream 500)) refusal (record { status = status; body = body }) (unwrap body)
  unwrap-Reads refusal status (wrapped a) low high = value a low high (inl refl) refl
  unwrap-Reads refusal status (plain a) low high = value a low high (inr refl) refl
  unwrap-Reads refusal status malformed low high = no_json low high refl refl

  or_empty-Reads :
      (refusal : ℕ → Error) (empty : A) (status : ℕ) (body : Body A)
      → 200 ≤ status
      → status < 300
      → Reads
          (ok empty)
          refusal
          (record { status = status; body = body })
          (ok (or_empty empty body))
  or_empty-Reads refusal empty status (wrapped a) low high = value a low high (inl refl) refl
  or_empty-Reads refusal empty status (plain a) low high = value a low high (inr refl) refl
  or_empty-Reads refusal empty status malformed low high = no_json low high refl refl

  read_get-Reads :
      (res : Response A) → Reads (err (upstream 500)) (λ status. upstream 502) res (read_get res)
  read_get-Reads res = elim (Bool-cases (is_ok res.status)) [
    | inl success ↦
        rw success
          (unwrap-Reads (λ status. upstream 502) res.status res.body (ground arith) (ground arith))
    | inr failure ↦ rw failure (refused (outside res.status failure) refl)
  ]

  read_post-Reads :
      (empty : A) (res : Response A) → Reads (ok empty) upstream res (read_post empty res)
  read_post-Reads empty res = elim (Bool-cases (is_ok res.status)) [
    | inl success ↦
        rw success (or_empty-Reads upstream empty res.status res.body (ground arith) (ground arith))
    | inr failure ↦ rw failure (refused (outside res.status failure) refl)
  ]

  -- A call of the core service ends with its first answer below 500 within four attempts, and with a
  -- 503 where there is none. That answer gives the value of its body where its status is from 200 to
  -- 299; where that body is no JSON, a GET ends with a 500 and a POST with the empty value. Of any
  -- other status a GET makes a 502, and a POST an error with that status.
  pub core_client-ends :
      (empty : A) (net : ℕ → Fetched A)
      → CallEnds (err (upstream 500)) (λ status. upstream 502) net (core_client_get net)
        × CallEnds (ok empty) upstream net (core_client_post empty net)
  unfolding core_client_get core_client_post
  core_client-ends empty net = (
    fetch_with_retry-ends read_get (err (upstream 500)) (λ status. upstream 502) net read_get-Reads,
    fetch_with_retry-ends (read_post empty) (ok empty) upstream net (read_post-Reads empty),
  )
