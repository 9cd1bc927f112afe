-- ===== src/Payment/Signature/Laws.antt =====
-- What a signature of kashier.signature.ts vouches for.
use swiftbite_orders.Common.{
  ℕ, ◌≡◌, ◌≢◌, ◌↔◌, refl, sym, ap, ◌∙◌, arith, Bool, true, false, some, List, [], ◌∷◌, ◌++◌, map,
  All, if◌then◌else◌, ==_refl, append_assoc,
}
use swiftbite_orders.Pagination.Cursor.{Chars}
use swiftbite_orders.Payment.Signature.{
  Fields, KashierWebhookPayload, comes_first, insert_key, sorted_keys, join, same_bytes,
  signed_field, query_string, verify_kashier_signature, verify_webhook,
}

-- The text has no `&`.
abbrev pub Plain : Chars → Type 0
Plain s = All (λ c. c ≢ b'&') s

same_bytes-eq : (a b : List ℕ) → same_bytes a b ≡ true → a ≡ b
same_bytes-eq [] [] h = refl
same_bytes-eq [] (y ∷ b) h = cc
same_bytes-eq (x ∷ a) [] h = cc
same_bytes-eq (x ∷ a) (y ∷ b) h = ground (arith, same_bytes-eq a b)

same_bytes_refl : (a : List ℕ) → same_bytes a a ≡ true
same_bytes_refl [] = refl
same_bytes_refl (x ∷ a) = rw (==_refl x) (same_bytes_refl a)

cons-injective : {a b : ℕ} {s t : Chars} → a ∷ s ≡ b ∷ t → (a ≡ b) × (s ≡ t)
cons-injective h = (cc, cc)

-- A common front can be dropped.
append-cancel : (front s t : Chars) → front ++ s ≡ front ++ t → s ≡ t
append-cancel [] s t h = h
append-cancel (c ∷ front) s t h = append-cancel front s t ((cons-injective h).1)

-- What stands before the first `&`, and after it.
cut-eq :
    (a b s t : Chars) → Plain a → Plain b → a ++ (b'&' ∷ s) ≡ b ++ (b'&' ∷ t) → (a ≡ b) × (s ≡ t)
cut-eq [] [] s t p q h = (refl, (cons-injective h).1)
cut-eq [] (y ∷ b) s t p (q, _) h = absurd (q (sym ((cons-injective h).0)))
cut-eq (x ∷ a) [] s t (p, _) q h = absurd (p ((cons-injective h).0))
cut-eq (x ∷ a) (y ∷ b) s t (_, p) (_, q) h =
    let (front, back) = cut-eq a b s t p q ((cons-injective h).1) in
    (rw (front, (cons-injective h).0) refl, back)

-- The two have the same value at each of the keys.
abbrev pub AgreeAt : List Chars → Fields → Fields → Type 0
AgreeAt keys f g = All (λ k. f k ≡ g k) keys

agree-insert :
    (f g : Fields) (k : Chars) (ks : List Chars)
    → AgreeAt (insert_key k ks) f g ↔ AgreeAt (k ∷ ks) f g
unfolding insert_key
agree-insert f g k [] = (λ h. h, λ h. h)
agree-insert f g k (x ∷ xs) = by_order (comes_first k x) (agree-insert f g k xs)
  where
    by_order :
        (b : Bool)
        → AgreeAt (insert_key k xs) f g ↔ AgreeAt (k ∷ xs) f g
        → AgreeAt (if b then k ∷ x ∷ xs else x ∷ insert_key k xs) f g ↔ AgreeAt (k ∷ x ∷ xs) f g
    by_order true rest = (λ h. h, λ h. h)
    by_order false (out, into) = (
      λ (here, there). let (head, tail) = out there in (head, (here, tail)),
      λ (head, (here, tail)). (here, into (head, tail)),
    )

agree-sorted : (f g : Fields) (ks : List Chars) → AgreeAt (sorted_keys ks) f g ↔ AgreeAt ks f g
unfolding sorted_keys
agree-sorted f g [] = (λ h. h, λ h. h)
agree-sorted f g (k ∷ ks) =
    let (out, into) = agree-sorted f g ks in
    let (first_out, first_in) = agree-insert f g k (sorted_keys ks) in
    (
      λ h. let (head, tail) = first_out h in (head, out tail),
      λ (head, tail). first_in (head, into tail),
    )

-- encodeURIComponent leaves no `&`, and two texts apart.
module _ (encode : Chars → Chars) (plain : (s : Chars) → Plain (encode s))
    (apart : (s t : Chars) → encode s ≡ encode t → s ≡ t) where
  joined : Fields → List Chars → Chars
  joined fields keys = join (map (signed_field encode fields) keys)

  field-eq :
      (f g : Fields) (k : Chars) → signed_field encode f k ≡ signed_field encode g k → f k ≡ g k
  field-eq f g k h = apart (f k) (g k) ((cons-injective (append-cancel k _ _ h)).1)

  cut-field :
      (f g : Fields) (k s t : Chars)
      → signed_field encode f k ++ (b'&' ∷ s) ≡ signed_field encode g k ++ (b'&' ∷ t)
      → (f k ≡ g k) × (s ≡ t)
  cut-field f g k s t h =
      let shifted : k ++ ((b'=' ∷ encode (f k)) ++ (b'&' ∷ s))
          ≡ k ++ ((b'=' ∷ encode (g k)) ++ (b'&' ∷ t)) =
        sym (append_assoc k (b'=' ∷ encode (f k)) (b'&' ∷ s))
        ∙ h
        ∙ append_assoc k (b'=' ∷ encode (g k)) (b'&' ∷ t) in
      let (value, rest) =
        cut-eq (encode (f k)) (encode (g k)) s t (plain (f k)) (plain (g k))
          ((cons-injective (append-cancel k _ _ shifted)).1) in
      (apart (f k) (g k) value, rest)

  -- The same text, of the same keys, is of the same values.
  joined-agree : (f g : Fields) (ks : List Chars) → joined f ks ≡ joined g ks → AgreeAt ks f g
  unfolding joined join
  joined-agree f g [] h = tt
  joined-agree f g (k ∷ []) h = (field-eq f g k h, tt)
  joined-agree f g (k ∷ l ∷ ks) h =
      let (here, rest) = cut-field f g k (joined f (l ∷ ks)) (joined g (l ∷ ks)) h in
      (here, joined-agree f g (l ∷ ks) rest)

  agree-fields :
      (f g : Fields) (ks : List Chars)
      → AgreeAt ks f g
      → map (signed_field encode f) ks ≡ map (signed_field encode g) ks
  agree-fields f g [] h = refl
  agree-fields f g (k ∷ ks) (here, rest) = rw (here, agree-fields f g ks rest) refl

  module _ (hmac : Chars → Chars → List ℕ) (unhex : Chars → List ℕ) where
    -- The text that is signed for a body.
    abbrev pub signed_text : KashierWebhookPayload → List Chars → Chars
    signed_text p keys = query_string encode (p.payload_data).fields keys

    query_string-agree :
        (f g : Fields) (keys : List Chars)
        → (query_string encode f keys ≡ query_string encode g keys) ↔ AgreeAt keys f g
    unfolding query_string joined
    query_string-agree f g keys =
        let (out, into) = agree-sorted f g keys in
        (
          λ same. out (joined-agree f g (sorted_keys keys) same),
          λ agree. ap join (agree-fields f g (sorted_keys keys) (into agree)),
        )

    verify-exactly :
        (f g : Fields) (keys : List Chars) (signature secret : Chars)
        → (hmac secret (query_string encode f keys) ≡ hmac secret (query_string encode g keys)
            → query_string encode f keys ≡ query_string encode g keys)
        → verify_kashier_signature encode hmac unhex f keys signature secret ≡ true
        → (verify_kashier_signature encode hmac unhex g keys signature secret ≡ true)
          ↔ AgreeAt keys f g
    unfolding verify_kashier_signature
    verify-exactly f g [] signature secret no_collision valid = cc
    verify-exactly f g (k ∷ keys) [] secret no_collision valid = cc
    verify-exactly f g (k ∷ keys) (r ∷ received) secret no_collision valid =
        let (read, write) = query_string-agree f g (k ∷ keys) in
        let first = same_bytes-eq _ _ valid in
        (
          λ accepted. read (no_collision (first ∙ sym (same_bytes-eq _ _ accepted))),
          λ agree. rw (← write agree) valid,
        )

    -- A signature that is accepted with one body is accepted with another body that names the same
    -- keys exactly when both have the same value at every key that they name; the fields that they do
    -- not name and the event, which stands outside of the data, may differ. This where the HMAC does
    -- not take the two signed texts to the same bytes.
    pub verify_webhook-exactly :
        (api_key signature : Chars) (p p' : KashierWebhookPayload) (keys : List Chars)
        → (p.payload_data).signature_keys ≡ some keys
        → (p'.payload_data).signature_keys ≡ some keys
        → (hmac api_key (signed_text p keys) ≡ hmac api_key (signed_text p' keys)
            → signed_text p keys ≡ signed_text p' keys)
        → verify_webhook encode hmac unhex api_key p signature ≡ true
        → (verify_webhook encode hmac unhex api_key p' signature ≡ true)
          ↔ AgreeAt keys (p.payload_data).fields (p'.payload_data).fields
    unfolding verify_webhook
    verify_webhook-exactly api_key signature p p' keys named named' no_collision valid = rw named' (
        verify-exactly (p.payload_data).fields (p'.payload_data).fields keys signature api_key
          no_collision (rw named at valid))
