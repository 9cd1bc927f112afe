-- ===== src/Payment/Signature.antt =====
-- How a webhook is known to be Kashier's: verifyWebhook of src/pkg/payments/kashier/kashier.client.ts
-- and kashier.signature.ts beside it. A text is the list of its code units. encodeURIComponent, the
-- HMAC with its key, and Buffer.from(…, "hex") are parameters.
pub mod Laws
use swiftbite_orders.Common.{
  ℕ, Bool, true, false, ◌&&◌, ◌||◌, not, Option, none, some, List, [], ◌∷◌, ◌++◌, map, ltb, ◌==◌,
  if◌then◌else◌,
}
use swiftbite_orders.Pagination.Cursor.{Chars}

-- What String(payload[key]) gives for a key, "undefined" where there is none.
abbrev pub Fields : Type 0
Fields = Chars → Chars

-- The body: `event` stands beside `data`. The keys are an array, or no array;
-- a body without data is one of which every field is undefined.
pub record KashierData : Type 0 where
  pub fields : Fields
  pub signature_keys : Option (List Chars)

pub record KashierWebhookPayload : Type 0 where
  pub event : Chars
  pub payload_data : KashierData

-- The order of `sort()` on texts.
unfoldable pub comes_first : Chars → Chars → Bool
comes_first [] _ = true
comes_first (a ∷ s) [] = false
comes_first (a ∷ s) (b ∷ t) = ltb a b || (a == b && comes_first s t)

unfoldable pub insert_key : Chars → List Chars → List Chars
insert_key k [] = k ∷ []
insert_key k (x ∷ xs) =
    let rest = insert_key k xs in if comes_first k x then k ∷ x ∷ xs else x ∷ rest

-- `[...signatureKeys].sort()`
unfoldable pub sorted_keys : List Chars → List Chars
sorted_keys [] = []
sorted_keys (k ∷ ks) = insert_key k (sorted_keys ks)

-- `join("&")`
unfoldable pub join : List Chars → Chars
join [] = []
join (x ∷ []) = x
join (x ∷ y ∷ rest) = x ++ (b'&' ∷ join (y ∷ rest))

abbrev pub same_bytes : List ℕ → List ℕ → Bool
same_bytes [] [] = true
same_bytes [] (b ∷ bs) = false
same_bytes (a ∷ cs) [] = false
same_bytes (a ∷ cs) (b ∷ bs) = a == b && same_bytes cs bs

module _ (encode : Chars → Chars) where
  -- `${key}=${encodeURIComponent(…)}`
  abbrev pub signed_field : Fields → Chars → Chars
  signed_field fields key = key ++ (b'=' ∷ encode (fields key))

  unfoldable pub query_string : Fields → List Chars → Chars
  query_string fields keys = join (map (signed_field fields) (sorted_keys keys))

module _ (encode : Chars → Chars) (hmac : Chars → Chars → List ℕ) (unhex : Chars → List ℕ) where
  -- Buffers of another length are not equal either.
  unfoldable pub verify_kashier_signature : Fields → List Chars → Chars → Chars → Bool
  verify_kashier_signature fields [] received secret = false
  verify_kashier_signature fields (k ∷ keys) [] secret = false
  verify_kashier_signature fields (k ∷ keys) (r ∷ received) secret =
      same_bytes (hmac secret (query_string encode fields (k ∷ keys))) (unhex (r ∷ received))

  abbrev pub listed_keys : Option (List Chars) → List Chars
  listed_keys (some keys) = keys
  listed_keys none = []

  unfoldable pub verify_webhook : Chars → KashierWebhookPayload → Chars → Bool
  verify_webhook api_key payload signature =
      verify_kashier_signature (payload.payload_data).fields
        (listed_keys (payload.payload_data).signature_keys) signature api_key
