-- ===== src/Core/Shelf.antt =====
-- The entries of the Redis cache behind src/pkg/cache/redis.ts, of one kind: `get` and `set` with a
-- time to live in seconds. A key is what stands in it beside its prefix, at most two numbers.
-- Times are in seconds here.
use swiftbite_orders.Common.{
  ℕ, ◌+◌, ◌≡◌, refl, arith, Bool, true, false, ◌&&◌, Option, none, some, List, ◌∷◌, ltb, ◌==◌,
  if◌then◌else◌, some-injective, ◌∙◌, ==_refl, first, Bool-cases, ◌⊎◌, inl, inr, sym,
}
use swiftbite_orders.Domain.Order.{Time}

abbrev pub ShelfKey : Type 0
ShelfKey = ℕ × ℕ

abbrev pub same_shelf_key : ShelfKey → ShelfKey → Bool
same_shelf_key (a, b) (c, d) = (a == c) && (b == d)

pub record Kept (V : Type 0) : Type 0 where
  pub key : ShelfKey
  pub value : V
  pub expires_at : Time

abbrev pub Shelf : Type 0 → Type 0
Shelf V = List (Kept V)

module _ {V : Type 0} where
  abbrev live : Time → Option (Kept V) → Option V
  live now none = none
  live now (some kept) = if ltb now kept.expires_at then some kept.value else none

  -- The latest entry of a key stands first, and hides the earlier ones.
  unfoldable pub cached : Time → ShelfKey → Shelf V → Option V
  cached now key shelf = live now (first (λ kept. same_shelf_key key (Kept.key kept)) shelf)

  -- `set(…).catch(() => {})`: whether Redis takes the write.
  unfoldable pub keep : Bool → Time → ShelfKey → V → ℕ → Shelf V → Shelf V
  keep writes now key value ttl_seconds shelf =
      if writes
      then record { key = key; value = value; expires_at = now + ttl_seconds } ∷ shelf
      else shelf

  pub cached-keep :
      (later now : Time) (asked key : ShelfKey) (value : V) (ttl_seconds : ℕ) (shelf : Shelf V)
      → cached later asked (keep true now key value ttl_seconds shelf) ≡ (
          if same_shelf_key asked key
          then if ltb later (now + ttl_seconds) then some value else none
          else cached later asked shelf)
  unfolding cached keep
  cached-keep later now asked key value ttl_seconds shelf =
      elim (Bool-cases (same_shelf_key asked key)) [
        | inl same ↦ rw same refl
        | inr other ↦ rw other refl
      ]

pub same_shelf_key_refl : (a b : ℕ) → same_shelf_key (a, b) (a, b) ≡ true
same_shelf_key_refl a b = rw (==_refl a, ==_refl b) refl

pub eq_of_same_shelf_key : (a b : ShelfKey) → same_shelf_key a b ≡ true → a ≡ b
eq_of_same_shelf_key (a, b) (c, d) h = ground arith

module _ {V : Type 0} where
  -- What is found after a write is the value written, or was found before.
  pub cached-kept :
      (writes : Bool) (later now : Time) (asked key : ShelfKey) (value : V) (ttl_seconds : ℕ)
      (shelf : Shelf V) {v : V}
      → cached later asked (keep writes now key value ttl_seconds shelf) ≡ some v
      → ((asked ≡ key) × (v ≡ value)) ⊎ (cached later asked shelf ≡ some v)
  unfolding keep
  cached-kept false later now asked key value ttl_seconds shelf h = inr h
  cached-kept true later now asked key value ttl_seconds shelf {v} h =
      written (same_shelf_key asked key) refl (ltb later (now + ttl_seconds))
        (sym (cached-keep later now asked key value ttl_seconds shelf) ∙ h)
    where
      written :
          (same : Bool)
          → same_shelf_key asked key ≡ same
          → (alive : Bool)
          → (if same then if alive then some value else none else cached later asked shelf) ≡ some v
          → ((asked ≡ key) × (v ≡ value)) ⊎ (cached later asked shelf ≡ some v)
      written true e true g = inl (eq_of_same_shelf_key asked key e, sym (some-injective g))
      written true e false g = cc
      written false e alive g = inr g
