-- ===== src/BlockStore/Types.antt =====
-- The results of the block store: ciphera/pkg/block-store/src/lib.rs.
use zerosats.Prelude.{ℕ, List, [], ◌∷◌, ◌≡◌, Option, none, some, refl}
use zerosats.Prelude.{leb, take, length, get_elem?, if◌then◌else◌}
use zerosats.Prelude.Bytes.{Bytes}

-- `Error`, without what its cases carry from the crates that they come from
pub data Error : Type 0 where
  invalid_key : Error
  invalid_value : ℕ → Error
  invalid_version : ℕ → Error
  rocks_db : Error
  wire_message : Error
  io : Error

-- What a call comes to: the `Ok` and the `Err` of a `Result`, or a panic.
pub data Outcome {ℓ} (A : Type ℓ) : Type ℓ where
  ok : A → Outcome A
  err : Error → Outcome A
  panic : Outcome A

infixl 5 ◌>>=◌
abbrev pub ◌>>=◌ {ℓ κ} :
    {Got : Type ℓ} {Then : Type κ} → Outcome Got → (Got → Outcome Then) → Outcome Then
panic >>= next = panic
ok got >>= next = next got
err why >>= next = err why

pub ok_injective {ℓ} : {A : Type ℓ} {a b : A} → ok a ≡ ok b → a ≡ b
ok_injective h = cc

-- Where a chain comes back with a value, its first step did.
pub >>=-eq-ok {ℓ κ} :
    {Got : Type ℓ} {Then : Type κ} (step : Outcome Got) (next : Got → Outcome Then) {end : Then}
    → (step >>= next) ≡ ok end
    → (got : Got) × (step ≡ ok got) × (next got ≡ ok end)
>>=-eq-ok panic next e = absurd (cc)
>>=-eq-ok (err why) next e = absurd (cc)
>>=-eq-ok (ok got) next e = (got, refl, e)

-- `Returns m` where the call comes back with a value. A chain returns where its steps do.
abbrev pub Returns {ℓ} : {A : Type ℓ} → Outcome A → Type ℓ
Returns {A} m = (a : A) × (m ≡ ok a)

pub >>=-Returns {ℓ κ} :
    {A : Type ℓ} {B : Type κ} (m : Outcome A) (f : A → Outcome B)
    → Returns m
    → ((a : A) → Returns (f a))
    → Returns (m >>= f)
>>=-Returns (ok a) f r g = g a
>>=-Returns (err e) f (a, h) g = absurd (cc)
>>=-Returns panic f (a, h) g = absurd (cc)

-- `collect::<Result<Vec<_>>>()`
abbrev pub collect {ℓ} : {A : Type ℓ} → List (Outcome A) → Outcome (List A)
collect [] = ok []
collect (r ∷ rs) = r >>= λ a. collect rs >>= λ as'. ok (a ∷ as')

-- `&bytes[0..n]`
abbrev pub slice_to : ℕ → Bytes → Outcome Bytes
slice_to n bytes = if leb n (length bytes) then ok (take n bytes) else panic

-- `unwrap()`
abbrev pub unwrap {ℓ} : {A : Type ℓ} → Option A → Outcome A
unwrap none = panic
unwrap (some a) = ok a

-- `bytes[i]`
abbrev pub index : ℕ → Bytes → Outcome ℕ
index i bytes = unwrap (get_elem? bytes i)
