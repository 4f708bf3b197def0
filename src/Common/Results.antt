-- ===== src/Common/Results.antt =====
-- Rust's `Result`, with the error kind as a parameter, and `collect` on an iterator of results.
use mathlib.Core.Path.{◌≡◌, refl}
use mathlib.Core.Bool.{Bool, true, false}
use mathlib.Core.Option
use mathlib.Core.Option.{Option, none, some}
use mathlib.Core.List.{List, [], ◌∷◌, map}
use reth_exex_examples.Common.Lists.{All}

pub data Result (E A : Type 0) : Type 0 where
  ok : A → Result E A
  err : E → Result E A

infixl 5 ◌>>=◌
abbrev pub ◌>>=◌ : {E A B : Type 0} → Result E A → (A → Result E B) → Result E B
ok answer >>= next = next answer
err failure >>= next = err failure

infixl 5 ◌>>◌
abbrev pub ◌>>◌ : {E B : Type 0} → Result E (Unit {0}) → Result E B → Result E B
first >> next = first >>= λ unit. next

-- `ok_or`, `ok_or_eyre`.
abbrev pub ok_or : {E A : Type 0} → Option A → E → Result E A
ok_or none e = err e
ok_or (some a) e = ok a

-- An early return with an error unless the test holds.
abbrev pub ensure : {E : Type 0} → Bool → E → Result E (Unit {0})
ensure true e = ok tt
ensure false e = err e

module _ {E A B : Type 0} where
  -- `iter().map(f).collect::<Result<Vec<_>, _>>()`: the first error ends it.
  unfoldable pub try_map : (A → Result E B) → List A → Result E (List B)
  try_map f [] = ok []
  try_map f (x ∷ xs) = do y ← f x; ys ← try_map f xs; ok (y ∷ ys)

  -- `as_ref().map(f).transpose()`.
  unfoldable pub try_map_option : (A → Result E B) → Option A → Result E (Option B)
  try_map_option f none = ok none
  try_map_option f (some x) = do y ← f x; ok (some y)

module _ {E A B : Type 0} where
  -- A chain that succeeds, taken apart.
  pub >>=-eq-ok :
      (first : Result E A) (next : A → Result E B) {answer : B}
      → (first >>= next) ≡ ok answer
      → (middle : A) × (first ≡ ok middle) × (next middle ≡ ok answer)
  >>=-eq-ok (ok middle) next h = (middle, refl, h)
  >>=-eq-ok (err failure) next h = cc

-- Reading back what was written gives `back a` for each `a` with the property.
abbrev pub ReadsBack :
    {E A B C : Type 0} → (A → Type 0) → (A → Result E B) → (B → Result E C) → (A → C) → Type 0
ReadsBack {A} P write read back = (a : A) → P a → (write a >>= read) ≡ ok (back a)

module _ {E A B C : Type 0} (P : A → Type 0) (write : A → Result E B) (read : B → Result E C)
    (back : A → C) (each : ReadsBack P write read back) where
  -- The element that was written, with the equation for reading it.
  pub written : (a : A) → P a → (b : B) × (write a ≡ ok b) × (read b ≡ ok (back a))
  written a p = >>=-eq-ok (write a) read (each a p)

  pub try_map-ReadsBack : ReadsBack (All P) (try_map write) (try_map read) (map back)
  unfolding try_map
  try_map-ReadsBack [] h = refl
  try_map-ReadsBack (a ∷ l) h =
      let (b, w, r) = written a h.0 in
      let (bs, ws, rs) = >>=-eq-ok (try_map write l) (try_map read) (try_map-ReadsBack l h.1) in
      rw (w, ws) (rw (r, rs))

module _ {E A B C : Type 0} (write : A → Result E B) (read : B → Result E C) (back : A → C)
    (each : (a : A) → (write a >>= read) ≡ ok (back a)) where
  pub try_map_option_back :
      (o : Option A) → (try_map_option write o >>= try_map_option read) ≡ ok (Option.map back o)
  unfolding try_map_option
  try_map_option_back none = refl
  try_map_option_back (some a) = let (b, w, r) = >>=-eq-ok (write a) read (each a) in rw w (rw r)

pub option_map_id : {A : Type 0} (o : Option A) → Option.map (λ a. a) o ≡ o
option_map_id none = refl
option_map_id (some a) = refl

module _ {E A B C : Type 0} (P : A → Type 0) (write : A → B) (read : B → Result E C) (back : A → C)
    (each : (a : A) → P a → read (write a) ≡ ok (back a)) where
  -- The same where writing cannot fail.
  pub try_map-map : (l : List A) → All P l → try_map read (map write l) ≡ ok (map back l)
  unfolding try_map
  try_map-map [] h = refl
  try_map-map (a ∷ l) h = rw (each a h.0, try_map-map l h.1)

pub ok_injective : {E A : Type 0} {a b : A} → ◌≡◌ {A = Result E A} (ok a) (ok b) → a ≡ b
ok_injective h = cc
