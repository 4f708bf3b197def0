-- ===== src/Common/Maps.antt =====
-- A `HashMap` as the list of its entries in iteration order, one entry to a key. A new key goes
-- to the end; the order is observed by iteration only.
use mathlib.Core.Path.{◌≡◌, refl, sym, ap, subst, ◌∙◌}
use mathlib.Core.Logic.{◌≢◌}
use mathlib.Core.Option.{Option, none, some}
use mathlib.Core.List.{List, [], ◌∷◌, ◌++◌, map, append_assoc}
use native.Mathlib.Omega.{arith}
use reth_exex_examples.Common.Lists.{All}

module _ {K V : Type 0} where
  -- No entry of the list has the key.
  abbrev pub IsFresh : K → List (K × V) → Type 0
  IsFresh k m = All (λ e. e.0 ≢ k) m

  -- No key stands twice.
  abbrev pub HasDistinctKeys : List (K × V) → Type 0
  HasDistinctKeys [] = Unit
  HasDistinctKeys (e ∷ m) = IsFresh e.0 m × HasDistinctKeys m

  IsFresh-of_append :
      (xs ys : List (K × V)) (e : K × V) → HasDistinctKeys (xs ++ e ∷ ys) → IsFresh e.0 xs
  IsFresh-of_append [] ys e h = tt
  IsFresh-of_append (x ∷ xs) ys e h = (first x xs h.0, IsFresh-of_append xs ys e h.1)
    where
      at_head : (zs : List (K × V)) (x : K × V) → IsFresh x.0 (zs ++ e ∷ ys) → x.0 ≢ e.0
      at_head [] x f = λ p. f.0 (sym p)
      at_head (z ∷ zs) x f = at_head zs x f.1

      first : (x : K × V) (zs : List (K × V)) → IsFresh x.0 (zs ++ e ∷ ys) → x.0 ≢ e.0
      first x zs f = at_head zs x f

module _ {K V : Type 0} (dec_eq : Discrete K) where
  unfoldable pub map_get : K → List (K × V) → Option V
  map_get k [] = none
  map_get k (e ∷ m) = elim (dec_eq e.0 k) [ yes _ ↦ some e.1 | no _ ↦ map_get k m ]

  -- `HashMap::insert`.
  unfoldable pub map_insert : K → V → List (K × V) → List (K × V)
  map_insert k v [] = (k, v) ∷ []
  map_insert k v (e ∷ m) = elim (dec_eq e.0 k) [ yes _ ↦ (k, v) ∷ m | no _ ↦ e ∷ map_insert k v m ]

  collect_onto : List (K × V) → List (K × V) → List (K × V)
  collect_onto acc [] = acc
  collect_onto acc (e ∷ es) = collect_onto (map_insert e.0 e.1 acc) es

  -- `collect::<HashMap<_, _>>()` of an iterator of pairs.
  pub collect_map : List (K × V) → List (K × V)
  unfolding collect_onto
  collect_map = collect_onto []

  map_insert_fresh :
      (k : K) (v : V) (m : List (K × V)) → IsFresh k m → map_insert k v m ≡ m ++ (k, v) ∷ []
  unfolding map_insert
  map_insert_fresh k v [] f = refl
  map_insert_fresh k v (e ∷ m) f =
      elim (dec_eq e.0 k)
        as (λ d.
          elim d [ yes _ ↦ (k, v) ∷ m | no _ ↦ e ∷ map_insert k v m ] ≡ e ∷ (m ++ (k, v) ∷ [])) [
            | yes p ↦ absurd (f.0 p)
            | no _ ↦ ap (λ (t : List (K × V)). e ∷ t) (map_insert_fresh k v m f.1)
          ]

  collect_onto_distinct :
      (es acc : List (K × V)) → HasDistinctKeys (acc ++ es) → collect_onto acc es ≡ acc ++ es
  unfolding collect_onto
  collect_onto_distinct [] acc h = sym (mathlib.Core.List.append-nil acc)
  collect_onto_distinct (e ∷ es) acc h =
      let shape : map_insert e.0 e.1 acc ++ es ≡ acc ++ e ∷ es =
        rw (map_insert_fresh e.0 e.1 acc (IsFresh-of_append acc es e h)) (append_assoc acc _ es) in
      collect_onto_distinct es (map_insert e.0 e.1 acc) (rw shape h) ∙ shape

  -- Collecting entries with distinct keys keeps them all.
  pub collect_map_distinct : (m : List (K × V)) → HasDistinctKeys m → collect_map m ≡ m
  unfolding collect_map
  collect_map_distinct m h = collect_onto_distinct m [] h

module _ {K V W : Type 0} (f : V → W) where
  -- A function on the values of a map.
  abbrev pub map_values : List (K × V) → List (K × W)
  map_values = map (λ e. (e.0, f e.1))

  map_values-IsFresh : (k : K) (m : List (K × V)) → IsFresh k m → IsFresh k (map_values m)
  map_values-IsFresh k [] h = tt
  map_values-IsFresh k (e ∷ m) h = (h.0, map_values-IsFresh k m h.1)

  pub map_values-HasDistinctKeys :
      (m : List (K × V)) → HasDistinctKeys m → HasDistinctKeys (map_values m)
  map_values-HasDistinctKeys [] h = tt
  map_values-HasDistinctKeys (e ∷ m) h =
      (map_values-IsFresh e.0 m h.0, map_values-HasDistinctKeys m h.1)

module _ {K V : Type 0} (dec_eq : Discrete K) where
  pub map_get-map_insert :
      (k : K) (v : V) (m : List (K × V)) → map_get dec_eq k (map_insert dec_eq k v m) ≡ some v
  unfolding map_get map_insert
  map_get-map_insert k v [] = ground arith
  map_get-map_insert k v (e ∷ m) = ground (arith, map_get-map_insert k v m)

  pub map_get-map_insert_other :
      (j k : K) (v : V) (m : List (K × V))
      → k ≢ j
      → map_get dec_eq j (map_insert dec_eq k v m) ≡ map_get dec_eq j m
  unfolding map_get map_insert
  map_get-map_insert_other j k v [] h = ground arith
  map_get-map_insert_other j k v (e ∷ m) h = ground (arith, map_get-map_insert_other j k v m h)

module _ {A B : Type 0} where
  unfoldable pub pair_discrete : Discrete A → Discrete B → Discrete (A × B)
  pair_discrete dec_a dec_b p q = elim (dec_a p.0 q.0) [
    | yes same ↦ elim (dec_b p.1 q.1) [
      | yes too ↦ yes (λ i. (same i, too i))
      | no other ↦ no (λ e. other (ap (λ (r : A × B). r.1) e))
    ]
    | no other ↦ no (λ e. other (ap (λ (r : A × B). r.0) e))
  ]

module _ {K V : Type 0} (dec_eq : Discrete K) where
  -- `DELETE … WHERE key = ?`, or `HashMap::remove`.
  unfoldable pub map_remove : K → List (K × V) → List (K × V)
  map_remove k [] = []
  map_remove k (e ∷ m) =
      let rest = map_remove k m in elim (dec_eq e.0 k) [ yes _ ↦ rest | no _ ↦ e ∷ rest ]

  pub map_get-map_remove : (k : K) (m : List (K × V)) → map_get dec_eq k (map_remove k m) ≡ none
  unfolding map_get map_remove
  map_get-map_remove k [] = refl
  map_get-map_remove k (e ∷ m) = ground (arith, map_get-map_remove k m)

  pub map_get-map_remove_other :
      (j k : K) (m : List (K × V)) → k ≢ j → map_get dec_eq j (map_remove k m) ≡ map_get dec_eq j m
  unfolding map_get map_remove
  map_get-map_remove_other j k [] h = refl
  map_get-map_remove_other j k (e ∷ m) h = ground (arith, map_get-map_remove_other j k m h)

  -- A key that an inserted map misses is another key, and the map missed it before.
  pub missing-map_insert :
      (j k : K) (v : V) (m : List (K × V))
      → map_get dec_eq j (map_insert dec_eq k v m) ≡ none
      → (k ≢ j) × (map_get dec_eq j m ≡ none)
  missing-map_insert j k v m h = elim (dec_eq k j) [
    | yes p ↦ absurd (cc (map_get-map_insert dec_eq k v m))
    | no p ↦ (p, ground (arith, map_get-map_insert_other dec_eq j k v m))
  ]

  module _ {κ} (P : K × V → Type κ) where
    -- A property of all entries stays if the inserted entry has it.
    pub All-map_insert :
        (k : K) (v : V) (m : List (K × V)) → P (k, v) → All P m → All P (map_insert dec_eq k v m)
    unfolding map_insert
    All-map_insert k v [] p h = (p, tt)
    All-map_insert k v (e ∷ m) p h =
        elim (dec_eq e.0 k)
          as (λ d. All P (elim d [ yes _ ↦ (k, v) ∷ m | no _ ↦ e ∷ map_insert dec_eq k v m ])) [
            | yes _ ↦ (p, h.1)
            | no _ ↦ (h.0, All-map_insert k v m p h.1)
          ]

    -- The entry that is found has it.
    pub All-map_get :
        (k : K) (m : List (K × V)) {v : V} → All P m → map_get dec_eq k m ≡ some v → P (k, v)
    unfolding map_get
    All-map_get k [] h e = absurd (cc e)
    All-map_get k ((j, w) ∷ m) {v} h e = elim (dec_eq j k) [
      | yes p ↦ let found : w ≡ v = ground arith in subst P (λ i. (p i, found i)) h.0
      | no p ↦ All-map_get k m h.1 (ground arith)
    ]
