-- ===== src/Go/Loop.antt =====
-- A `for` loop over listed resources that may write each one back and collects something on the
-- way: `body` gives the new form of the resource, if it is dirty, and the next accumulator. A
-- failing write ends the loop.
use mathlib.Core.Option.{get_or}
use mathlib.Core.List.{map-append}
use arlon.Prelude.{
  String, ◌≡◌, refl, false, Option, none, some, List, [], ◌∷◌, ◌++◌, map, foldl, append_assoc,
  arith, elem, string_eq,
}
use arlon.Go.Exec.{Result, ok, Exec, pure, continue, continue-eq-ok, continue-keeps}

module _ {X Acc : Type 0} (body : Acc → X → Option X × Acc) where
  abbrev pub collect : Acc → List X → Acc
  collect = foldl (λ acc x. (body acc x).1)

  -- The resources as the loop leaves them.
  abbrev pub written : Acc → List X → List X
  written acc [] = []
  written acc (x ∷ xs) = get_or (body acc x).0 x ∷ written (body acc x).1 xs

  abbrev pub Quiet : Acc → List X → Type 0
  Quiet acc [] = Unit
  Quiet acc (x ∷ xs) = ((body acc x).0 ≡ none) × Quiet (body acc x).1 xs

module _ {W X Acc : Type 0} (update : X → Exec W (Unit {0})) (body : Acc → X → Option X × Acc) where
  abbrev write : Option X → Exec W (Unit {0})
  write none = pure tt
  write (some x) = update x

  unfoldable pub for_each : List X → Acc → Exec W Acc
  for_each [] acc w = (ok acc, w)
  for_each (x ∷ xs) acc w = continue (write (body acc x).0 w) (λ _. for_each xs (body acc x).1)

  -- A loop that ends has collected what the bodies collect, whatever it wrote.
  pub for_each-collect :
      (xs : List X) (acc : Acc) (w : W) {a : Acc} {w' : W}
      → for_each xs acc w ≡ (ok a, w')
      → a ≡ collect body acc xs
  unfolding for_each
  for_each-collect [] acc w h = ground arith
  for_each-collect (x ∷ xs) acc w h =
      let (_, _, rest) =
        continue-eq-ok (write (body acc x).0 w) (λ _. for_each xs (body acc x).1) h in
      for_each-collect xs (body acc x).1 _ rest

  -- A loop over resources that are all clean writes nothing.
  pub for_each-Quiet :
      (xs : List X) (acc : Acc) (w : W)
      → Quiet body acc xs
      → for_each xs acc w ≡ (ok (collect body acc xs), w)
  unfolding for_each
  for_each-Quiet [] acc w q = refl
  for_each-Quiet (x ∷ xs) acc w (clean, q) = rw clean (for_each-Quiet xs (body acc x).1 w q)

  write-keeps :
      (P : W → Type 0)
      → ((x : X) (w : W) → P w → P (update x w).1)
      → (o : Option X) (w : W) → P w
      → P (write o w).1
  write-keeps P keep none w h = h
  write-keeps P keep (some x) w h = keep x w h

  -- What every write keeps, the loop keeps, whether it ends or fails.
  pub for_each-keeps :
      (P : W → Type 0)
      → ((x : X) (w : W) → P w → P (update x w).1)
      → (xs : List X) (acc : Acc) (w : W) → P w
      → P (for_each xs acc w).1
  unfolding for_each
  for_each-keeps P keep [] acc w h = h
  for_each-keeps P keep (x ∷ xs) acc w h =
      continue-keeps P (write (body acc x).0 w) (λ _. for_each xs (body acc x).1)
        (write-keeps P keep (body acc x).0 w h)
        (λ _ v kept. for_each-keeps P keep xs (body acc x).1 v kept)

-- Resources of one kind: their name, the call that lists them and the call that updates one.
pub record Listing (W X : Type 0) : Type 0 where
  pub name : X → String
  pub list : W → Result (List X)
  pub update : X → Exec W (Unit {0})

-- An update replaces the resource of its name, and no other, in what the next listing gives.
abbrev pub Replaces : {W X : Type 0} → Listing W X → Type 0
Replaces {W} {X} L =
    (pre post : List X) (old new : X) (w w' : W)
    → L.list w ≡ ok (pre ++ old ∷ post)
    → L.name new ≡ L.name old
    → elem (L.name old) (map L.name pre) ≡ false
    → L.update new w ≡ (ok tt, w')
    → L.list w' ≡ ok (pre ++ new ∷ post)

module _ {W X : Type 0} (L : Listing W X) where
  -- The names are distinct, and none of them was seen before.
  abbrev pub Distinct : List String → List X → Type 0
  Distinct seen [] = Unit
  Distinct seen (x ∷ xs) = (elem (L.name x) seen ≡ false) × Distinct (seen ++ L.name x ∷ []) xs

module _ {W X Acc : Type 0} (L : Listing W X) (body : Acc → X → Option X × Acc) where
  abbrev pub KeepsName : Type 0
  KeepsName = (acc : Acc) (x : X) → L.name (get_or (body acc x).0 x) ≡ L.name x

  write_listing :
      Replaces L
      → (pre xs : List X) (x : X) (o : Option X) (w : W) {w' : W} → L.name (get_or o x) ≡ L.name x
      → L.list w ≡ ok (pre ++ x ∷ xs)
      → elem (L.name x) (map L.name pre) ≡ false
      → write L.update body o w ≡ (ok tt, w')
      → L.list w' ≡ ok (pre ++ get_or o x ∷ xs)
  write_listing replaces pre xs x none w same listed fresh done = ground arith
  write_listing replaces pre xs x (some y) w same listed fresh done =
      replaces pre xs x y w _ listed same fresh done

  listing_from :
      Replaces L
      → KeepsName
      → (pre xs : List X) (acc : Acc) (w : W) {a : Acc} {w' : W} → L.list w ≡ ok (pre ++ xs)
      → Distinct L (map L.name pre) xs
      → for_each L.update body xs acc w ≡ (ok a, w')
      → L.list w' ≡ ok (pre ++ written body acc xs)
  unfolding for_each
  listing_from replaces keeps pre [] acc w listed distinct done = ground arith
  listing_from replaces keeps pre (x ∷ xs) acc w listed (fresh, distinct) done =
      let o = (body acc x).0 in
      let (_, first, rest) =
        continue-eq-ok (write L.update body o w) (λ _. for_each L.update body xs (body acc x).1)
          done in
      let now = write_listing replaces pre xs x o w (keeps acc x) listed fresh first in
      rw append_assoc at (
        listing_from replaces keeps (pre ++ get_or o x ∷ []) xs (body acc x).1 _
          (rw append_assoc now) (rw (map-append, keeps acc x) distinct) rest)

  -- A loop over all resources of a kind leaves them as `written` says, in the order that they had.
  pub for_each_listing :
      Replaces L
      → KeepsName
      → (xs : List X) (acc : Acc) (w : W) {a : Acc} {w' : W} → L.list w ≡ ok xs
      → Distinct L [] xs
      → for_each L.update body xs acc w ≡ (ok a, w')
      → L.list w' ≡ ok (written body acc xs)
  for_each_listing replaces keeps xs acc w listed distinct done =
      listing_from replaces keeps [] xs acc w listed distinct done
