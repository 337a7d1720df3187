-- ===== src/Go/Path/Plain.antt =====
-- Joins of plain components, which `path.Clean` leaves alone.
use Prim.Native.String.append as append
use arlon.Prelude.{
  String, ◌<>◌, ◌≡◌, refl, ◌∙◌, ap, inl, inr, Bool, true, false, List, [], ◌∷◌, ◌++◌, arith, All,
  ◌==◌, string_eq, Bool-cases,
}
use arlon.Go.Strings.{split, cons_filled}
use arlon.Go.Strings.Split.{lacks, split_lacking, split_part}
use arlon.Go.Path.{slash, join_parts, keep_part, keep_parts, reverse_onto, is_rooted, clean, join}

-- A component without a slash that is not empty and names neither this directory nor its parent.
abbrev pub IsPlain : String → Type 0
IsPlain p =
    (lacks slash p ≡ true) × ((p == "") ≡ false) × ((p == ".") ≡ false) × ((p == "..") ≡ false)

abbrev pub ArePlain : List String → Type 0
ArePlain = All IsPlain

append_assoc : (s t u : String) → (s <> t) <> u ≡ s <> (t <> u)
append_assoc String.[] t u = rw (append.nil t, append.nil (t <> u)) refl
append_assoc (String.◌∷◌ c s) t u =
    rw (append.cons c s t, append.cons c (s <> t) u, append.cons c s (t <> u), append_assoc s t u)
      refl

pub split-join_parts :
    (p : String) (ps : List String) → ArePlain (p ∷ ps) → split slash (join_parts (p ∷ ps)) ≡ p ∷ ps
unfolding join_parts
split-join_parts p [] ((l, _, _, _), _) = split_lacking slash p l
split-join_parts p (q ∷ ps) ((l, _, _, _), ls) =
    split_part slash _ p (join_parts (q ∷ ps)) refl l ∙ ap (λ x. p ∷ x) (split-join_parts q ps ls)

keep_part-plain :
    (rooted : Bool) (ks : List String) (p : String) → IsPlain p → keep_part rooted ks p ≡ p ∷ ks
keep_part-plain rooted [] p (_, a, b, c) = rw (a, b, c) refl
keep_part-plain rooted (k ∷ ks) p (_, a, b, c) = rw (a, b, c) refl

keep_parts-plain :
    (rooted : Bool) (ks : List String) (p : String) (ps : List String)
    → ArePlain (p ∷ ps)
    → keep_parts rooted ks (p ∷ ps) ≡ reverse_onto ks (p ∷ ps)
unfolding keep_parts reverse_onto
keep_parts-plain rooted ks p [] (h, _) = keep_part-plain rooted ks p h
keep_parts-plain rooted ks p (q ∷ ps) (h, hs) =
    rw (keep_parts, keep_part-plain rooted ks p h) (keep_parts-plain rooted (p ∷ ks) q ps hs)

reverse_onto_twice :
    (acc ks ps : List String) → reverse_onto acc (reverse_onto ks ps) ≡ reverse_onto (ps ++ acc) ks
unfolding reverse_onto
reverse_onto_twice acc ks [] = refl
reverse_onto_twice acc ks (p ∷ ps) = reverse_onto_twice acc (p ∷ ks) ps

append_nil : (ps : List String) → ps ++ [] ≡ ps
append_nil [] = refl
append_nil (p ∷ ps) = ap (λ x. p ∷ x) (append_nil ps)

reversed : (ps : List String) → reverse_onto [] (reverse_onto [] ps) ≡ ps
unfolding reverse_onto
reversed ps = reverse_onto_twice [] [] ps ∙ append_nil ps

-- A text that begins with one that is not empty is not empty.
append_nonempty : (s t : String) → (s == "") ≡ false → ((s <> t) == "") ≡ false
unfolding string_eq
append_nonempty String.[] t h = absurd (ground (arith, h))
append_nonempty (String.◌∷◌ c s) t h = elim (Bool-cases ((String.◌∷◌ c s <> t) == "")) [
  | inr e ↦ e
  | inl e ↦ absurd (cons_filled c s t (ground (arith, e)))
]

join_parts_nonempty :
    (p : String) (ps : List String) → ArePlain (p ∷ ps) → (join_parts (p ∷ ps) == "") ≡ false
unfolding join_parts
join_parts_nonempty p [] ((_, a, _, _), _) = a
join_parts_nonempty p (q ∷ ps) ((_, a, _, _), _) = append_nonempty p ("/" <> join_parts (q ∷ ps)) a

not_rooted : (p : String) (ps : List String) → ArePlain (p ∷ ps) → is_rooted (p ∷ ps) ≡ false
unfolding is_rooted
not_rooted p [] h = refl
not_rooted p (q ∷ ps) ((_, a, _, _), _) = a

clean-join_parts :
    (p : String) (ps : List String)
    → ArePlain (p ∷ ps)
    → clean (join_parts (p ∷ ps)) ≡ join_parts (p ∷ ps)
unfolding clean
clean-join_parts p ps h =
    let rooted = not_rooted p ps h in
    rw
      (
        clean,
        split-join_parts p ps h,
        keep_parts-plain (is_rooted (p ∷ ps)) [] p ps h,
        rooted,
        reversed (p ∷ ps),
        join_parts_nonempty p ps h,
      )
      refl

join_parts-append :
    (p : String) (ps : List String) (name : String)
    → join_parts (p ∷ ps) <> ("/" <> name) ≡ join_parts ((p ∷ ps) ++ name ∷ [])
unfolding join_parts
join_parts-append p [] name = refl
join_parts-append p (q ∷ ps) name =
    append_assoc p ("/" <> join_parts (q ∷ ps)) ("/" <> name)
    ∙ ap (λ x. p <> x)
        (append_assoc "/" (join_parts (q ∷ ps)) ("/" <> name)
          ∙ ap (λ x. "/" <> x) (join_parts-append q ps name))

ArePlain-append :
    (ps : List String) (name : String) → ArePlain ps → IsPlain name → ArePlain (ps ++ name ∷ [])
ArePlain-append [] name h l = (l, tt)
ArePlain-append (p ∷ ps) name (h, hs) l = (h, ArePlain-append ps name hs l)

-- A join of a path of plain components with one more is the path of all of them.
pub join-join_parts :
    (p : String) (ps : List String) (name : String)
    → ArePlain (p ∷ ps)
    → IsPlain name
    → (join (join_parts (p ∷ ps)) name ≡ join_parts ((p ∷ ps) ++ name ∷ []))
      × ArePlain ((p ∷ ps) ++ name ∷ [])
unfolding join
join-join_parts p ps name h (l, a, b, c) =
    let all = ArePlain-append (p ∷ ps) name h (l, a, b, c) in
    (
      rw (join, join_parts_nonempty p ps h, a)
          (ap clean (join_parts-append p ps name) ∙ clean-join_parts p (ps ++ name ∷ []) all),
      all,
    )
