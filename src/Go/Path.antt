-- ===== src/Go/Path.antt =====
-- `path.Join` and `path.Clean` of Go's library, for slash separated paths.
pub mod Plain
use arlon.Prelude.{
  ℕ, String, ◌<>◌, ◌≡◌, refl, Bool, false, List, [], ◌∷◌, ◌==◌, string_eq, if◌then◌else◌,
}
use arlon.Go.Strings.{split}

abbrev pub slash : ℕ
slash = b'/'

unfoldable pub join_parts : List String → String
join_parts [] = ""
join_parts (p ∷ []) = p
join_parts (p ∷ q ∷ ps) = p <> ("/" <> join_parts (q ∷ ps))

-- One step of the reader of parts, with those kept so far, the last one first. A `..` takes the
-- last part back, where there is one that is not `..` itself; at the root it is dropped.
abbrev pub keep_part : Bool → List String → String → List String
keep_part rooted [] p =
    if p == ""
    then []
    else if p == "."
    then []
    else if p == ".."
    then (if rooted then [] else p ∷ [])
    else p ∷ []
keep_part rooted (k ∷ ks) p =
    if p == ""
    then k ∷ ks
    else if p == "."
    then k ∷ ks
    else if p == ".."
    then (if k == ".." then p ∷ k ∷ ks else ks)
    else p ∷ k ∷ ks

unfoldable pub keep_parts : Bool → List String → List String → List String
keep_parts rooted kept [] = []
keep_parts rooted kept (p ∷ []) = keep_part rooted kept p
keep_parts rooted kept (p ∷ q ∷ ps) = keep_parts rooted (keep_part rooted kept p) (q ∷ ps)

unfoldable pub reverse_onto : List String → List String → List String
reverse_onto acc [] = acc
reverse_onto acc (p ∷ ps) = reverse_onto (p ∷ acc) ps

-- A path is rooted if the first of two or more parts is empty.
unfoldable pub is_rooted : List String → Bool
is_rooted [] = false
is_rooted (p ∷ []) = false
is_rooted (p ∷ q ∷ ps) = p == ""

unfoldable pub clean : String → String
unfolding join_parts keep_parts reverse_onto is_rooted
clean s =
    let parts = split slash s in
    let rooted = is_rooted parts in
    let body = join_parts (reverse_onto [] (keep_parts rooted [] parts)) in
    if rooted then "/" <> body else if body == "" then "." else body

-- `path.Join(a, b)`: empty elements are left out.
unfoldable pub join : String → String → String
unfolding clean
join a b =
    if a == ""
    then (if b == "" then "" else clean b)
    else if b == ""
    then clean a
    else clean (a <> ("/" <> b))

join_example : join "/tmp/x/" "../a//./b" ≡ "/tmp/a/b"
unfolding join split string_eq
join_example = refl

clean_example : clean "../a/.." ≡ ".."
unfolding clean split string_eq
clean_example = refl
