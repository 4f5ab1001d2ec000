-- ===== src/PosixPath.antt =====
-- The functions of `node:path`'s `posix` that the code uses.
use mathlib.Core.List.{reverse}
use project_builder_sdk.Base.{
  Bool, true, false, not, ◌||◌, List, [], ◌∷◌, ◌++◌, Text, Text-discrete, codes, text_eq, ◌==◌, ◌≡◌,
  refl, ℕ, if◌then◌else◌,
}

abbrev is_slash : ℕ → Bool
is_slash c = c == b'/'

unfoldable pub drop_while : (ℕ → Bool) → Text → Text
drop_while p [] = []
drop_while p (c ∷ s) = let rest = drop_while p s in if p c then rest else c ∷ s

unfoldable pub take_while : (ℕ → Bool) → Text → Text
take_while p [] = []
take_while p (c ∷ s) = let rest = take_while p s in if p c then c ∷ rest else []

abbrev not_slash : ℕ → Bool
not_slash c = not (is_slash c)

-- What stands before the last slash that is not trailing; the first unit is not looked at.
abbrev dirname_of : ℕ → Text → Text
dirname_of c [] = if is_slash c then codes "/" else codes "."
dirname_of c (_ ∷ []) = if is_slash c then codes "//" else c ∷ []
dirname_of c (_ ∷ r) = c ∷ reverse r

unfoldable pub dirname : Text → Text
unfolding drop_while
dirname [] = codes "."
dirname (c ∷ s) = dirname_of c (drop_while not_slash (drop_while is_slash (reverse s)))

unfoldable pub basename : Text → Text
unfolding drop_while take_while
basename s = reverse (take_while not_slash (drop_while is_slash (reverse s)))

-- `s.split("/")`, with the part that is being read.
split_from : Text → Text → List Text
split_from cur [] = reverse cur ∷ []
split_from cur (c ∷ s) =
    let closed = split_from [] s in
    let longer = split_from (c ∷ cur) s in if is_slash c then reverse cur ∷ closed else longer

unfoldable pub split_slash : Text → List Text
unfolding split_from
split_slash s = split_from [] s

abbrev push_up : Bool → List Text → List Text
push_up above [] = if above then codes ".." ∷ [] else []
push_up above (t ∷ stack) =
    if text_eq t (codes "..") then (if above then codes ".." ∷ t ∷ stack else stack) else stack

-- One segment of `normalizeString`; the stack has its top at the head.
resolve_segment : Bool → List Text → Text → List Text
resolve_segment above stack t =
    if text_eq t [] || text_eq t (codes ".")
    then stack
    else if text_eq t (codes "..")
    then push_up above stack
    else t ∷ stack

resolve_segments : Bool → List Text → List Text → List Text
unfolding resolve_segment
resolve_segments above stack [] = reverse stack
resolve_segments above stack (t ∷ ts) = resolve_segments above (resolve_segment above stack t) ts

unfoldable pub join_slash : List Text → Text
join_slash [] = []
join_slash (t ∷ []) = t
join_slash (t ∷ ts) = t ++ (b'/' ∷ join_slash ts)

abbrev starts_slash : Text → Bool
starts_slash [] = false
starts_slash (c ∷ s) = is_slash c

abbrev finish : Bool → Bool → Text → Text
finish true trailing [] = codes "/"
finish false true [] = codes "./"
finish false false [] = codes "."
finish absolute trailing s =
    (if absolute then codes "/" else []) ++ (s ++ (if trailing then codes "/" else []))

unfoldable pub normalize : Text → Text
unfolding split_slash resolve_segments join_slash
normalize [] = codes "."
normalize (c ∷ s) =
    finish (is_slash c) (starts_slash (reverse (c ∷ s)))
      (join_slash (resolve_segments (not (is_slash c)) [] (split_slash (c ∷ s))))

-- `join` of two arguments: an empty one is left out.
unfoldable pub join : Text → Text → Text
unfolding normalize
join [] [] = codes "."
join [] b = normalize b
join a [] = normalize a
join a b = normalize (a ++ (b'/' ∷ b))

join_tests :
    (join (codes "a/../b/") (codes "./c//d/") ≡ codes "b/c/d/")
    × (join (codes "out") (codes "../../x") ≡ codes "../x")
    × (dirname (codes "a/b/c.ts") ≡ codes "a/b")
    × (basename (codes "a/b/c.ts") ≡ codes "c.ts")
    × (dirname (codes "c.ts") ≡ codes ".")
unfolding join dirname basename Text-discrete
join_tests = (refl, refl, refl, refl, refl)
