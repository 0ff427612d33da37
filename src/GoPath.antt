-- ===== src/GoPath.antt =====
-- Go's path/filepath on Unix, as far as the program uses it.
pub mod Laws
pub mod Glob
use craft_stack.Prelude.{
  ◌==◌, ◌≡◌, refl, List, [], ◌∷◌, ◌++◌, Text, codes, Bool, true, false, not, ◌&&◌, ◌||◌, same, keep,
  map, if◌then◌else◌,
}
use craft_stack.GoText.{has_prefix, contains_byte, split}

-- One element of a path onto the elements so far, the last one first.
unfoldable pub push_element : Bool → Text → List Text → List Text
push_element rooted e [] =
    if same e [] || same e (codes ".")
    then []
    else if same e (codes "..") && rooted
    then []
    else e ∷ []
push_element rooted e (top ∷ rest) =
    if same e [] || same e (codes ".")
    then top ∷ rest
    else if same e (codes "..") && not (same top (codes ".."))
    then rest
    else e ∷ top ∷ rest

unfoldable pub push_elements : Bool → List Text → List Text → List Text
unfolding push_element
push_elements rooted [] stack = stack
push_elements rooted (e ∷ es) stack = push_elements rooted es (push_element rooted e stack)

-- The elements of a stack, the last one first, as a path
unfoldable pub print_stack : List Text → Text
print_stack [] = []
print_stack (e ∷ []) = e
print_stack (e ∷ f ∷ stack) = print_stack (f ∷ stack) ++ b'/' ∷ e

unfoldable pub or_dot : Text → Text
or_dot p = if same p [] then codes "." else p

-- filepath.Clean
unfoldable pub clean : Text → Text
unfolding push_elements print_stack or_dot
clean path =
    if has_prefix path (codes "/")
    then b'/' ∷ print_stack (push_elements true (split path b'/') [])
    else or_dot (print_stack (push_elements false (split path b'/') []))

-- filepath.Join of two elements
unfoldable pub join : Text → Text → Text
join a b =
    if same a []
    then (if same b [] then [] else clean b)
    else if same b []
    then clean a
    else clean (a ++ b'/' ∷ b)

through_last_slash : Text → Text
through_last_slash [] = []
through_last_slash (c ∷ s) =
    let rest = through_last_slash s in if contains_byte (c ∷ s) b'/' then c ∷ rest else []

after_last_slash : Text → Text
after_last_slash [] = []
after_last_slash (c ∷ s) =
    let rest = after_last_slash s in
    if contains_byte s b'/' then rest else if c == b'/' then s else c ∷ s

trim_slashes : Text → Text
trim_slashes [] = []
trim_slashes (c ∷ s) =
    let rest = trim_slashes s in if c == b'/' && same rest [] then [] else c ∷ rest

-- filepath.Dir
unfoldable pub dir : Text → Text
unfolding through_last_slash
dir path = clean (through_last_slash path)

-- filepath.Base
unfoldable pub base : Text → Text
unfolding after_last_slash trim_slashes
base path =
    if same path []
    then codes "."
    else if same (trim_slashes path) []
    then codes "/"
    else after_last_slash (trim_slashes path)

-- filepath.Abs, where the process stands in `cwd`
unfoldable pub abs : Text → Text → Text
unfolding clean join
abs cwd path = if has_prefix path (codes "/") then clean path else join cwd path

-- The elements of a clean path
unfoldable pub elements : Text → List Text
elements path = keep (λ e. not (same e [])) (split path b'/')

unfoldable pub rel_elements : List Text → List Text → List Text
rel_elements [] ts = ts
rel_elements (b ∷ bs) [] = codes ".." ∷ rel_elements bs []
rel_elements (b ∷ bs) (t ∷ ts) =
    let inside = rel_elements bs ts in
    if same b t then inside else map (λ _. codes "..") (b ∷ bs) ++ t ∷ ts

-- The elements with slashes between them
unfoldable pub with_slashes : List Text → Text
with_slashes [] = []
with_slashes (e ∷ []) = e
with_slashes (e ∷ f ∷ es) = e ++ b'/' ∷ with_slashes (f ∷ es)

-- filepath.Rel for two paths of filepath.Abs, which gives no error for them
unfoldable pub rel : Text → Text → Text
unfolding elements rel_elements with_slashes
rel from path = or_dot (with_slashes (rel_elements (elements from) (elements path)))

climbs : clean (codes "/srv//a/./b/../c/") ≡ codes "/srv/a/c"
unfolding clean has_prefix split same
climbs = refl

leaves : join (codes "a") (codes "../../b") ≡ codes "../b"
unfolding join clean has_prefix split same
leaves = refl

parts :
    (dir (codes "plugins/x.jar") ≡ codes "plugins") × (base (codes "plugins/x.jar") ≡ codes "x.jar")
unfolding dir base clean has_prefix split same contains_byte
parts = (refl, refl)

relative :
    (rel (codes "/srv/a") (codes "/srv/a/b/c") ≡ codes "b/c")
    × (rel (codes "/srv/a") (codes "/srv/ab") ≡ codes "../ab")
    × (rel (codes "/srv/a") (codes "/srv/a") ≡ codes ".")
unfolding rel elements rel_elements with_slashes split same or_dot
relative = (refl, refl, refl)
