-- ===== src/Master/LogBuffer/Recent.antt =====
-- The ring buffer refines the list of its most recent lines.
use craft_stack.Prelude.{
  ℕ, zero, suc, ◌+◌, ◌-◌, ◌≤◌, ◌<◌, ◌≡◌, refl, sym, ap, ◌∙◌, List, [], ◌∷◌, ◌++◌, Text, true, false,
  Option, none, some, arith, length, set, take, drop, length-append, length-set, append-nil,
  length-take, length-drop, length-replicate, drop_all, take_all, append_assoc, Bool-cases, inl,
  inr, if◌then◌else◌,
}
use craft_stack.Master.LogBuffer.{LogRingBuffer, new_log_ring_buffer, advance, add, lines}

-- The last `n` elements.
abbrev pub recent {ℓ} : {A : Type ℓ} → ℕ → List A → List A
recent n xs = drop (length xs - n) xs

module _ {ℓ} {A : Type ℓ} where
  drop-drop : (n m : ℕ) (xs : List A) → drop n (drop m xs) ≡ drop (m + n) xs
  drop-drop n zero xs = ap (λ k. drop k xs) (omega arith)
  drop-drop zero (suc m) [] = sym (drop_all [] _ (omega arith))
  drop-drop (suc n) (suc m) [] = sym (drop_all [] _ (omega arith))
  drop-drop n (suc m) (x ∷ xs) =
      drop-drop n m xs ∙ ap (λ k. drop k (x ∷ xs)) {x = suc (m + n)} (omega arith)

  drop-append_le : (n : ℕ) (xs ys : List A) → n ≤ length xs → drop n (xs ++ ys) ≡ drop n xs ++ ys
  drop-append_le zero xs ys h = refl
  drop-append_le (suc n) [] ys h = elim h [ ]
  drop-append_le (suc n) (x ∷ xs) ys h = drop-append_le n xs ys (omega arith)

  recent-drop : (n k : ℕ) (xs : List A) → k ≤ length xs - n → recent n (drop k xs) ≡ recent n xs
  recent-drop n k xs h =
      drop-drop (length (drop k xs) - n) k xs
      ∙ ap (λ j. drop j xs) (omega (arith, length-drop k xs))

  -- Only the recent part matters to what is recent after one more element.
  pub recent-append_one :
      (n : ℕ) (xs : List A) (v : A) → recent n (recent n xs ++ v ∷ []) ≡ recent n (xs ++ v ∷ [])
  recent-append_one n xs v =
      ap (recent n) (sym (drop-append_le (length xs - n) xs (v ∷ []) (omega arith)))
      ∙ recent-drop n (length xs - n) (xs ++ v ∷ []) (omega (arith, length-append xs (v ∷ [])))

  take-suc-set :
      (xs : List A) (i : ℕ) (v : A)
      → i < length xs
      → take (suc i) (set xs i v) ≡ take i xs ++ v ∷ []
  take-suc-set [] i v h = elim h [ ]
  take-suc-set (x ∷ xs) zero v h = refl
  take-suc-set (x ∷ xs) (suc i) v h = ap (◌∷◌ x) (take-suc-set xs i v (omega arith))

  drop-suc-set : (xs : List A) (i : ℕ) (v : A) → drop (suc i) (set xs i v) ≡ drop (suc i) xs
  drop-suc-set [] i v = refl
  drop-suc-set (x ∷ xs) zero v = refl
  drop-suc-set (x ∷ xs) (suc i) v = drop-suc-set xs i v

  drop_at : (xs : List A) (i : ℕ) → i < length xs → (x : A) × (drop i xs ≡ x ∷ drop (suc i) xs)
  drop_at [] i h = elim h [ ]
  drop_at (x ∷ xs) zero h = (x, refl)
  drop_at (x ∷ xs) (suc i) h = drop_at xs i (omega arith)

  recent_short : (n : ℕ) (xs : List A) → length xs ≤ n → recent n xs ≡ xs
  recent_short n xs h = ap (λ k. drop k xs) {y = 0} (omega arith)

  recent_cons : (n : ℕ) (x : A) (xs : List A) → length xs ≡ n → recent n (x ∷ xs) ≡ xs
  recent_cons n x xs h = ap (λ k. drop k (x ∷ xs)) {y = 1} (omega arith)

-- What `lines` shows, without its bounds check.
abbrev pub content : LogRingBuffer → List Text
content rb = if rb.full then drop rb.pos rb.lines ++ take rb.pos rb.lines else take rb.pos rb.lines

pub record IsValid (rb : LogRingBuffer) : Type 0 where
  pub allocated : length rb.lines ≡ rb.size
  pub in_range : rb.pos < rb.size

pub new-IsValid : (size : ℕ) → 0 < size → IsValid (new_log_ring_buffer size)
unfolding new_log_ring_buffer
new-IsValid size h = record { allocated = length-replicate size []; in_range = h }

-- The buffer after an `add` that is in range.
abbrev pub added : LogRingBuffer → Text → LogRingBuffer
added rb line = advance (record rb { lines = set rb.lines rb.pos line; pos = rb.pos + 1 })

pub add_in_range :
    (rb : LogRingBuffer) (line : Text) → IsValid rb → add rb line ≡ some (added rb line)
unfolding add
add_in_range rb line v = ground (arith, v.allocated)

added-IsValid : (rb : LogRingBuffer) (line : Text) → IsValid rb → IsValid (added rb line)
unfolding advance
added-IsValid rb line v = ground (arith, length-set rb.lines rb.pos line)

pub lines_in_range : (rb : LogRingBuffer) → IsValid rb → lines rb ≡ some (content rb)
unfolding lines
lines_in_range rb v = ground arith

-- At the last slot the whole array is in order again.
take_last-set :
    (xs : List Text) (i : ℕ) (v : Text) → length xs ≡ suc i → set xs i v ++ [] ≡ take i xs ++ v ∷ []
take_last-set xs i v e =
    append-nil (set xs i v)
    ∙ sym (take_all (set xs i v) (suc i) (omega (arith, length-set xs i v)))
    ∙ take-suc-set xs i v (omega arith)

content-added-partial :
    (rb : LogRingBuffer) (line : Text)
    → IsValid rb
    → rb.full ≡ false
    → content (added rb line) ≡ take rb.pos rb.lines ++ line ∷ []
unfolding advance
content-added-partial rb line v e =
    ground (arith, take-suc-set rb.lines rb.pos line, take_last-set rb.lines rb.pos line)

content-added-full :
    (rb : LogRingBuffer) (line : Text)
    → IsValid rb
    → rb.full ≡ true
    → content (added rb line) ≡ drop (suc rb.pos) rb.lines ++ (take rb.pos rb.lines ++ line ∷ [])
unfolding advance
content-added-full rb line v e = ground (
  arith,
  take-suc-set rb.lines rb.pos line,
  take_last-set rb.lines rb.pos line,
  drop-suc-set rb.lines rb.pos line,
  drop_all rb.lines (suc rb.pos),
)

length-wrapped :
    (rb : LogRingBuffer) (line : Text)
    → IsValid rb
    → length (drop (suc rb.pos) rb.lines ++ (take rb.pos rb.lines ++ line ∷ [])) ≡ rb.size
length-wrapped rb line v =
    let older = take rb.pos rb.lines in
    let newer = drop (suc rb.pos) rb.lines in
    omega (
      arith,
      v.in_range,
      v.allocated,
      length-append {0} newer (older ++ line ∷ []),
      length-append {0} older (line ∷ []),
      length-take {0} rb.pos rb.lines,
      length-drop {0} (suc rb.pos) rb.lines,
    )

-- One `add` to a valid buffer keeps the most recent lines.
pub content-added :
    (rb : LogRingBuffer) (line : Text)
    → IsValid rb
    → content (added rb line) ≡ recent rb.size (content rb ++ line ∷ [])
content-added rb line v = elim (Bool-cases rb.full) [
  | inl e ↦ content-added-full rb line v e ∙ sym (shown_full e)
  | inr e ↦ content-added-partial rb line v e ∙ sym (shown_partial e)
]
  where
    shown_partial :
        rb.full ≡ false
        → recent rb.size (content rb ++ line ∷ []) ≡ take rb.pos rb.lines ++ line ∷ []
    shown_partial e = rw e (
        recent_short rb.size (take rb.pos rb.lines ++ line ∷ []) (
          omega (
            arith,
            v.in_range,
            length-append {0} (take rb.pos rb.lines) (line ∷ []),
            length-take {0} rb.pos rb.lines,
          )))

    shown_full :
        rb.full ≡ true
        → recent rb.size (content rb ++ line ∷ [])
          ≡ drop (suc rb.pos) rb.lines ++ (take rb.pos rb.lines ++ line ∷ [])
    shown_full e =
        let (x, d) = drop_at rb.lines rb.pos (omega (arith, v.allocated, v.in_range)) in
        let older = take rb.pos rb.lines in
        let newer = drop (suc rb.pos) rb.lines in
        rw e (
          ap (λ t. recent rb.size ((t ++ older) ++ line ∷ [])) d
          ∙ ap (recent rb.size) (append_assoc (x ∷ newer) older (line ∷ []))
          ∙ recent_cons rb.size x (newer ++ (older ++ line ∷ [])) (length-wrapped rb line v))

-- The buffer after several lines.
unfoldable pub add_all : LogRingBuffer → List Text → Option LogRingBuffer
add_all rb [] = some rb
add_all rb (x ∷ xs) = elim (add rb x) [ none ↦ none | some rb' ↦ add_all rb' xs ]

-- What a valid buffer of this size that shows the recent lines of `hist` is.
pub record Shows (size : ℕ) (hist : List Text) (rb : LogRingBuffer) : Type 0 where
  pub valid : IsValid rb
  pub sized : rb.size ≡ size
  pub shown : content rb ≡ recent size hist

pub new-Shows : (size : ℕ) → 0 < size → Shows size [] (new_log_ring_buffer size)
unfolding new_log_ring_buffer
new-Shows size h = record {
  valid = new-IsValid size h;
  sized = refl;
  shown = sym (drop_all [] _ (omega arith));
}

size-added : (rb : LogRingBuffer) (line : Text) → (added rb line).size ≡ rb.size
unfolding advance
size-added rb line = ground arith

pub added-Shows :
    (size : ℕ) (hist : List Text) (rb : LogRingBuffer) (line : Text)
    → Shows size hist rb
    → Shows size (hist ++ line ∷ []) (added rb line)
added-Shows size hist rb line s = record {
  valid = added-IsValid rb line s.valid;
  sized = size-added rb line ∙ s.sized;
  shown =
      content-added rb line s.valid
      ∙ ap (λ k. recent k (content rb ++ line ∷ [])) s.sized
      ∙ ap (λ t. recent size (t ++ line ∷ [])) s.shown
      ∙ recent-append_one size hist line;
}

add_all-Shows :
    (size : ℕ) (xs hist : List Text) (rb : LogRingBuffer)
    → Shows size hist rb
    → (rb' : LogRingBuffer) × (add_all rb xs ≡ some rb') × Shows size (hist ++ xs) rb'
unfolding add_all
add_all-Shows size [] hist rb s = (rb, refl, rw append-nil s)
add_all-Shows size (x ∷ xs) hist rb s =
    let (rb', e, s') =
      add_all-Shows size xs (hist ++ x ∷ []) (added rb x) (added-Shows size hist rb x s) in
    (rb', rw (add_in_range rb x s.valid, add_all) e, rw append_assoc at s')

pub Shows-lines :
    (size : ℕ) (hist : List Text) (rb : LogRingBuffer)
    → Shows size hist rb
    → lines rb ≡ some (recent size hist)
Shows-lines size hist rb s = lines_in_range rb s.valid ∙ ap some s.shown

-- A ring buffer of a positive size that has taken any lines shows the last `size` of them, in the
-- order in which they came, and no `add` and no `lines` panics.
pub lines-add_all :
    (size : ℕ) (xs : List Text)
    → 0 < size
    → (rb : LogRingBuffer) × (add_all (new_log_ring_buffer size) xs ≡ some rb)
      × (lines rb ≡ some (recent size xs))
lines-add_all size xs h =
    let (rb, e, s) = add_all-Shows size xs [] (new_log_ring_buffer size) (new-Shows size h) in
    (rb, e, Shows-lines size xs rb s)
