-- ===== src/Settings/Canary.antt =====
-- The ids of the canary users, written and read back.
use server_vps.Prelude.{
  ℕ, zero, suc, ◌≡◌, refl, inl, inr, ap, ◌∙◌, sym, Bool, true, false, not, ◌&&◌, List, [], ◌∷◌,
  ◌++◌, Text, arith, split, join, if◌then◌else◌, exists, exists-append, select, ◌==◌, Bool-cases,
  print, parse_int, strip, lstrip, signed, parse_int-print, print-IsDigit, split-join, Without, All,
  IsDigit,
}
use server_vps.Scheduler.Select.{distinct_ids}
use server_vps.Settings.Read.{add_canary_id, canary_ids}
use server_vps.Settings.Write.{print_ids}

-- Whether the id is not yet in the list.
abbrev is_new : List ℕ → ℕ → Bool
is_new ids y = not (exists (λ id. id == y) ids)

select-select :
    (p q r : ℕ → Bool) (xs : List ℕ)
    → ((y : ℕ) → (p y && q y) ≡ r y)
    → select p (select q xs) ≡ select r xs
unfolding select
select-select p q r [] h = refl
select-select p q r (x ∷ xs) h = ground (arith, h x, select-select p q r xs h)

exists-same : (p q : ℕ → Bool) (xs : List ℕ) → ((y : ℕ) → p y ≡ q y) → exists p xs ≡ exists q xs
unfolding exists
exists-same p q [] h = refl
exists-same p q (x ∷ xs) h = ground (arith, h x, exists-same p q xs h)

append_assoc : (xs : List ℕ) (x : ℕ) (ys : List ℕ) → (xs ++ x ∷ []) ++ ys ≡ xs ++ x ∷ ys
append_assoc [] x ys = refl
append_assoc (y ∷ xs) x ys = ap (λ l. y ∷ l) (append_assoc xs x ys)

append_nil : (xs : List ℕ) → xs ++ [] ≡ xs
append_nil [] = refl
append_nil (x ∷ xs) = ap (λ l. x ∷ l) (append_nil xs)

known_new :
    (acc : List ℕ) (x y : ℕ)
    → exists (λ id. id == x) acc ≡ true
    → (is_new acc y && not (y == x)) ≡ is_new acc y
known_new acc x y h = elim (Bool-cases (y == x)) [
  | inl e ↦ let at : y ≡ x = ground (arith, e) in rw at (ground (arith, h))
  | inr e ↦ ground (arith, e)
]

longer_new : (acc : List ℕ) (x y : ℕ) → (is_new acc y && not (y == x)) ≡ is_new (acc ++ x ∷ []) y
unfolding exists
longer_new acc x y = ground (arith, exists-append (λ id. id == y) acc (x ∷ []))

-- A new number in front of distinct ones.
abbrev with : ℕ → List ℕ → List ℕ
with x xs = x ∷ select (λ y. not (y == x)) xs

with-known :
    (acc : List ℕ) (x : ℕ) (xs : List ℕ)
    → exists (λ id. id == x) acc ≡ true
    → select (is_new acc) (with x xs) ≡ select (is_new acc) xs
unfolding select
with-known acc x xs h = ground (
  arith,
  h,
  select-select (is_new acc) (λ y. not (y == x)) (is_new acc) xs (λ y. known_new acc x y h),
)

with-new :
    (acc : List ℕ) (x : ℕ) (xs : List ℕ)
    → exists (λ id. id == x) acc ≡ false
    → (acc ++ x ∷ []) ++ select (is_new (acc ++ x ∷ [])) xs ≡ acc ++ select (is_new acc) (with x xs)
unfolding select
with-new acc x xs h =
    append_assoc acc x (select (is_new (acc ++ x ∷ [])) xs)
    ∙ ap (λ l. acc ++ l)
        (ground (
          arith,
          h,
          select-select (is_new acc) (λ y. not (y == x)) (is_new (acc ++ x ∷ [])) xs
              (λ y. longer_new acc x y),
        ))

print_ids-suc : (n : ℕ) (ids : List ℕ) → print_ids (suc n ∷ ids) ≡ print (suc n) ∷ print_ids ids
unfolding print_ids
print_ids-suc n ids = ground arith

distinct_ids-suc :
    (n : ℕ) (ids : List ℕ) → distinct_ids (suc n ∷ ids) ≡ with (suc n) (distinct_ids ids)
unfolding distinct_ids
distinct_ids-suc n ids = ground arith

canary_ids-add :
    (n : ℕ) (ids acc : List ℕ)
    → canary_ids acc (print_ids (suc n ∷ ids))
      ≡ canary_ids
          (if exists (λ id. id == suc n) acc then acc else acc ++ suc n ∷ [])
          (print_ids ids)
unfolding canary_ids add_canary_id
canary_ids-add n ids acc =
    ap (canary_ids acc) (print_ids-suc n ids)
    ∙ ap (λ i. canary_ids (add_canary_id acc i) (print_ids ids)) (parse_int-print (suc n))

canary_ids-distinct :
    (ids acc : List ℕ)
    → canary_ids acc (print_ids ids) ≡ acc ++ select (is_new acc) (distinct_ids ids)
unfolding canary_ids print_ids distinct_ids select
canary_ids-distinct [] acc = sym (append_nil acc)
canary_ids-distinct (zero ∷ ids) acc = canary_ids-distinct ids acc
canary_ids-distinct (suc n ∷ ids) acc =
    let back = ap (λ D. acc ++ select (is_new acc) D) (sym (distinct_ids-suc n ids)) in
    elim (Bool-cases (exists (λ id. id == suc n) acc)) [
      | inl e ↦
          let add = canary_ids-add n ids acc in
          let known = rw e at add in
          known
          ∙ (canary_ids-distinct ids acc
              ∙ (ap (λ l. acc ++ l) (sym (with-known acc (suc n) (distinct_ids ids) e)) ∙ back))
      | inr e ↦
          let add = canary_ids-add n ids acc in
          let fresh = rw e at add in
          fresh
          ∙ (canary_ids-distinct ids (acc ++ suc n ∷ [])
              ∙ (with-new acc (suc n) (distinct_ids ids) e ∙ back))
    ]

digits_Without : (s : Text) → All IsDigit s → Without 44 s
digits_Without [] h = tt
digits_Without (c ∷ s) h = (ground (arith, h.0), digits_Without s h.1)

Without-print : (n : ℕ) → Without 44 (print n)
Without-print n = digits_Without (print n) (print-IsDigit n)

print_ids-Without : (ids : List ℕ) → All (Without 44) (print_ids ids)
unfolding print_ids
print_ids-Without [] = tt
print_ids-Without (id ∷ ids) = ground (arith, Without-print id, print_ids-Without ids)

select-all : (p : ℕ → Bool) (xs : List ℕ) → ((y : ℕ) → p y ≡ true) → select p xs ≡ xs
unfolding select
select-all p [] h = refl
select-all p (x ∷ xs) h = ground (arith, h x, select-all p xs h)

parts_read :
    (parts : List Text)
    → All (Without 44) parts
    → canary_ids [] (split 44 (join 44 parts)) ≡ canary_ids [] parts
unfolding canary_ids split join add_canary_id parse_int strip lstrip signed
parts_read [] h = refl
parts_read (s ∷ ss) h = ap (canary_ids []) (split-join 44 s ss h)

pub canary_ids-print_ids :
    (ids : List ℕ) → canary_ids [] (split 44 (join 44 (print_ids ids))) ≡ distinct_ids ids
unfolding exists
canary_ids-print_ids ids =
    parts_read (print_ids ids) (print_ids-Without ids)
    ∙ (canary_ids-distinct ids [] ∙ select-all (is_new []) (distinct_ids ids) (λ y. refl))
