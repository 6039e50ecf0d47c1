-- ===== src/Ports/Keys.antt =====
-- `managed_ssh_keys` of backend/app/containers/ports.py, with `str.splitlines` and `"\n".join`.
use server_vps.Prelude.{
  ℕ, strip-idempotent, IsIn, ◌≡◌, refl, ◌⊎◌, inl, inr, Bool, true, false, not, ◌&&◌, ◌||◌, List, [],
  ◌∷◌, ◌++◌, Text, text_eq, text_eq_refl, strip, is_empty, leb, ◌==◌, arith, if◌then◌else◌, exists,
  exists-append, exists-false, All, All-append, Pairwise, Pairwise-insert, Bool-cases,
}

-- The characters that end a line.
unfoldable pub is_line_break : ℕ → Bool
is_line_break c =
    (leb 10 c && leb c 13) || (leb 28 c && leb c 30) || c == 0x85 || c == 0x2028 || c == 0x2029

-- The lines of the rest of a text, `line` being read; `after_cr` where a carriage return has just ended one, so that
-- a line feed belongs to it.
unfoldable pub lines_from : Text → Bool → Text → List Text
unfolding is_line_break
lines_from line after_cr [] = if is_empty line then [] else line ∷ []
lines_from line after_cr (c ∷ s) =
    let skip = after_cr && c == 10 in
    let ends = is_line_break c in
    let next : Text = if ends then [] else line ++ c ∷ [] in
    let rest = lines_from next (c == 13) s in if ends && not skip then line ∷ rest else rest

unfoldable pub splitlines : Text → List Text
unfolding lines_from
splitlines s = lines_from [] false s

-- if line and line not in keys: keys.append(line)
unfoldable pub add_key : List Text → Text → List Text
add_key keys line =
    if not (is_empty line) && not (exists (text_eq line) keys) then keys ++ line ∷ [] else keys

unfoldable pub add_keys : List Text → List Text → List Text
unfolding add_key
add_keys keys [] = keys
add_keys keys (line ∷ lines) = add_keys (add_key keys (strip line)) lines

unfoldable pub join_lines : List Text → Text
join_lines [] = []
join_lines (line ∷ []) = line
join_lines (line ∷ next ∷ lines) = line ++ 10 ∷ join_lines (next ∷ lines)

unfoldable pub managed_ssh_keys : Text → Text
unfolding splitlines add_keys join_lines
managed_ssh_keys user_key = join_lines (add_keys [] (splitlines user_key))

-- Every key is a text that is not empty and has no white space at its ends, and no two are the same.
abbrev pub IsClean : List Text → Type 0
IsClean keys =
    All (λ k. (is_empty k ≡ false) × (strip k ≡ k)) keys
    × Pairwise (λ a b. text_eq b a ≡ false) keys

add_key-IsClean :
    (keys : List Text) (line : Text)
    → strip line ≡ line
    → IsClean keys
    → IsClean (add_key keys line)
unfolding add_key
add_key-IsClean keys line trimmed (filled, distinct) =
    elim (Bool-cases (not (is_empty line) && not (exists (text_eq line) keys))) [
      | inr e ↦ rw (e, add_key) (filled, distinct)
      | inl e ↦
          let blank : is_empty line ≡ false = ground (arith, e) in
          let fresh : exists (text_eq line) keys ≡ false = ground (arith, e) in
          rw (e, add_key)
            (
              All-append (λ k. (is_empty k ≡ false) × (strip k ≡ k)) keys (line ∷ []) filled
                  ((blank, trimmed), tt),
              Pairwise-insert (λ a b. text_eq b a ≡ false) keys line distinct
                  (exists-false (text_eq line) keys fresh),
            )
    ]

add_keys-IsClean : (keys lines : List Text) → IsClean keys → IsClean (add_keys keys lines)
unfolding add_keys
add_keys-IsClean keys [] h = h
add_keys-IsClean keys (line ∷ lines) h =
    add_keys-IsClean (add_key keys (strip line)) lines
      (add_key-IsClean keys (strip line) (strip-idempotent line) h)

-- A key is kept once it is in the list.
add_keys-keeps :
    (k : Text) (keys lines : List Text)
    → exists (text_eq k) keys ≡ true
    → exists (text_eq k) (add_keys keys lines) ≡ true
unfolding add_keys add_key exists
add_keys-keeps k keys [] h = h
add_keys-keeps k keys (line ∷ lines) h =
    let more = exists-append (text_eq k) keys (strip line ∷ []) in
    let kept : exists (text_eq k) (add_key keys (strip line)) ≡ true = ground (arith, h, more) in
    add_keys-keeps k (add_key keys (strip line)) lines kept

-- A line that is not blank is in the list after its turn.
add_key-has :
    (keys : List Text) (line : Text)
    → is_empty line ≡ false
    → exists (text_eq line) (add_key keys line) ≡ true
unfolding add_key exists
add_key-has keys line h =
    let more = exists-append (text_eq line) keys (line ∷ []) in
    let same = text_eq_refl line in
    elim (Bool-cases (exists (text_eq line) keys)) [
      | inl e ↦ rw (h, e, add_key) e
      | inr e ↦ rw (h, e, add_key) (ground (arith, more, same))
    ]

-- A trimmed line that is blank or among the keys.
abbrev pub IsKept : List Text → Text → Type 0
IsKept keys line = (is_empty (strip line) ≡ true) ⊎ (exists (text_eq (strip line)) keys ≡ true)

add_keys-IsKept : (keys lines : List Text) → All (IsKept (add_keys keys lines)) lines
unfolding add_keys
add_keys-IsKept keys [] = tt
add_keys-IsKept keys (line ∷ lines) =
    let key = strip line in
    let rest = add_keys-IsKept (add_key keys key) lines in
    elim (Bool-cases (is_empty key)) [
      | inl e ↦ (inl e, rest)
      | inr e ↦ (inr (add_keys-keeps key (add_key keys key) lines (add_key-has keys key e)), rest)
    ]

-- A key is the trimmed text of one of the lines.
abbrev pub IsLine : List Text → Text → Type 0
IsLine lines k = (line : Text) × IsIn line lines × (k ≡ strip line)

-- Every key added comes from a line.
add_keys-IsLine :
    (keys lines all : List Text)
    → ((line : Text) → IsIn line lines → IsIn line all)
    → All (IsLine all) keys
    → All (IsLine all) (add_keys keys lines)
unfolding add_keys add_key
add_keys-IsLine keys [] all sub h = h
add_keys-IsLine keys (line ∷ lines) all sub h =
    let key = strip line in
    let one : IsLine all key = (line, sub line (inl refl), refl) in
    let longer = All-append (IsLine all) keys (key ∷ []) h (one, tt) in
    let step : All (IsLine all) (add_key keys key) =
      elim (Bool-cases (not (is_empty key) && not (exists (text_eq key) keys))) [
        | inl e ↦ rw (e, add_key) longer
        | inr e ↦ rw (e, add_key) h
      ] in
    add_keys-IsLine (add_key keys key) lines all (λ l i. sub l (inr i)) step

-- The managed keys are exactly the trimmed lines of the user's text that are not blank, each once: every key is such
-- a line, not empty, trimmed and unlike the others, and every line that is not blank is, trimmed, among the keys.
pub managed_ssh_keys-IsClean :
    (user_key : Text)
    → (keys : List Text) × (managed_ssh_keys user_key ≡ join_lines keys)
      × IsClean keys
      × All (IsLine (splitlines user_key)) keys
      × All (IsKept keys) (splitlines user_key)
unfolding managed_ssh_keys
managed_ssh_keys-IsClean user_key =
    let lines = splitlines user_key in
    (
      add_keys [] lines,
      refl,
      add_keys-IsClean [] lines (tt, tt),
      add_keys-IsLine [] lines lines (λ l i. i) tt,
      add_keys-IsKept [] lines,
    )
