-- ===== src/PathProxy/Routes.antt =====
-- What the route key says of the path, and what the rewritten path is.
use server_vps.Prelude.{
  ℕ, ◌≡◌, refl, ◌∙◌, sym, ap, ◌⊎◌, inl, inr, true, some, [], ◌∷◌, ◌++◌, Text, length, drop,
  starts_with, starts_with-append, split_first, is_empty, ◌==◌, arith, if◌then◌else◌, Option-cases,
  Bool-cases,
}
use server_vps.PathProxy.{is_name, before_slash, checked_key, extract_route_key, rewrite_path}

starts_with_sound : (s p : Text) → starts_with s p ≡ true → s ≡ p ++ drop (length p) s
unfolding starts_with drop
starts_with_sound s [] h = refl
starts_with_sound [] (d ∷ p) h = ground (arith, h)
starts_with_sound (c ∷ s) (d ∷ p) h =
    let rest = starts_with_sound s p (ground (arith, h)) in
    let same : c ≡ d = ground (arith, h) in rw same (ap (λ t. d ∷ t) rest)

drop-append : (p s : Text) → drop (length p) (p ++ s) ≡ s
unfolding drop
drop-append [] s = refl
drop-append (c ∷ p) s = drop-append p s

split_first_sound :
    (sep : ℕ) (s before after : Text)
    → split_first sep s ≡ some (before, after)
    → s ≡ before ++ sep ∷ after
unfolding split_first
split_first_sound sep [] before after h = ground (arith, h)
split_first_sound sep (c ∷ s) before after h = elim (Bool-cases (c == sep)) [
  | inl e ↦
      let first : before ≡ [] = ground (arith, e, h) in
      let rest : after ≡ s = ground (arith, e, h) in
      let same : c ≡ sep = ground (arith, e) in rw (first, rest, same) refl
  | inr e ↦ elim (Option-cases (split_first sep s)) [
    | inl f ↦ absurd (ground (arith, e, f, h))
    | inr ((b, a), f) ↦
        let sound = split_first_sound sep s b a f in
        let first : before ≡ c ∷ b = ground (arith, e, f, h) in
        let rest : after ≡ a = ground (arith, e, f, h) in rw (first, rest) (ap (λ t. c ∷ t) sound)
  ]
]

append-nil : (a : Text) → a ≡ a ++ []
append-nil [] = refl
append-nil (x ∷ a) = ap (λ t. x ∷ t) (append-nil a)

assoc : (a b c : Text) → (a ++ b) ++ c ≡ a ++ (b ++ c)
assoc [] b c = refl
assoc (x ∷ a) b c = ap (λ t. x ∷ t) (assoc a b c)

-- What is left behind the port's name: nothing, or a slash and more.
abbrev pub IsTail : Text → Type 0
IsTail tail = (tail ≡ []) ⊎ ((more : Text) × (tail ≡ 47 ∷ more))

before_slash_sound : (s : Text) → (tail : Text) × (s ≡ before_slash s ++ tail) × IsTail tail
unfolding before_slash
before_slash_sound s = elim (Option-cases (split_first 47 s)) [
  | inl e ↦ ([], rw (e, before_slash) (append-nil s), inl refl)
  | inr ((b, a), e) ↦ (47 ∷ a, rw (e, before_slash) (split_first_sound 47 s b a e), inr (a, refl))
]

-- The path that the container's server sees: the tail, or a slash.
abbrev pub seen : Text → Text
seen tail = if is_empty tail then 47 ∷ [] else tail

seen-slash : (tail : Text) → IsTail tail → (more : Text) × (seen tail ≡ 47 ∷ more)
seen-slash tail (inl e) = ([], rw e refl)
seen-slash tail (inr (more, e)) = (more, rw e refl)

rewrite_path-append :
    (prefix container port_name tail : Text)
    → rewrite_path prefix ((prefix ++ container ++ 47 ∷ port_name) ++ tail) container port_name
      ≡ seen tail
unfolding rewrite_path
rewrite_path-append prefix container port_name tail =
    let full = prefix ++ container ++ 47 ∷ port_name in
    rw (starts_with-append full tail, drop-append full tail, rewrite_path) refl

-- A path with a route key is the prefix, the container's name, a slash and the port's name, both well formed, and then
-- nothing or a slash and more; and what `rewrite_path` makes of it is that tail, or a slash where there is none, so that
-- it begins with a slash.
pub rewrite_path-extract_route_key :
    (prefix path container port_name : Text)
    → extract_route_key prefix path ≡ some (container, port_name)
    → (tail : Text) × (path ≡ (prefix ++ container ++ 47 ∷ port_name) ++ tail)
      × IsTail tail
      × (is_name 61 container ≡ true)
      × (is_name 29 port_name ≡ true)
      × (rewrite_path prefix path container port_name ≡ seen tail)
      × ((more : Text) × (rewrite_path prefix path container port_name ≡ 47 ∷ more))
unfolding extract_route_key checked_key
rewrite_path-extract_route_key prefix path container port_name h =
    let inner = drop (length prefix) path in
    elim (Option-cases (split_first 47 inner)) [
      | inl e ↦ absurd (ground (arith, e, h))
      | inr ((c, rest), e) ↦
          let start : starts_with path prefix ≡ true = ground (arith, e, h) in
          let whole = starts_with_sound path prefix start in
          let parts = split_first_sound 47 inner c rest e in
          let (tail, ends, shape) = before_slash_sound rest in
          let one : container ≡ c = ground (arith, e, h) in
          let two : port_name ≡ before_slash rest = ground (arith, e, h) in
          let inside : inner ≡ c ++ (47 ∷ (before_slash rest ++ tail)) =
            parts ∙ ap (λ t. c ++ (47 ∷ t)) ends in
          let outside : (prefix ++ c ++ (47 ∷ before_slash rest)) ++ tail
              ≡ prefix ++ (c ++ (47 ∷ (before_slash rest ++ tail))) =
            assoc (prefix ++ c) (47 ∷ before_slash rest) tail
            ∙ assoc prefix c (47 ∷ (before_slash rest ++ tail)) in
          let joined : path ≡ (prefix ++ container ++ 47 ∷ port_name) ++ tail =
            rw (one, two) (whole ∙ ap (λ t. prefix ++ t) inside ∙ sym outside) in
          let rewritten : rewrite_path prefix path container port_name ≡ seen tail =
            ap (λ t. rewrite_path prefix t container port_name) joined
            ∙ rewrite_path-append prefix container port_name tail in
          let (more, slash) = seen-slash tail shape in
          (
            tail,
            joined,
            shape,
            ground (arith, e, h),
            ground (arith, e, h),
            rewritten,
            (more, rewritten ∙ slash),
          )
    ]
