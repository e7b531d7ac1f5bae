-- ===== src/Storage/FilePath/Clean.antt =====
-- path/filepath: what Clean makes of a rooted path.
use mathlib.Core.List.{append_assoc, append-nil, reverse-cons}
use git_lfs_server.Base.{
  ◌≡◌, refl, sym, ap, ◌∙◌, Bool, true, ◌&&◌, not, List, [], ◌∷◌, ◌++◌, ◌==◌, all, All, is, reverse,
  arith, Bool-cases, inl, inr,
}
use git_lfs_server.Base.Text.{Str, dec_str}
use git_lfs_server.Storage.FilePath.{
  slash, split_slash, dot, dot_dot, resolve, resolve_all, render, clean,
}

abbrev pub slashless : Str → Bool
slashless part = all (λ c. not (c == slash)) part

-- An element that Clean keeps.
abbrev pub plain : Str → Bool
plain part =
    not (is (dec_str part []))
    && not (is (dec_str part dot))
    && not (is (dec_str part dot_dot))
    && slashless part

-- There is a first element.
pub split-cons : (xs : Str) → (p : Str) × (ps : List Str) × (split_slash xs ≡ p ∷ ps)
unfolding split_slash
split-cons [] = ([], [], refl)
split-cons (c ∷ xs) =
    let (p, ps, e) = split-cons xs in
    elim (Bool-cases (c == slash)) [
      | inl k ↦ ([], split_slash xs, rw k refl)
      | inr k ↦ (c ∷ p, ps, rw (k, e) refl)
    ]

pub split-append : (xs ys : Str) → split_slash (xs ++ slash ∷ ys) ≡ split_slash xs ++ split_slash ys
unfolding split_slash
split-append [] ys = refl
split-append (c ∷ xs) ys = let (p, ps, e) = split-cons xs in ground (arith, split-append xs ys, e)

pub split-slashless : (p : Str) → slashless p ≡ true → split_slash p ≡ p ∷ []
unfolding split_slash
split-slashless [] h = refl
split-slashless (c ∷ p) h = ground (arith, split-slashless p)

split-All : (xs : Str) → All (λ p. slashless p ≡ true) (split_slash xs)
unfolding split_slash
split-All [] = (refl, tt)
split-All (c ∷ xs) =
    let (p, ps, e) = split-cons xs in
    elim (Bool-cases (c == slash)) [
      | inl k ↦ rw k (refl, split-All xs)
      | inr k ↦ let rest = rw e at (split-All xs) in rw (k, e) (ground (arith, rest.0), rest.1)
    ]

-- The elements that are left, last first.
abbrev stack_of : List Str → List Str → List Str
stack_of stack [] = stack
stack_of stack (p ∷ ps) = stack_of (resolve stack p) ps

resolve_all-eq : (stack ps : List Str) → resolve_all stack ps ≡ reverse (stack_of stack ps)
unfolding resolve_all
resolve_all-eq stack [] = refl
resolve_all-eq stack (p ∷ ps) = resolve_all-eq (resolve stack p) ps

abbrev pub ArePlain : List Str → Type 0
ArePlain ps = All (λ p. plain p ≡ true) ps

resolve-ArePlain :
    (stack : List Str) (p : Str) → slashless p ≡ true → ArePlain stack → ArePlain (resolve stack p)
unfolding resolve
resolve-ArePlain [] p h k = ground arith
resolve-ArePlain (q ∷ stack) p h k = ground (arith, k)

stack_of-ArePlain :
    (stack ps : List Str)
    → All (λ p. slashless p ≡ true) ps
    → ArePlain stack
    → ArePlain (stack_of stack ps)
stack_of-ArePlain stack [] h k = k
stack_of-ArePlain stack (p ∷ ps) h k =
    stack_of-ArePlain (resolve stack p) ps h.1 (resolve-ArePlain stack p h.0 k)

resolve-plain : (stack : List Str) (p : Str) → plain p ≡ true → resolve stack p ≡ p ∷ stack
unfolding resolve
resolve-plain stack p h = ground arith

pub All-append : (ps qs : List Str) → ArePlain ps → ArePlain qs → ArePlain (ps ++ qs)
All-append [] qs h k = k
All-append (p ∷ ps) qs h k = (h.0, All-append ps qs h.1 k)

-- Clean keeps plain elements, in their order.
pub resolve_all-plain :
    (stack ps : List Str) → ArePlain ps → resolve_all stack ps ≡ reverse stack ++ ps
unfolding resolve_all
resolve_all-plain stack [] h = sym (append-nil (reverse stack))
resolve_all-plain stack (p ∷ ps) h =
    let push : resolve stack p ≡ p ∷ stack = resolve-plain stack p h.0 in
    ap (λ st. resolve_all st ps) push
    ∙ resolve_all-plain (p ∷ stack) ps h.1
    ∙ ap (λ r. r ++ ps) (reverse-cons p stack)
    ∙ append_assoc (reverse stack) (p ∷ []) ps

All-reverse : (ps : List Str) → ArePlain ps → ArePlain (reverse ps)
All-reverse [] h = tt
All-reverse (p ∷ ps) h =
    rw (reverse-cons p ps) (All-append (reverse ps) (p ∷ []) (All-reverse ps h.1) (h.0, tt))

-- The elements of a clean path are plain.
pub parts-ArePlain : (path : Str) → ArePlain (resolve_all [] (split_slash path))
parts-ArePlain path = rw (resolve_all-eq [] (split_slash path)) (
    All-reverse (stack_of [] (split_slash path))
      (stack_of-ArePlain [] (split_slash path) (split-All path) tt))

-- A rooted path past its first slash.
abbrev pub inner : Str → List Str → Str
inner p [] = p
inner p (q ∷ ps) = p ++ slash ∷ inner q ps

pub render-inner : (p : Str) (ps : List Str) → render (p ∷ ps) ≡ slash ∷ inner p ps
unfolding render
render-inner p [] = refl
render-inner p (q ∷ ps) = rw (render-inner q ps) refl

pub split-inner : (p : Str) (ps : List Str) → ArePlain (p ∷ ps) → split_slash (inner p ps) ≡ p ∷ ps
split-inner p [] h = split-slashless p (ground (arith, h.0))
split-inner p (q ∷ ps) h =
    split-append p (inner q ps)
    ∙ ap (λ r. r ++ split_slash (inner q ps)) (split-slashless p (ground (arith, h.0)))
    ∙ ap (λ r. p ∷ r) (split-inner q ps h.1)

-- The elements of a path with plain elements.
pub parts-render : (ps : List Str) → ArePlain ps → resolve_all [] (split_slash (render ps)) ≡ ps
unfolding render split_slash resolve_all resolve dec_str
parts-render [] h = refl
parts-render (p ∷ ps) h =
    ap (λ r. resolve_all [] (split_slash r)) (render-inner p ps)
    ∙ ap (λ r. resolve_all [] ([] ∷ r)) (split-inner p ps h)
    ∙ resolve_all-plain [] (p ∷ ps) h

-- Clean of a clean path changes nothing.
pub clean_idem : (path : Str) → clean (clean path) ≡ clean path
unfolding clean
clean_idem path = ap render (parts-render (resolve_all [] (split_slash path)) (parts-ArePlain path))
