-- ===== src/Storage/FilePath/Under.antt =====
-- path/filepath: Join of a clean path with plain elements, and the paths under it.
use mathlib.Core.List.{append_assoc}
use git_lfs_server.Base.{
  ◌≡◌, ◌≢◌, refl, sym, ap, ◌∙◌, subst, true, List, [], ◌∷◌, ◌++◌, ◌==◌, arith, Bool-cases, inl, inr,
}
use git_lfs_server.Base.Text.{Str, dec_str, has_prefix, cut_prefix}
use git_lfs_server.Storage.FilePath.{slash, split_slash, resolve, resolve_all, render, clean, abs}
use git_lfs_server.Storage.FilePath.Clean.{
  plain, ArePlain, All-append, inner, render-inner, split-append, parts-ArePlain, resolve_all-plain,
  split-inner,
}

-- The elements of a clean path.
abbrev pub parts : Str → List Str
parts path = resolve_all [] (split_slash path)

-- A path that Clean leaves.
pub record IsClean (path : Str) : Type 0 where
  pub elements : List Str
  pub are_plain : ArePlain elements
  pub rendered : path ≡ render elements

pub clean-IsClean : (path : Str) → IsClean (clean path)
unfolding clean
clean-IsClean path = record {
  elements = parts path;
  are_plain = parts-ArePlain path;
  rendered = refl;
}

pub abs-IsClean : (cwd path : Str) → IsClean (abs cwd path)
unfolding abs
abs-IsClean cwd path = elim (Bool-cases (has_prefix path (slash ∷ []))) [
  | inl e ↦ rw e (clean-IsClean path)
  | inr e ↦ rw e (clean-IsClean (cwd ++ slash ∷ path))
]

-- The elements of a path that a clean one is joined with.
parts-join :
    (rs : List Str) (q : Str) (qs : List Str)
    → ArePlain rs
    → ArePlain (q ∷ qs)
    → parts (render rs ++ slash ∷ inner q qs) ≡ rs ++ q ∷ qs
unfolding render split_slash resolve_all resolve dec_str
parts-join [] q qs h k =
    ap (λ r. resolve_all [] ([] ∷ [] ∷ r)) (split-inner q qs k) ∙ resolve_all-plain [] (q ∷ qs) k
parts-join (r ∷ rs) q qs h k =
    ap (λ x. parts (x ++ slash ∷ inner q qs)) (render-inner r rs)
    ∙ ap (resolve_all []) (
        split-append (slash ∷ inner r rs) (inner q qs)
        ∙ ap (λ x. ([] ∷ x) ++ split_slash (inner q qs)) (split-inner r rs h)
        ∙ ap (λ x. [] ∷ (r ∷ rs) ++ x) (split-inner q qs k))
    ∙ resolve_all-plain [] ((r ∷ rs) ++ q ∷ qs) (All-append (r ∷ rs) (q ∷ qs) h k)

pub clean-join :
    (rs : List Str) (q : Str) (qs : List Str)
    → ArePlain rs
    → ArePlain (q ∷ qs)
    → clean (render rs ++ slash ∷ inner q qs) ≡ render (rs ++ q ∷ qs)
unfolding clean
clean-join rs q qs h k = ap render (parts-join rs q qs h k)

pub has_prefix-append : (p s : Str) → has_prefix (p ++ s) p ≡ true
unfolding has_prefix cut_prefix
has_prefix-append [] s = refl
has_prefix-append (c ∷ p) s = ground (arith, has_prefix-append p s)

pub has_prefix-rest : (s p : Str) → has_prefix s p ≡ true → (rest : Str) × (s ≡ p ++ rest)
unfolding has_prefix cut_prefix
has_prefix-rest s [] h = (s, refl)
has_prefix-rest [] (c ∷ p) h = cc
has_prefix-rest (a ∷ s) (c ∷ p) h = elim (Bool-cases (a == c)) [
  | inl e ↦
      let (rest, same) = has_prefix-rest s p (rw e at h) in
      let head : a ≡ c = ground arith in (rest, ap (λ x. x ∷ s) head ∙ ap (λ x. c ∷ x) same)
  | inr e ↦ absurd (cc (rw e at h))
]

inner-append :
    (r : Str) (rs : List Str) (q : Str) (qs : List Str)
    → inner r (rs ++ q ∷ qs) ≡ inner r rs ++ slash ∷ inner q qs
inner-append r [] q qs = refl
inner-append r (x ∷ rs) q qs =
    ap (λ y. r ++ slash ∷ y) (inner-append x rs q qs)
    ∙ sym (append_assoc r (slash ∷ inner x rs) (slash ∷ inner q qs))

-- What is below a clean path that is not "/" is it, a slash, and the elements below.
pub render-below :
    (r : Str) (rs : List Str) (q : Str) (qs : List Str)
    → render ((r ∷ rs) ++ q ∷ qs) ≡ render (r ∷ rs) ++ slash ∷ inner q qs
render-below r rs q qs =
    render-inner r (rs ++ q ∷ qs)
    ∙ ap (λ x. slash ∷ x) (inner-append r rs q qs)
    ∙ ap (λ x. x ++ slash ∷ inner q qs) (sym (render-inner r rs))

pub below-has_prefix :
    (r : Str) (rs : List Str) (q : Str) (qs : List Str)
    → has_prefix (render ((r ∷ rs) ++ q ∷ qs)) (render (r ∷ rs) ++ slash ∷ []) ≡ true
below-has_prefix r rs q qs =
    ap (λ x. has_prefix x (render (r ∷ rs) ++ slash ∷ []))
      (render-below r rs q qs ∙ sym (append_assoc (render (r ∷ rs)) (slash ∷ []) (inner q qs)))
    ∙ has_prefix-append (render (r ∷ rs) ++ slash ∷ []) (inner q qs)

All-rest : (ps qs : List Str) → ArePlain (ps ++ qs) → ArePlain qs
All-rest [] qs h = h
All-rest (p ∷ ps) qs h = All-rest ps qs h.1

split-render :
    (p : Str) (ps : List Str) → ArePlain (p ∷ ps) → split_slash (render (p ∷ ps)) ≡ [] ∷ p ∷ ps
unfolding split_slash
split-render p ps h = ap split_slash (render-inner p ps) ∙ ap (λ r. [] ∷ r) (split-inner p ps h)

pub tail-injective : {x y : Str} {xs ys : List Str} → x ∷ xs ≡ y ∷ ys → xs ≡ ys
tail-injective h = cc (h)

pub head-injective : {x y : Str} {xs ys : List Str} → x ∷ xs ≡ y ∷ ys → x ≡ y
head-injective h = cc (h)

split-root : split_slash (render []) ≡ [] ∷ [] ∷ []
unfolding split_slash render
split-root = refl

pub plain-nonempty : (p : Str) → plain p ≡ true → p ≢ []
plain-nonempty p h e = ground (arith, e)

-- A clean path that begins with a clean path and a slash is below it.
pub has_prefix-below :
    (rs ps : List Str)
    → ArePlain rs
    → ArePlain ps
    → has_prefix (render ps) (render rs ++ slash ∷ []) ≡ true
    → (qs : List Str) × (ps ≡ rs ++ qs) × ArePlain qs
has_prefix-below [] ps h k e = (ps, refl, k)
has_prefix-below (r ∷ rs) ps h k e =
    let (rest, same) = has_prefix-rest (render ps) (render (r ∷ rs) ++ slash ∷ []) e in
    let pieces : split_slash (render ps) ≡ ([] ∷ r ∷ rs) ++ split_slash rest =
      ap split_slash (same ∙ append_assoc (render (r ∷ rs)) (slash ∷ []) rest)
      ∙ split-append (render (r ∷ rs)) rest
      ∙ ap (λ x. x ++ split_slash rest) (split-render r rs h) in
    below rest ps k pieces
  where
    below :
        (rest : Str) (ps : List Str)
        → ArePlain ps
        → split_slash (render ps) ≡ ([] ∷ r ∷ rs) ++ split_slash rest
        → (qs : List Str) × (ps ≡ (r ∷ rs) ++ qs) × ArePlain qs
    below rest [] k pieces =
        let same = tail-injective (sym split-root ∙ pieces) in
        absurd (plain-nonempty r h.0 (sym (head-injective same)))
    below rest (p ∷ ps) k pieces =
        let same : p ∷ ps ≡ (r ∷ rs) ++ split_slash rest =
          tail-injective (sym (split-render p ps k) ∙ pieces) in
        (split_slash rest, same, All-rest (r ∷ rs) (split_slash rest) (subst ArePlain same k))
