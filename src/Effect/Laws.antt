-- ===== src/Effect/Laws.antt =====
-- Rules for the two ways to build an action from others.
use git_lfs_server.Base.{◌≡◌, refl, ap}
use git_lfs_server.Error.{Error, Result, ok, err}
use git_lfs_server.Effect.{Act, pure, continue, ◌>>=◌}

module _ {S A B : Type 0} (Q : Result B × S → Type 0) where
  continue_post :
      (r : Result A) (f : A → Act S B) (s : S)
      → ((e : Error) → r ≡ err e → Q (err e, s))
      → ((a : A) → r ≡ ok a → Q (f a s))
      → Q (continue r f s)
  continue_post (ok a) f s stop go = go a refl
  continue_post (err e) f s stop go = stop e refl

  -- What holds of a block: at the error of its first action, and of the rest from its value.
  pub bind_post :
      (m : Act S A) (f : A → Act S B) (s : S)
      → ((e : Error) (s' : S) → m s ≡ (err e, s') → Q (err e, s'))
      → ((a : A) (s' : S) → m s ≡ (ok a, s') → Q (f a s'))
      → Q ((m >>= f) s)
  unfolding ◌>>=◌
  bind_post m f s stop go =
      continue_post (m s).0 f (m s).1 (λ e h. stop e (m s).1 (ap (λ r. (r, (m s).1)) h))
        (λ a h. go a (m s).1 (ap (λ r. (r, (m s).1)) h))

module _ {S A B : Type 0} where
  continue-ok :
      (r : Result A) (f : A → Act S B) (s s' : S) (b : B)
      → continue r f s ≡ (ok b, s')
      → (a : A) × (r ≡ ok a) × (f a s ≡ (ok b, s'))
  continue-ok (ok a) f s s' b h = (a, refl, h)
  continue-ok (err e) f s s' b h = cc

  -- A block that returned: its first action returned, and so did the rest.
  pub >>=-ok :
      (m : Act S A) (f : A → Act S B) (s s' : S) (b : B)
      → (m >>= f) s ≡ (ok b, s')
      → (a : A) × (mid : S) × (m s ≡ (ok a, mid)) × (f a mid ≡ (ok b, s'))
  unfolding ◌>>=◌
  >>=-ok m f s s' b h =
      let (a, e, rest) = continue-ok (m s).0 f (m s).1 s' b h in
      (a, (m s).1, ap (λ r. (r, (m s).1)) e, rest)

  continue-pure : (r : Result A) (v : B) (s : S) → (continue r (λ _. pure v) s).1 ≡ s
  continue-pure (ok a) v s = refl
  continue-pure (err e) v s = refl

  -- A last `return v` changes nothing.
  pub bind-pure_state : (m : Act S A) (v : B) (s : S) → ((m >>= λ _. pure v) s).1 ≡ (m s).1
  unfolding ◌>>=◌
  bind-pure_state m v s = continue-pure (m s).0 v (m s).1
