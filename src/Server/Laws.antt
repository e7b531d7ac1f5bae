-- ===== src/Server/Laws.antt =====
-- Rules for the handlers' blocks, and the state of the tables that every answer leaves.
use git_lfs_server.Base.{◌≡◌, refl, ap}
use git_lfs_server.Error.{Error, Result, ok, err}
use git_lfs_server.Server.{Response, World, Handler, settle, attempt}

module _ {S A : Type 0} (Q : Response × World S → Type 0) where
  settle_post :
      (fail : Error → Response) (go : A → Handler S) (r : Result A) (w : World S)
      → ((e : Error) → r ≡ err e → Q (fail e, w))
      → ((a : A) → r ≡ ok a → Q (go a w))
      → Q (settle fail go r w)
  settle_post fail go (ok a) w stop next = next a refl
  settle_post fail go (err e) w stop next = stop e refl

  -- What holds of a call and what follows it: of the answer to its error, and of the rest.
  pub attempt_post :
      (m : World S → Result A × World S) (fail : Error → Response) (go : A → Handler S)
      (w : World S)
      → ((e : Error) (w' : World S) → m w ≡ (err e, w') → Q (fail e, w'))
      → ((a : A) (w' : World S) → m w ≡ (ok a, w') → Q (go a w'))
      → Q (attempt m fail go w)
  unfolding attempt
  attempt_post m fail go w stop next =
      settle_post fail go (m w).0 (m w).1 (λ e h. stop e (m w).1 (ap (λ r. (r, (m w).1)) h))
        (λ a h. next a (m w).1 (ap (λ r. (r, (m w).1)) h))
