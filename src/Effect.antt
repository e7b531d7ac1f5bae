-- ===== src/Effect.antt =====
-- Code that acts on a state and may return an error: the error beside the state that it leaves.
pub mod Laws
use git_lfs_server.Error.{Error, Result, ok, err}

abbrev pub Act : Type 0 → Type 0 → Type 0
Act S A = S → Result A × S

module _ {S A : Type 0} where
  abbrev pub pure : A → Act S A
  pure a s = (ok a, s)

  abbrev pub raise : Error → Act S A
  raise e s = (err e, s)

module _ {S A B : Type 0} where
  abbrev pub continue : Result A → (A → Act S B) → Act S B
  continue (ok a) f s = f a s
  continue (err e) f s = (err e, s)

  infixl 5 ◌>>=◌ ◌>>◌
  unfoldable pub ◌>>=◌ : Act S A → (A → Act S B) → Act S B
  ◌>>=◌ m f s = let (r, s') = m s in continue r f s'

  abbrev pub ◌>>◌ : Act S A → Act S B → Act S B
  m >> k = m >>= λ _. k

  -- defer: the clean-up runs after the action, whatever it returns, and its own result is dropped.
  unfoldable pub deferred : Act S B → Act S A → Act S A
  deferred clean m s = let (r, s') = m s in (r, (clean s').1)
