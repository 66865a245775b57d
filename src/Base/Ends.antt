-- ===== src/Base/Ends.antt =====
-- Where a handler ends: what holds of the store where its first call stops it, and where it goes on.
use mathlib.Core.Path.{◌≡◌, refl, sym, subst}
use mathlib.Core.Bool.{Bool, true, false}
use mathlib.Core.Option.{Option, none, some}
use kub.Base.Outcomes.{
  Error, Result, ok, err, Handler, lift, or_fail, fail_if, exec, next, goes_on, ◌>>=◌, ◌>>◌,
}

module _ {S : Type 0} (Q : S → Type 0) where
  pub after_write : (fails : Bool) (f : S → S) (s : S) → Q s → Q (f s) → Q (exec fails f s).1
  after_write true f s stay done = stay
  after_write false f s stay done = done

  module _ {B : Type 0} where
    pub after_test :
        (c : Bool) (x : Error) (m : Handler S B) (s : S)
        → Q s
        → (c ≡ false → Q (m s).1)
        → Q ((fail_if c x >> m) s).1
    after_test true x m s stay go = stay
    after_test false x m s stay go = go refl

    -- A first call that writes, or fails.
    pub after_exec :
        (fails : Bool) (f : S → S) (m : Handler S B) (s : S)
        → Q s
        → (fails ≡ false → Q (m (f s)).1)
        → Q ((exec fails f >> m) s).1
    after_exec true f m s stay go = stay
    after_exec false f m s stay go = go refl

  module _ {A B : Type 0} where
    pub after_answer :
        (r : Result A) (k : A → Handler S B) (s : S)
        → Q s
        → ((a : A) → r ≡ ok a → Q (k a s).1)
        → Q (next k r s)
    after_answer (ok a) k s stay go = go a refl
    after_answer (err x) k s stay go = stay

    pub after_lift :
        (r : Result A) (k : A → Handler S B) (s : S)
        → Q s
        → ((a : A) → r ≡ ok a → Q (k a s).1)
        → Q ((lift r >>= k) s).1
    after_lift (ok a) k s stay go = go a refl
    after_lift (err x) k s stay go = stay

    pub after_find :
        (o : Option A) (x : Error) (k : A → Handler S B) (s : S)
        → Q s
        → ((a : A) → o ≡ some a → Q (k a s).1)
        → Q ((or_fail o x >>= k) s).1
    after_find none x k s stay go = stay
    after_find (some a) x k s stay go = go a refl

    -- A first call that writes nothing.
    pub after_read :
        (m : Handler S A) (k : A → Handler S B) (s : S)
        → (m s).1 ≡ s
        → Q s
        → ((a : A) → (m s).0 ≡ ok a → Q (k a s).1)
        → Q ((m >>= k) s).1
    after_read m k s reads stay go =
        subst Q (sym (goes_on m k s refl reads)) (after_answer (m s).0 k s stay go)

    -- Any first call, by where it ends.
    pub after_call :
        (m : Handler S A) (k : A → Handler S B) (s : S)
        → Q (m s).1
        → ((a : A) → (m s).0 ≡ ok a → Q (k a (m s).1).1)
        → Q ((m >>= k) s).1
    after_call m k s stay go =
        subst Q (sym (goes_on m k s refl refl)) (after_answer (m s).0 k (m s).1 stay go)

    -- A first call that writes only where it fails.
    pub after_guard :
        (m : Handler S A) (k : A → Handler S B) (s : S)
        → Q (m s).1
        → ((a : A) → (m s).0 ≡ ok a → ((m s).1 ≡ s) × Q (k a s).1)
        → Q ((m >>= k) s).1
    after_guard m k s stay go =
        after_call m k s stay (λ a done. subst (λ t. Q (k a t).1) (sym (go a done).0) (go a done).1)
