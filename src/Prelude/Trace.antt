-- ===== src/Prelude/Trace.antt =====
-- Runs that log their calls, and the rules by which a property of a log is shown: a program keeps a
-- log in order when each of its calls is allowed by what was logged before.
use mathlib.Core.Path.{◌≡◌, refl}
use mathlib.Core.Logic.{◌⊎◌, inl, inr}
use mathlib.Core.Bool.{Bool, true, false}
use mathlib.Core.List.{List, [], ◌∷◌}
use bosun.Prelude.Tests.{if◌then◌else◌}
use bosun.Prelude.Run.{Run, Failure, Reply, done, broke, pure, ◌>>=◌, go_on, on_failure}

module _ {E : Type 0} where
  abbrev pub Recorded : E → List E → Type 0
  Recorded e [] = ⊥
  Recorded e (x ∷ log) = (x ≡ e) ⊎ Recorded e log

  -- Each event was allowed by the log before it.
  abbrev pub IsOrdered : (E → List E → Type 0) → List E → Type 0
  IsOrdered allowed [] = Unit
  IsOrdered allowed (e ∷ log) = allowed e log × IsOrdered allowed log

  module _ {W : Type 0} where
    abbrev pub logged : {A : Type 0} → (A → E) → Run W A → Run (W × List E) A
    logged event call (w, log) = let (w', a) = call w in ((w', event a ∷ log), a)

    -- The fact `F` of the log is kept, and so is the order.
    pub record Keeps {A : Type 0} (allowed : E → List E → Type 0) (F : List E → Type 0)
        (m : Run (W × List E) A) : Type 0 where
      pub kept :
          (w : W × List E)
          → IsOrdered allowed w.1
          → F w.1
          → IsOrdered allowed (m w).0.1 × F (m w).0.1

    -- From the fact `F` of the log the program gets to the fact `Q` of its answer and the log.
    pub record Gives {A : Type 0} (allowed : E → List E → Type 0) (F : List E → Type 0)
        (Q : A → List E → Type 0) (m : Run (W × List E) A) : Type 0 where
      pub kept :
          (w : W × List E)
          → IsOrdered allowed w.1
          → F w.1
          → IsOrdered allowed (m w).0.1 × Q (m w).1 (m w).0.1

  -- A fact of the log that later events leave true.
  abbrev pub Lasts : (List E → Type 0) → Type 0
  Lasts F = (e : E) (log : List E) → F log → F (e ∷ log)

  -- The fact `F`, and that the event happened.
  abbrev pub With : (List E → Type 0) → E → List E → Type 0
  With F e log = F log × Recorded e log

  pub Lasts-With : (F : List E → Type 0) (e : E) → Lasts F → Lasts (With F e)
  Lasts-With F e f x log h = (f x log h.0, inr h.1)

  module _ {W : Type 0} (allowed : E → List E → Type 0) (F : List E → Type 0) where
    pub Keeps-pure : {A : Type 0} (a : A) → Keeps {W = W} allowed F (pure a)
    Keeps-pure a = record { kept = λ w o f. (o, f) }

    pub Keeps-bind :
        {A B : Type 0} (m : Run (W × List E) A) (k : A → Run (W × List E) B)
        → Keeps allowed F m
        → ((a : A) → Keeps allowed F (k a))
        → Keeps allowed F (m >>= k)
    Keeps-bind m k hm hk = record {
      kept = λ w o f. let (o', f') = hm.kept w o f in (hk (m w).1).kept (m w).0 o' f';
    }

    pub Keeps-go_on :
        {A B : Type 0} (handle : Failure → Run (W × List E) B) (next : A → Run (W × List E) B)
        → ((f : Failure) → Keeps allowed F (handle f))
        → ((a : A) → Keeps allowed F (next a))
        → (r : Reply A) → Keeps allowed F (go_on handle next r)
    Keeps-go_on handle next hh hn (done a) = hn a
    Keeps-go_on handle next hh hn (broke f) = hh f

    pub Keeps-go_on_if :
        {A B : Type 0} (handle : Failure → Run (W × List E) B) (next : A → Run (W × List E) B)
        (b : Bool) (x y : Reply A)
        → (b ≡ true → Keeps allowed F (go_on handle next x))
        → (b ≡ false → Keeps allowed F (go_on handle next y))
        → Keeps allowed F (go_on handle next (if b then x else y))
    Keeps-go_on_if handle next true x y hx hy = hx refl
    Keeps-go_on_if handle next false x y hx hy = hy refl

    pub Keeps-on_failure :
        {A B : Type 0} (m : Run (W × List E) (Reply A)) (handle : Failure → Run (W × List E) B)
        (next : A → Run (W × List E) B)
        → Keeps allowed F m
        → ((f : Failure) → Keeps allowed F (handle f))
        → ((a : A) → Keeps allowed F (next a))
        → Keeps allowed F (on_failure m handle next)
    Keeps-on_failure m handle next hm hh hn =
        Keeps-bind m (go_on handle next) hm (Keeps-go_on handle next hh hn)

    -- A call whose event is allowed.
    pub Keeps-logged :
        {A : Type 0} (event : A → E) (call : Run W A)
        → Lasts F
        → ((a : A) (log : List E) → F log → allowed (event a) log)
        → Keeps allowed F (logged event call)
    Keeps-logged event call lasts ok = record {
      kept = λ w o f. let a = (call w.0).1 in ((ok a w.1 f, o), lasts (event a) w.1 f);
    }

    -- A call whose event is a fact for what follows.
    pub Keeps-logged_bind :
        {A B : Type 0} (event : A → E) (call : Run W A) (k : A → Run (W × List E) B)
        → Lasts F
        → ((a : A) (log : List E) → F log → allowed (event a) log)
        → ((a : A) → Keeps allowed (With F (event a)) (k a))
        → Keeps allowed F (logged event call >>= k)
    Keeps-logged_bind event call k lasts ok hk = record {
      kept = λ w o f.
          let a = (call w.0).1 in
          let (o', f') =
            (hk a).kept ((call w.0).0, event a ∷ w.1) (ok a w.1 f, o)
              (lasts (event a) w.1 f, inl refl) in
          (o', f'.0);
    }

    pub Keeps-if :
        {A : Type 0} (b : Bool) (m n : Run (W × List E) A)
        → (b ≡ true → Keeps allowed F m)
        → (b ≡ false → Keeps allowed F n)
        → Keeps allowed F (if b then m else n)
    Keeps-if true m n hm hn = hm refl
    Keeps-if false m n hm hn = hn refl

    pub Gives-pure :
        {A : Type 0} (Q : A → List E → Type 0) (a : A)
        → ((log : List E) → F log → Q a log)
        → Gives {W = W} allowed F Q (pure a)
    Gives-pure Q a q = record { kept = λ w o f. (o, q w.1 f) }

    pub Gives-bind :
        {A B : Type 0} (Q : A → List E → Type 0) (R : B → List E → Type 0) (m : Run (W × List E) A)
        (k : A → Run (W × List E) B)
        → Gives allowed F Q m
        → ((a : A) → Gives allowed (Q a) R (k a))
        → Gives allowed F R (m >>= k)
    Gives-bind Q R m k hm hk = record {
      kept = λ w o f. let (o', f') = hm.kept w o f in (hk (m w).1).kept (m w).0 o' f';
    }

    pub Gives-logged :
        {A : Type 0} (event : A → E) (call : Run W A)
        → Lasts F
        → ((a : A) (log : List E) → F log → allowed (event a) log)
        → Gives allowed F (λ a. With F (event a)) (logged event call)
    Gives-logged event call lasts ok = record {
      kept = λ w o f. let a = (call w.0).1 in ((ok a w.1 f, o), (lasts (event a) w.1 f, inl refl));
    }

    -- A call of which something is known whatever the world.
    pub Gives-answered :
        {A : Type 0} (P : A → Type 0) (event : A → E) (call : Run W A)
        → Lasts F
        → ((a : A) (log : List E) → F log → allowed (event a) log)
        → ((w : W) → P (call w).1)
        → Gives allowed F (λ a log. With F (event a) log × P a) (logged event call)
    Gives-answered P event call lasts ok p = record {
      kept = λ w o f.
          let a = (call w.0).1 in ((ok a w.1 f, o), ((lasts (event a) w.1 f, inl refl), p w.0));
    }

    pub Gives-if :
        {A : Type 0} (Q : A → List E → Type 0) (b : Bool) (m n : Run (W × List E) A)
        → (b ≡ true → Gives allowed F Q m)
        → (b ≡ false → Gives allowed F Q n)
        → Gives allowed F Q (if b then m else n)
    Gives-if Q true m n hm hn = hm refl
    Gives-if Q false m n hm hn = hn refl
