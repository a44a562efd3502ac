-- ===== src/Reconcile/Act.antt =====
-- internal/reconcile: a step of the reconciler reads and writes the store, and may fail. What it
-- wrote before it failed stays written. (`none` is an error of a seam, of a seal or of the store.)
use mathlib.Core.Path.{subst}
use kaa_s_demo.Prelude.{
  if◌then◌else◌, true, false, refl, ap, arith, ◌∙◌, some_inj, sym, true, Option, Bool, ◌≡◌, none,
  some,
}
use kaa_s_demo.Store.Memory.{Memory}

abbrev pub Act : Type 0 → Type 0
Act A = Memory → Option A × Memory

infixl 5 ◌>>=◌ ◌>>◌
abbrev pub ◌>>=◌ : {A B : Type 0} → Act A → (A → Act B) → Act B
◌>>=◌ step next m = let (r, m') = step m in elim r [ none ↦ (none, m') | some a ↦ next a m' ]

abbrev pub ◌>>◌ : {A B : Type 0} → Act A → Act B → Act B
step >> next = step >>= λ _. next

abbrev pub pure : {A : Type 0} → A → Act A
pure a m = (some a, m)

-- an answer of a seam
abbrev pub ask : {A : Type 0} → Option A → Act A
ask o m = (o, m)

-- if err := …; err != nil { return err }
abbrev pub check : Bool → Act (Unit {0})
check true m = (some tt, m)
check false m = (none, m)

abbrev pub modify : (Memory → Memory) → Act (Unit {0})
modify f m = (some tt, f m)

abbrev pub gets : {A : Type 0} → (Memory → A) → Act A
gets f m = (some (f m), m)

-- Whatever a step returns has the property.
abbrev pub Ensures : {A : Type 0} → (A → Type 0) → Act A → Type 0
Ensures {A} P step = (m : Memory) (a : A) → (step m).0 ≡ some a → P a

after : {A B : Type 0} → (A → Act B) → Option A → Memory → Option B × Memory
after next none m = (none, m)
after next (some a) m = next a m

after-some :
    {A B : Type 0} (next : A → Act B) (r : Option A) (m : Memory) (b : B)
    → (after next r m).0 ≡ some b
    → (a : A) × (r ≡ some a) × ((next a m).0 ≡ some b)
unfolding after
after-some next none m b e = cc
after-some next (some a) m b e = (a, refl, e)

bind-after :
    {A B : Type 0} (step : Act A) (next : A → Act B) (m : Memory) (r : Option A)
    → (step m).0 ≡ r
    → (step >>= next) m ≡ after next r (step m).1
unfolding after
bind-after step next m none e = ground arith
bind-after step next m (some a) e = ground arith

pub bind-Ensures :
    {A B : Type 0} (Q : A → Type 0) (P : B → Type 0) (step : Act A) (next : A → Act B)
    → Ensures Q step
    → ((a : A) → Q a → Ensures P (next a))
    → Ensures P (step >>= next)
bind-Ensures Q P step next h k m b e =
    let (a, done, rest) =
      after-some next (step m).0 (step m).1 b
        (sym (ap (λ p. p.0) (bind-after step next m (step m).0 refl)) ∙ e) in
    k a (h m a done) (step m).1 b rest

pub pure-Ensures : {A : Type 0} (P : A → Type 0) (a : A) → P a → Ensures P (pure a)
pure-Ensures P a p m b e = subst P (some_inj e) p

-- A step whose own answer does not matter.
pub then-Ensures :
    {A B : Type 0} (P : B → Type 0) (step : Act A) (next : A → Act B)
    → ((a : A) → Ensures P (next a))
    → Ensures P (step >>= next)
then-Ensures P step next h = bind-Ensures (λ _. Unit {0}) P step next (λ m a e. tt) (λ a _. h a)

pub if-Ensures :
    {A : Type 0} (P : A → Type 0) (test : Bool) (a b : Act A)
    → Ensures P a
    → Ensures P b
    → Ensures P (if test then a else b)
if-Ensures P true a b h k = h
if-Ensures P false a b h k = k
