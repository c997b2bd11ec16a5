-- ===== src/Effect.antt =====
-- Fallible code with effects on a state `W` of everything that the code can read or change: what
-- `Result<A, E>` with `?` does. An error keeps the effects that came before it.
pub mod Hoare
use pfnc.Prelude.{◌≡◌, refl, ◌⊎◌, inl, inr, List, [], ◌∷◌}

-- `out_of_fuel` is no result of the program: it marks a run that used up the fuel of the model.
pub data Result {ℓ} (E : Type 0) (A : Type ℓ) : Type ℓ where
  ok : A → Result E A
  err : E → Result E A
  out_of_fuel : Result E A

abbrev pub M {ℓ} : Type 0 → Type 0 → Type ℓ → Type ℓ
M W E A = W → Result E A × W

abbrev pub pure {ℓ} : {W E : Type 0} {A : Type ℓ} → A → M W E A
pure a w = (ok a, w)

abbrev pub fail {ℓ} : {W E : Type 0} {A : Type ℓ} → E → M W E A
fail e w = (err e, w)

abbrev pub exhausted {ℓ} : {W E : Type 0} {A : Type ℓ} → M W E A
exhausted w = (out_of_fuel, w)

abbrev pub then_run {ℓ κ} :
    {W E : Type 0} {A : Type ℓ} {B : Type κ} → Result E A × W → (A → M W E B) → Result E B × W
then_run (ok a, w) f = f a w
then_run (err e, w) f = (err e, w)
then_run (out_of_fuel, w) f = (out_of_fuel, w)

infixl 5 ◌>>=◌ ◌>>◌
abbrev pub ◌>>=◌ {ℓ κ} :
    {W E : Type 0} {A : Type ℓ} {B : Type κ} → M W E A → (A → M W E B) → M W E B
◌>>=◌ m f w = then_run (m w) f

abbrev pub ◌>>◌ {κ} : {W E : Type 0} {B : Type κ} → M W E (Unit {0}) → M W E B → M W E B
m >> k = m >>= λ _. k

-- `map_err`, and the conversion that `?` makes.
abbrev pub map_err_run {ℓ} :
    {W E F : Type 0} {A : Type ℓ} → (E → F) → Result E A × W → Result F A × W
map_err_run g (ok a, w) = (ok a, w)
map_err_run g (err e, w) = (err (g e), w)
map_err_run g (out_of_fuel, w) = (out_of_fuel, w)

abbrev pub map_err {ℓ} : {W E F : Type 0} {A : Type ℓ} → (E → F) → M W E A → M W F A
map_err g m w = map_err_run g (m w)

-- `let _ = m;`: the result is dropped, an error too.
abbrev pub ignore_run {ℓ} : {W E F : Type 0} {A : Type ℓ} → Result E A × W → Result F (Unit {0}) × W
ignore_run (ok _, w) = (ok tt, w)
ignore_run (err _, w) = (ok tt, w)
ignore_run (out_of_fuel, w) = (out_of_fuel, w)

abbrev pub ignore {ℓ} : {W E F : Type 0} {A : Type ℓ} → M W E A → M W F (Unit {0})
ignore m w = ignore_run (m w)

pub Result-cases {ℓ} :
    {E : Type 0} {A : Type ℓ} (r : Result E A)
    → ((a : A) × (r ≡ ok a)) ⊎ ((e : E) × (r ≡ err e)) ⊎ (r ≡ out_of_fuel)
Result-cases (ok a) = inl (a, refl)
Result-cases (err e) = inr (inl (e, refl))
Result-cases out_of_fuel = inr (inr refl)

-- A call whose result is looked at later, `let result = m;`.
abbrev pub attempt {ℓ} : {W E F : Type 0} {A : Type ℓ} → M W E A → M W F (Result E A)
attempt m w = let (r, w') = m w in (ok r, w')

-- A step that cannot fail, such as a read of an atomic flag.
abbrev pub total_run {ℓ} : {W E : Type 0} {A : Type ℓ} → A × W → Result E A × W
total_run (a, w) = (ok a, w)

abbrev pub total {ℓ} : {W E : Type 0} {A : Type ℓ} → (W → A × W) → M W E A
total m w = total_run (m w)

abbrev pub effect : {W E : Type 0} → (W → W) → M W E (Unit {0})
effect f w = (ok tt, f w)

-- `for x in xs { acc = body(x, acc)?; }`
unfoldable pub for_each {ℓ κ} :
    {W E : Type 0} {A : Type ℓ} {B : Type κ} → (A → B → M W E B) → List A → B → M W E B
for_each body [] acc = pure acc
for_each body (x ∷ xs) acc = body x acc >>= for_each body xs

-- A sequence that succeeds has a first part that does, and a rest that does from there.
pub ok_of_then_run {ℓ κ} :
    {W E : Type 0} {A : Type ℓ} {B : Type κ} (o : Result E A × W) (f : A → M W E B) {b : B}
    → (then_run o f).0 ≡ ok b
    → (a : A) × (o.0 ≡ ok a) × (then_run o f ≡ f a o.1)
ok_of_then_run (ok a, w) f h = (a, refl, refl)
ok_of_then_run (err e, w) f h = cc
ok_of_then_run (out_of_fuel, w) f h = cc

-- The effects of a call do not depend on what becomes of its result.
pub map_err_run_state {ℓ} :
    {W E F : Type 0} {A : Type ℓ} (g : E → F) (o : Result E A × W) → (map_err_run g o).1 ≡ o.1
map_err_run_state g (ok a, w) = refl
map_err_run_state g (err e, w) = refl
map_err_run_state g (out_of_fuel, w) = refl

pub ignore_run_state {ℓ} :
    {W E : Type 0} (F : Type 0) {A : Type ℓ} (o : Result E A × W) → (ignore_run {F = F} o).1 ≡ o.1
ignore_run_state F (ok a, w) = refl
ignore_run_state F (err e, w) = refl
ignore_run_state F (out_of_fuel, w) = refl

pub err-ne-ok {ℓ} : {E : Type 0} {A : Type ℓ} {e : E} {a : A} → err e ≡ ok a → ⊥
err-ne-ok h = cc

-- What the first part keeps, and the rest keeps from there, the sequence keeps.
pub then_run-inv {ℓ κ} :
    {W E : Type 0} {A : Type ℓ} {B : Type κ} (Q : W → Type 0) (o : Result E A × W) (f : A → M W E B)
    → Q o.1
    → ((a : A) → o.0 ≡ ok a → Q (f a o.1).1)
    → Q (then_run o f).1
then_run-inv Q (ok a, w) f q next = next a refl
then_run-inv Q (err e, w) f q next = q
then_run-inv Q (out_of_fuel, w) f q next = q

pub ok_of_map_err_run {ℓ} :
    {W E F : Type 0} {A : Type ℓ} (g : E → F) (o : Result E A × W) {a : A}
    → (map_err_run g o).0 ≡ ok a
    → o.0 ≡ ok a
ok_of_map_err_run g (ok a, w) h = cc
ok_of_map_err_run g (err e, w) h = cc
ok_of_map_err_run g (out_of_fuel, w) h = cc

pub ok-injective {ℓ} :
    {E : Type 0} {A : Type ℓ} {a b : A} → ◌≡◌ {A = Result E A} (ok a) (ok b) → a ≡ b
ok-injective h = cc
