-- ===== src/Effect/Hoare.antt =====
-- What runs keep of the state and ensure of their results, and the rules that combine it.
use pfnc.Prelude.{◌≡◌, refl, subst, Bool, true, false, List, [], ◌∷◌}
use pfnc.Effect.{
  Result, ok, err, out_of_fuel, M, total, pure, fail, exhausted, for_each, then_run, ◌>>=◌, map_err,
  map_err_run, ok-injective, err-ne-ok,
}

abbrev pub Any : {A : Type 0} → A → Type 0
Any _ = Unit {0}

-- What is asked of one outcome, and of a call from any state with `P`.
record Fine {W E A : Type 0} (P : W → Type 0) (Q : A → Type 0) (o : Result E A × W) : Type 0 where
  fine_state : P o.1
  fine_result : (a : A) → o.0 ≡ ok a → Q a

pub record Leaves {W E A : Type 0} (P : W → Type 0) (Q : A → Type 0) (m : M W E A) : Type 0 where
  pub kept : (w : W) → P w → P (m w).1
  pub returned : (w : W) → P w → (a : A) → (m w).0 ≡ ok a → Q a

leaves :
    {W E A : Type 0} {P : W → Type 0} {Q : A → Type 0} {m : M W E A}
    → ((w : W) → P w → Fine P Q (m w))
    → Leaves P Q m
leaves fine = record {
  kept = λ w p. (fine w p).fine_state;
  returned = λ w p. (fine w p).fine_result;
}

Leaves-Fine :
    {W E A : Type 0} {P : W → Type 0} {Q : A → Type 0} {m : M W E A}
    → Leaves P Q m
    → (w : W) → P w
    → Fine P Q (m w)
Leaves-Fine l w p = record { fine_state = l.kept w p; fine_result = l.returned w p }

stopped :
    {W E A : Type 0} {P : W → Type 0} {Q : A → Type 0} {e : E} {w : W}
    → P w
    → Fine P Q (fail {A = A} e w)
stopped p = record { fine_state = p; fine_result = λ b h. absurd (err-ne-ok h) }

starved :
    {W E A : Type 0} {P : W → Type 0} {Q : A → Type 0} {w : W}
    → P w
    → Fine P Q (exhausted {E = E} {A = A} w)
starved p = record { fine_state = p; fine_result = λ b h. cc }

module _ {W E : Type 0} {P : W → Type 0} where
  pub Leaves-pure : {A : Type 0} {Q : A → Type 0} {a : A} → Q a → Leaves {E = E} P Q (pure a)
  Leaves-pure {Q = Q} q = record {
    kept = λ w p. p;
    returned = λ w p b h. subst Q (ok-injective h) q;
  }

  pub Leaves-fail : {A : Type 0} {Q : A → Type 0} {e : E} → Leaves P Q (fail {A = A} e)
  Leaves-fail = leaves λ w p. stopped p

  pub Leaves-exhausted : {A : Type 0} {Q : A → Type 0} → Leaves P Q (exhausted {E = E} {A = A})
  Leaves-exhausted = leaves λ w p. starved p

  Fine-then_run :
      {A B : Type 0} {Q : A → Type 0} {R : B → Type 0} (o : Result E A × W) (f : A → M W E B)
      → Fine P Q o
      → ((a : A) → Q a → Leaves P R (f a))
      → Fine P R (then_run o f)
  Fine-then_run (ok a, w) f o next = Leaves-Fine (next a (o.fine_result a refl)) w o.fine_state
  Fine-then_run (err e, w) f o next = stopped o.fine_state
  Fine-then_run (out_of_fuel, w) f o next = starved o.fine_state

  pub Leaves-bind :
      {A B : Type 0} {Q : A → Type 0} {R : B → Type 0} {m : M W E A} {f : A → M W E B}
      → Leaves P Q m
      → ((a : A) → Q a → Leaves P R (f a))
      → Leaves P R (m >>= f)
  Leaves-bind {m = m} {f = f} first next =
      leaves λ w p. Fine-then_run (m w) f (Leaves-Fine first w p) next

  pub Leaves-for_each :
      {A B : Type 0} {Q : B → Type 0} (body : A → B → M W E B) (xs : List A) {b : B}
      → ((x : A) (b : B) → Q b → Leaves P Q (body x b))
      → Q b
      → Leaves P Q (for_each body xs b)
  unfolding for_each
  Leaves-for_each body [] turn q = Leaves-pure q
  Leaves-for_each body (x ∷ xs) {b = b} turn q =
      Leaves-bind (turn x b q) (λ b' q'. Leaves-for_each body xs turn q')

  pub Leaves-elim :
      {A : Type 0} {Q : A → Type 0} (b : Bool) {m k : M W E A}
      → Leaves P Q m
      → Leaves P Q k
      → Leaves P Q (elim b [ true ↦ m | false ↦ k ])
  Leaves-elim true left right = left
  Leaves-elim false left right = right

  Fine-map_err_run :
      {F A : Type 0} {Q : A → Type 0} (g : E → F) (o : Result E A × W)
      → Fine P Q o
      → Fine P Q (map_err_run g o)
  Fine-map_err_run g (ok a, w) o = record {
    fine_state = o.fine_state;
    fine_result = λ b h. o.fine_result b (cc);
  }
  Fine-map_err_run g (err e, w) o = stopped o.fine_state
  Fine-map_err_run g (out_of_fuel, w) o = starved o.fine_state

  pub Leaves-map_err :
      {F A : Type 0} {Q : A → Type 0} (g : E → F) {m : M W E A}
      → Leaves P Q m
      → Leaves P Q (map_err g m)
  Leaves-map_err g {m = m} left = leaves λ w p. Fine-map_err_run g (m w) (Leaves-Fine left w p)

-- What a call keeps of the state is all that is asked of it.
pub Leaves-Any :
    {W E A : Type 0} {P : W → Type 0} (m : M W E A) → ((w : W) → P w → P (m w).1) → Leaves P Any m
Leaves-Any m keeps = record { kept = keeps; returned = λ _ _ _ _. tt }

pub Leaves-total :
    {W E A : Type 0} {P : W → Type 0} (Q : A → Type 0) (m : W → A × W)
    → ((w : W) → P w → P (m w).1)
    → ((w : W) → P w → Q (m w).0)
    → Leaves {E = E} P Q (total m)
Leaves-total Q m keeps gives = record {
  kept = keeps;
  returned = λ w p b h. subst Q (ok-injective h) (gives w p);
}
