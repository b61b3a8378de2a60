-- ===== src/Vm/Quote/Simulated.antt =====
-- pydefi/vm/dag.py: the quoting program of a route computes what `Router.simulate` says.
use Prim.Native.String.{String}
use pydefi.Common.{
  ℕ, ◌+◌, ◌*◌, ◌/◌, ◌%◌, ◌≡◌, ◌≤◌, ◌<◌, refl, sym, ap, ◌∙◌, subst, true, false, Bool-cases, inl,
  inr, none, some, ltb, if◌then◌else◌, length, arith, mul_mono,
}
use pydefi.Types.{Token, max_bps}
use pydefi.Dag.Action.{RouteAction, RouteLegs, RouteActions, nil, cons, no_legs, leg}
use pydefi.Dag.Shape.{IsRoute, IsAction, AreLegs, fractions}
use pydefi.Graph.{Edge}
use pydefi.Router.Simulate.{simulate_actions, simulate_action, simulate_legs}
use pydefi.Vm.Program.{
  word_size, Operand, literal, Code, Emit, ◌>>=◌, const, add, mul, div, assert_ge, assert_le,
  invoke_assert_ge,
}
use pydefi.Vm.Machine.{Machine, Contracts, value, step}
use pydefi.Vm.Machine.Runs.{
  IsRun, IsWord, Extends-trans, value-Extends, pure-IsRun, bind-IsRun, binary-IsRun,
}
use pydefi.Vm.Hops.Quoted.{Gives, weaken, mul-IsRun, add-IsRun, div-IsRun}
use pydefi.Vm.Quote.{
  max_total_in, is_single, build_dag_quote_actions, build_quote_action, build_single, build_legs,
}

-- Along the simulation, each swap is at an amount that its edge quotes, a split gets an amount that
-- its guard admits, and the outputs of its legs add up to a word.
abbrev mutual
  pub Fits : (Edge → ℕ → Type 0) → RouteActions Edge → ℕ → Type 0
  Fits Quotes nil x = Unit
  Fits Quotes (cons a as') x = FitsAction Quotes a x × Fits Quotes as' (simulate_action a x)

  pub FitsAction : (Edge → ℕ → Type 0) → RouteAction Edge → ℕ → Type 0
  FitsAction Quotes (RouteAction.swap t e) x = Quotes e x
  FitsAction Quotes (RouteAction.split ls t) x =
      (x ≤ max_total_in) × (simulate_legs ls x < word_size) × FitsLegs Quotes ls x
  FitsAction Quotes (RouteAction.bridge b) x = Unit

  pub FitsLegs : (Edge → ℕ → Type 0) → RouteLegs Edge → ℕ → Type 0
  FitsLegs Quotes no_legs x = Unit
  FitsLegs Quotes (leg f as' ls) x = Fits Quotes as' (x * f / max_bps) × FitsLegs Quotes ls x

IsRoute-head : (a : RouteAction Edge) (xs : RouteActions Edge) → IsRoute (cons a xs) → IsAction a
IsRoute-head a nil h = h
IsRoute-head a (cons b bs) h = h.0

IsRoute-tail : (a : RouteAction Edge) (xs : RouteActions Edge) → IsRoute (cons a xs) → IsRoute xs
IsRoute-tail a nil h = tt
IsRoute-tail a (cons b bs) h = h.2

mod_add : (a b c : ℕ) → ((a + b) % word_size + c) % word_size ≡ (a + (b + c)) % word_size
mod_add a b c = omega arith

small_mod : (a n : ℕ) → a < n → a % n ≡ a
small_mod a n h = grind arith

zero_plus : (n : ℕ) → 0 + n ≡ n
zero_plus n = omega arith

-- `x` is a share of an amount that the guard admits.
scaled_small : (x f : ℕ) → x ≤ max_total_in → f ≤ max_bps → x * f % word_size ≡ x * f
scaled_small x f h l =
    let u = mul_mono x max_total_in f max_bps h l in small_mod (x * f) word_size (omega arith)

whole : (x : ℕ) → x * max_bps / max_bps ≡ x
whole x = omega arith

-- The rest of the body of the loop over the legs after each of its steps.
module _ (build_swap : Operand → Token → Edge → Emit Operand) where
  abbrev after_leg : RouteLegs Edge → Operand → Operand → Operand → Emit Operand
  after_leg ls o a leg_out = add a leg_out >>= λ accum. build_legs build_swap ls o accum

  abbrev after_div : RouteActions Edge → RouteLegs Edge → Operand → Operand → Operand → Emit Operand
  after_div xs ls o a leg_amount =
      build_dag_quote_actions build_swap xs leg_amount >>= λ out. after_leg ls o a out

  abbrev after_mul :
      ℕ → RouteActions Edge → RouteLegs Edge → Operand → Operand → Operand → Emit Operand
  after_mul f xs ls o a scaled = div scaled (literal max_bps) >>= λ b. after_div xs ls o a b

share-IsRun :
    (k : Contracts) (p : Code) (m : Machine) (o : Operand) (x f : ℕ)
    → x ≤ max_total_in
    → f ≤ max_bps
    → length m.values ≡ length p
    → value m o ≡ some x
    → IsRun k p m (mul o (literal f) p) (Gives (x * f))
unfolding value
share-IsRun k p m o x f g b l v =
    subst (λ z. IsRun k p m (mul o (literal f) p) (Gives z)) (scaled_small x f g b)
      (weaken (x * f % word_size) k p m (mul o (literal f) p)
        (mul-IsRun k p m l o (literal f) x f v refl))

module _ (k : Contracts) (build_swap : Operand → Token → Edge → Emit Operand)
    (Quotes : Edge → ℕ → Type 0)
    (swaps : (t : Token) (e : Edge) (x : ℕ) (p : Code) (m : Machine) (o : Operand)
      → Quotes e x
      → length m.values ≡ length p
      → value m o ≡ some x
      → IsRun k p m (build_swap o t e p) (Gives (e.amount_out x))) where
  assert_le-IsRun :
      (p : Code) (m : Machine) (a : Operand) (x n : ℕ) (msg : String)
      → length m.values ≡ length p
      → value m a ≡ some x
      → x ≤ n
      → IsRun k p m (assert_le a (literal n) msg p) (IsWord k 0 m)
  unfolding assert_le assert_ge step value
  assert_le-IsRun p m a x n msg l v h =
      let b : ltb n x ≡ false = ground arith in
      binary-IsRun k p m (invoke_assert_ge (literal n) a msg)
        (λ x y. if ltb x y then none else some 0) (literal n) a n x 0 l refl refl v (rw b refl)

  mutual
    unfolding build_dag_quote_actions simulate_actions value const

    pub actions-IsRun :
        (xs : RouteActions Edge) (x : ℕ) (p : Code) (m : Machine) (o : Operand)
        → IsRoute xs
        → Fits Quotes xs x
        → length m.values ≡ length p
        → value m o ≡ some x
        → IsRun k p m (build_dag_quote_actions build_swap xs o p) (Gives (simulate_actions xs x))
    actions-IsRun nil x p m o r h l v = pure-IsRun k (Gives x) p m o l v
    actions-IsRun (cons a xs) x p m o r h l v =
        bind-IsRun k (Gives (simulate_action a x))
          (Gives (simulate_actions xs (simulate_action a x))) p m
          (build_quote_action build_swap a o) (build_dag_quote_actions build_swap xs)
          (action-IsRun a x p m o (IsRoute-head a xs r) h.0 l v)
          (λ o' q n e l' v'.
            actions-IsRun xs (simulate_action a x) q n o' (IsRoute-tail a xs r) h.1 l' v')

    action-IsRun :
        (a : RouteAction Edge) (x : ℕ) (p : Code) (m : Machine) (o : Operand)
        → IsAction a
        → FitsAction Quotes a x
        → length m.values ≡ length p
        → value m o ≡ some x
        → IsRun k p m (build_quote_action build_swap a o p) (Gives (simulate_action a x))
    action-IsRun (RouteAction.swap t e) x p m o r h l v = swaps t e x p m o h l v
    action-IsRun (RouteAction.bridge b) x p m o r h l v = pure-IsRun k (Gives x) p m o l v
    action-IsRun (RouteAction.split ls t) x p m o r h l v = elim (Bool-cases (is_single ls)) [
      | inl b ↦ rw b (single-IsRun ls t x p m o b r.0 r.1 h.2 l v)
      | inr b ↦ rw b (
          bind-IsRun k (IsWord k 0 m) (Gives (simulate_legs ls x)) p m
            (assert_le o (literal max_total_in) "split: total_in overflow guard")
            (λ w. const 0 >>= λ accum. build_legs build_swap ls o accum)
            (assert_le-IsRun p m o x max_total_in _ l v h.0)
            (λ w q n e l' v'.
              subst (λ y. IsRun k q n (build_legs build_swap ls o (literal 0) q) (Gives y))
                (ap (λ y. y % word_size) (zero_plus (simulate_legs ls x))
                  ∙ small_mod (simulate_legs ls x) word_size h.1)
                (legs-IsRun ls t x 0 q n o (literal 0) (omega (arith, r.0)) r.1 h.0 h.2
                  (omega arith) l' (value-Extends m n o x e v) refl)))
    ]

    single-IsRun :
        (ls : RouteLegs Edge) (t : Token) (x : ℕ) (p : Code) (m : Machine) (o : Operand)
        → is_single ls ≡ true
        → fractions ls ≡ max_bps
        → AreLegs t ls
        → FitsLegs Quotes ls x
        → length m.values ≡ length p
        → value m o ≡ some x
        → IsRun k p m (build_single build_swap ls o p) (Gives (simulate_legs ls x))
    single-IsRun no_legs t x p m o b f r h l v = cc
    single-IsRun (leg f xs (leg g ys ls)) t x p m o b e r h l v = cc
    single-IsRun (leg f xs no_legs) t x p m o b e r h l v =
        let q : f ≡ max_bps = omega (arith, e) in
        let w : x * f / max_bps ≡ x = rw q (whole x) in
        let h' : Fits Quotes xs x = rw w at h.0 in
        let s : simulate_actions xs (x * f / max_bps) + 0 ≡ simulate_actions xs x =
          rw w (omega arith) in
        subst (λ y. IsRun k p m (build_dag_quote_actions build_swap xs o p) (Gives y)) (sym s)
          (actions-IsRun xs x p m o r.3 h' l v)

    legs-IsRun :
        (ls : RouteLegs Edge) (t : Token) (x acc : ℕ) (p : Code) (m : Machine) (o a : Operand)
        → fractions ls ≤ max_bps
        → AreLegs t ls
        → x ≤ max_total_in
        → FitsLegs Quotes ls x
        → acc < word_size
        → length m.values ≡ length p
        → value m o ≡ some x
        → value m a ≡ some acc
        → IsRun k p m
            (build_legs build_swap ls o a p)
            (Gives ((acc + simulate_legs ls x) % word_size))
    legs-IsRun no_legs t x acc p m o a f r g h s l v w =
        let z : acc ≡ (acc + 0) % word_size =
          sym (small_mod acc word_size s) ∙ ap (λ y. y % word_size) (omega arith) in
        pure-IsRun k (Gives ((acc + 0) % word_size)) p m a l (w ∙ ap some z)
    legs-IsRun (leg f xs ls) t x acc p m o a b r g h s l v w =
        let y = x * f / max_bps in
        let out = simulate_actions xs y in
        let rest = simulate_legs ls x in
        let Q = Gives ((acc + (out + rest)) % word_size) in
        bind-IsRun k (Gives (x * f)) Q p m (mul o (literal f)) (after_mul build_swap f xs ls o a)
          (share-IsRun k p m o x f g (omega arith) l v)
          λ o1 p1 m1 e1 l1 v1.
            bind-IsRun k (Gives y) Q p1 m1 (div o1 (literal max_bps))
              (after_div build_swap xs ls o a)
              (weaken y k p1 m1 (div o1 (literal max_bps) p1)
                (div-IsRun k p1 m1 l1 o1 (literal max_bps) (x * f) max_bps v1 refl))
              λ o2 p2 m2 e2 l2 v2.
                bind-IsRun k (Gives out) Q p2 m2 (build_dag_quote_actions build_swap xs o2)
                  (after_leg build_swap ls o a) (actions-IsRun xs y p2 m2 o2 r.3 h.0 l2 v2)
                  λ o3 p3 m3 e3 l3 v3.
                    let x3 = Extends-trans m m1 m3 e1 (Extends-trans m1 m2 m3 e2 e3) in
                    bind-IsRun k (Gives ((acc + out) % word_size)) Q p3 m3 (add a o3)
                      (build_legs build_swap ls o)
                      (weaken ((acc + out) % word_size) k p3 m3 (add a o3 p3)
                        (add-IsRun k p3 m3 l3 a o3 acc out (value-Extends m m3 a acc x3 w) v3))
                      λ o4 p4 m4 e4 l4 v4.
                        let x4 = Extends-trans m m3 m4 x3 e4 in
                        subst (λ z. IsRun k p4 m4 (build_legs build_swap ls o o4 p4) (Gives z))
                          (mod_add acc out rest)
                          (legs-IsRun ls t x ((acc + out) % word_size) p4 m4 o o4 (omega arith) r.4
                            g h.1 (omega arith) l4 (value-Extends m m4 o x x4 v) v4)
