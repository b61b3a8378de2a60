-- ===== src/Vm/Machine/Runs.antt =====
-- pydefi/vm/context.py: what the emitted instructions compute, method by method.
use pydefi.Common.{
  ℕ, zero, suc, ◌≡◌, refl, sym, ap, ◌∙◌, Option, none, some, List, [], ◌∷◌, ◌++◌, get_elem?, length,
  length-append, Result, ok, err, Exception, arith,
}
use pydefi.Vm.Program.{Operand, literal, variable, Instruction, Code, Emit, ◌>>=◌, emit}
use pydefi.Vm.Machine.{Machine, Contracts, value, step, execute, binary, unary}

-- The machine has run on: its values are those of before and others.
abbrev pub Extends : Machine → Machine → Type 0
Extends m n = (vs : List ℕ) × (n.values ≡ m.values ++ vs)

-- The emission appends code that runs on from `m`, and the value and the machine are as `Post` says.
abbrev pub IsRun :
    {A : Type 0}
    → Contracts
    → Code
    → Machine
    → Result Exception (A × Code)
    → (A → Machine → Type 0)
    → Type 0
IsRun k p m (err e) Post = ⊥
IsRun k p m (ok (a, q)) Post =
    (c : Code) × (n : Machine) × (q ≡ p ++ c)
    × (execute k c m ≡ some n)
    × Extends m n
    × (length n.values ≡ length q)
    × Post a n

append_assoc : {A : Type 0} (xs ys zs : List A) → (xs ++ ys) ++ zs ≡ xs ++ (ys ++ zs)
append_assoc [] ys zs = refl
append_assoc (x ∷ xs) ys zs = ap (◌∷◌ x) (append_assoc xs ys zs)

append_nil : {A : Type 0} (xs : List A) → xs ++ [] ≡ xs
append_nil [] = refl
append_nil (x ∷ xs) = ap (◌∷◌ x) (append_nil xs)

pub Extends-trans : (l m n : Machine) → Extends l m → Extends m n → Extends l n
Extends-trans l m n (vs, e) (ws, f) =
    (vs ++ ws, f ∙ ap (λ us. us ++ ws) e ∙ append_assoc l.values vs ws)

get_elem-front :
    (xs ys : List ℕ) (i x : ℕ) → get_elem? xs i ≡ some x → get_elem? (xs ++ ys) i ≡ some x
get_elem-front [] ys i x h = cc
get_elem-front (z ∷ xs) ys zero x h = h
get_elem-front (z ∷ xs) ys (suc i) x h = get_elem-front xs ys i x h

get_elem-end : (xs : List ℕ) (x : ℕ) → get_elem? (xs ++ x ∷ []) (length xs) ≡ some x
get_elem-end [] x = refl
get_elem-end (y ∷ xs) x = get_elem-end xs x

-- What an operand was, it stays.
pub value-Extends :
    (m n : Machine) (o : Operand) (x : ℕ) → Extends m n → value m o ≡ some x → value n o ≡ some x
unfolding value
value-Extends m n (literal y) x e h = h
value-Extends m n (variable i) x (vs, e) h =
    ap (λ us. get_elem? us i) e ∙ get_elem-front m.values vs i x h

execute-append :
    (k : Contracts) (c d : Code) (m n : Machine)
    → execute k c m ≡ some n
    → execute k (c ++ d) m ≡ execute k d n
unfolding execute
execute-append k [] d m n h = let e : m ≡ n = cc in ap (execute k d) e
execute-append k (i ∷ c) d m n h = go (λ l. execute-append k c d l n) (step k i m) h
  where
    go :
        ((l : Machine) → execute k c l ≡ some n → execute k (c ++ d) l ≡ execute k d n)
        → (o : Option Machine) → elim o [ none ↦ none | some l ↦ execute k c l ] ≡ some n
        → elim o [ none ↦ none | some l ↦ execute k (c ++ d) l ] ≡ execute k d n
    go ih none e = cc
    go ih (some l) e = ih l e

module _ (k : Contracts) where
  pub pure-IsRun :
      {A : Type 0} (Post : A → Machine → Type 0) (p : Code) (m : Machine) (a : A)
      → length m.values ≡ length p
      → Post a m
      → IsRun k p m (ok (a, p)) Post
  unfolding execute
  pure-IsRun Post p m a l h =
      ([], m, sym (append_nil p), refl, ([], sym (append_nil m.values)), l, h)

  -- One emission after the other.
  pub bind-IsRun :
      {A B : Type 0} (P : A → Machine → Type 0) (Q : B → Machine → Type 0) (p : Code) (m : Machine)
      (f : Emit A) (g : A → Emit B)
      → IsRun k p m (f p) P
      → ((a : A) (q : Code) (n : Machine)
          → Extends m n
          → length n.values ≡ length q
          → P a n
          → IsRun k q n (g a q) Q)
      → IsRun k p m ((f >>= g) p) Q
  bind-IsRun {A = A} {B = B} P Q p m f g h i = first (f p) h
    where
      second :
          (c q : Code) (n : Machine) (r : Result Exception (B × Code))
          → q ≡ p ++ c
          → execute k c m ≡ some n
          → Extends m n
          → IsRun k q n r Q
          → IsRun k p m r Q
      second c q n (err e) s x j z = z
      second c q n (ok (b, w)) s x j (d, l, y, u, v, t, w') = (
        c ++ d,
        l,
        y ∙ ap (λ v. v ++ d) s ∙ append_assoc p c d,
        execute-append k c d m n x ∙ u,
        Extends-trans m n l j v,
        t,
        w',
      )

      first :
          (r : Result Exception (A × Code))
          → IsRun k p m r P
          → IsRun k p m (elim r [ ok r ↦ g r.0 r.1 | err e ↦ err e ]) Q
      first (err e) j = elim j [ ]
      first (ok (a, q)) (c, n, s, x, j, l, t) = second c q n (g a q) s x j (i a q n j l t)

  -- An instruction that pushes a word.
  pub emit-IsRun :
      (Post : Operand → Machine → Type 0) (p : Code) (m n : Machine) (i : Instruction) (x : ℕ)
      → length m.values ≡ length p
      → step k i m ≡ some n
      → n.values ≡ m.values ++ x ∷ []
      → (value n (variable (length p)) ≡ some x → Post (variable (length p)) n)
      → IsRun k p m (emit i p) Post
  unfolding execute value
  emit-IsRun Post p m n i x l s e h =
      let a : length n.values ≡ suc (length p) =
        ap length e ∙ length-append m.values (x ∷ []) ∙ omega (arith, l) in
      let b : get_elem? n.values (length p) ≡ some x =
        ap (λ us. get_elem? us (length p)) e
        ∙ ap (get_elem? (m.values ++ x ∷ [])) (sym l)
        ∙ get_elem-end m.values x in
      (
        i ∷ [],
        n,
        refl,
        ap (λ o. elim o [ none ↦ none | some l ↦ some l ]) s,
        (x ∷ [], e),
        a ∙ sym (length-append p (i ∷ []) ∙ omega arith),
        h b,
      )

  -- The operand is the word, and the last call's answer is still there.
  abbrev pub IsWord : ℕ → Machine → Operand → Machine → Type 0
  IsWord x m o n = (value n o ≡ some x) × (n.returned ≡ m.returned)

  pushed : ℕ → Machine → Machine
  pushed x m = record m { values = m.values ++ x ∷ [] }

  pub binary-IsRun :
      (p : Code) (m : Machine) (i : Instruction) (f : ℕ → ℕ → Option ℕ) (a b : Operand) (x y z : ℕ)
      → length m.values ≡ length p
      → step k i m ≡ binary f m a b
      → value m a ≡ some x
      → value m b ≡ some y
      → f x y ≡ some z
      → IsRun k p m (emit i p) (IsWord z m)
  unfolding pushed
  binary-IsRun p m i f a b x y z l s u v w =
      emit-IsRun (IsWord z m) p m (pushed z m) i z l (s ∙ rw (u, v, w) refl) refl (λ e. (e, refl))

  pub unary-IsRun :
      (p : Code) (m : Machine) (i : Instruction) (f : ℕ → Option ℕ) (a : Operand) (x z : ℕ)
      → length m.values ≡ length p
      → step k i m ≡ unary f m a
      → value m a ≡ some x
      → f x ≡ some z
      → IsRun k p m (emit i p) (IsWord z m)
  unfolding pushed
  unary-IsRun p m i f a x z l s u w =
      emit-IsRun (IsWord z m) p m (pushed z m) i z l (s ∙ rw (u, w) refl) refl (λ e. (e, refl))
