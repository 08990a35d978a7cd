-- ===== src/Index/Scanner/Visits.antt =====
-- The walk visits every file below a root.
use openmk.Prelude.{
  ℕ, zero, suc, ◌+◌, ◌≤◌, ◌≡◌, refl, subst, Bool, true, false, List, [], ◌∷◌, ◌++◌, ok, arith,
}
use openmk.Index.Scanner.{
  ReadDir, entries, permission_denied, enter, open_dir, walk_stack, walk_root,
}

-- The sum of a weight over a list.
abbrev pub total {ℓ} : {A : Type ℓ} → (A → ℕ) → List A → ℕ
total f [] = 0
total f (x ∷ xs) = f x + total f xs

total-append {ℓ} :
    {A : Type ℓ} (f : A → ℕ) (xs ys : List A) → total f (xs ++ ys) ≡ total f xs + total f ys
total-append f [] ys = omega arith
total-append f (x ∷ xs) ys = omega (arith, total-append f xs ys)

mutual
  -- A directory with `n` directories in it, itself included, and the files `fs`, at any depth; those of
  -- a directory that may not be read do not count.
  pub data Below {ℓ} {PathBuf : Type 0} {Error : Type ℓ}
      (read_dir : PathBuf → ReadDir PathBuf Error) : PathBuf → ℕ → List PathBuf → Type ℓ where
    denied : (p : PathBuf) → read_dir p ≡ permission_denied → Below read_dir p 1 []
    listed :
        (p : PathBuf) (es : List (PathBuf × Bool)) (n : ℕ) (fs : List PathBuf)
        → read_dir p ≡ entries es
        → BelowAll read_dir es n fs
        → Below read_dir p (suc n) fs

  -- The same for the entries of a directory.
  pub data BelowAll {ℓ} {PathBuf : Type 0} {Error : Type ℓ}
      (read_dir : PathBuf → ReadDir PathBuf Error)
      : List (PathBuf × Bool) → ℕ → List PathBuf → Type ℓ where
    nothing : BelowAll read_dir [] 0 []
    file :
        (p : PathBuf) (es : List (PathBuf × Bool)) (n : ℕ) (fs : List PathBuf)
        → BelowAll read_dir es n fs
        → BelowAll read_dir ((p, false) ∷ es) n (p ∷ fs)
    directory :
        (p : PathBuf) (es : List (PathBuf × Bool)) (m n : ℕ) (fs gs : List PathBuf)
        → Below read_dir p m fs
        → BelowAll read_dir es n gs
        → BelowAll read_dir ((p, true) ∷ es) (m + n) (fs ++ gs)

-- The same for the directories on the stack.
data StackBelow {ℓ} {PathBuf : Type 0} {Error : Type ℓ} (read_dir : PathBuf → ReadDir PathBuf Error)
    : List PathBuf → ℕ → List PathBuf → Type ℓ where
  empty : StackBelow read_dir [] 0 []
  push :
      (p : PathBuf) (stack : List PathBuf) (m n : ℕ) (fs gs : List PathBuf)
      → Below read_dir p m fs
      → StackBelow read_dir stack n gs
      → StackBelow read_dir (p ∷ stack) (m + n) (fs ++ gs)

module _ {ℓ κ} {PathBuf : Type 0} {Error : Type ℓ} {State : Type κ}
    (read_dir : PathBuf → ReadDir PathBuf Error) (visit : PathBuf → State → State)
    (weight : PathBuf → ℕ) (measure : State → ℕ)
    (weighs : (p : PathBuf) (s : State) → measure (visit p s) ≡ measure s + weight p)
    (P : State → Type 0) (keeps : (p : PathBuf) (s : State) → P s → P (visit p s)) where
  -- The stack and the state after a list of entries, of weights `k` directories and `hs` files to come.
  record Enters (n : ℕ) (w : ℕ) (r : List PathBuf × State) : Type (ℓ ⊔ κ) where
    files : List PathBuf
    below : StackBelow read_dir r.0 n files
    weight_left : measure r.1 + total weight files ≡ w
    holds : P r.1

  enter-Enters :
      (es : List (PathBuf × Bool)) (stack : List PathBuf) (n m : ℕ) (fs gs : List PathBuf)
      (s : State)
      → BelowAll read_dir es n fs
      → StackBelow read_dir stack m gs
      → P s
      → Enters
          (n + m)
          (measure s + total weight fs + total weight gs)
          (enter read_dir visit es stack s)
  unfolding enter
  enter-Enters [] stack n m fs gs s nothing h q = record {
    files = gs;
    below = subst (λ k. StackBelow read_dir stack k gs) {x = m} {y = 0 + m} (omega arith) h;
    weight_left = omega arith;
    holds = q;
  }
  enter-Enters _ stack _ m _ gs s (file p es n fs b) h q =
      let r = enter-Enters es stack n m fs gs (visit p s) b h (keeps p s q) in
      record {
        files = r.files;
        below = r.below;
        weight_left = omega (arith, r.weight_left, weighs p s);
        holds = r.holds;
      }
  enter-Enters _ stack _ m _ gs s (directory p es k n fs hs d b) h q =
      let r =
        enter-Enters es (p ∷ stack) n (k + m) hs (fs ++ gs) s b (push p stack k m fs gs d h) q in
      record {
        files = r.files;
        below =
            subst (λ i. StackBelow read_dir (enter read_dir visit es (p ∷ stack) s).0 i r.files)
              {x = n + (k + m)} {y = k + n + m} (omega arith) r.below;
        weight_left =
            omega (arith, r.weight_left, total-append weight fs gs, total-append weight fs hs);
        holds = r.holds;
      }

  Below-pos : (p : PathBuf) (n : ℕ) (fs : List PathBuf) → Below read_dir p n fs → 1 ≤ n
  Below-pos p _ _ (denied _ e) = omega arith
  Below-pos p _ _ (listed _ es n fs e b) = omega arith

  walk_stack-measure :
      (fuel : ℕ) (stack : List PathBuf) (n : ℕ) (gs : List PathBuf) (s : State)
      → StackBelow read_dir stack n gs
      → n ≤ fuel
      → P s
      → (s' : State) × (walk_stack read_dir visit fuel stack s ≡ ok s')
        × (measure s' ≡ measure s + total weight gs)
        × P s'
  unfolding walk_stack open_dir
  walk_stack-measure fuel _ _ _ s empty h q = (s, refl, omega arith, q)
  walk_stack-measure zero _ _ _ s (push p stack m n fs gs b rest) h q =
      absurd (omega (arith, Below-pos p m fs b))
  walk_stack-measure (suc fuel) _ _ _ s (push p stack m n fs gs (denied _ e) rest) h q =
      let (s', f, w, q') = walk_stack-measure fuel stack n gs s rest (omega arith) q in
      (s', rw e f, w, q')
  walk_stack-measure (suc fuel) _ _ _ s (push p stack m n fs gs (listed _ es k _ e b) rest) h q =
      let r = enter-Enters es stack k n fs gs s b rest q in
      let (s', f, w, q') =
        walk_stack-measure fuel (enter read_dir visit es stack s).0 (k + n) r.files
          (enter read_dir visit es stack s).1 r.below (omega arith) r.holds in
      (s', rw e f, omega (arith, w, r.weight_left, total-append weight fs gs), q')

  -- The walk below a root ends, without an error or a lack of fuel, if there are no more directories
  -- below the root, itself included, than fuel. If a visit adds the weight of its file to a measure of
  -- the visitor's state, the walk adds the weights of the files below the root, each as many times as
  -- it is there, whatever the order of the entries is; and what every visit keeps, the walk keeps. Condition: every directory can be listed or is
  -- refused for lack of permission.
  pub walk_root-measure :
      (exists : PathBuf → Bool) (fuel : ℕ) (root : PathBuf) (n : ℕ) (fs : List PathBuf) (s : State)
      → exists root ≡ true
      → Below read_dir root n fs
      → n ≤ fuel
      → P s
      → (s' : State) × (walk_root read_dir visit exists fuel root s ≡ ok s')
        × (measure s' ≡ measure s + total weight fs)
        × P s'
  unfolding walk_root
  walk_root-measure exists fuel root n fs s there b h q =
      let (s', f, w, q') =
        walk_stack-measure fuel (root ∷ []) (n + 0) (fs ++ []) s (push root [] n 0 fs [] b empty)
          (omega arith) q in
      (s', rw there f, omega (arith, w, total-append weight fs []), q')
