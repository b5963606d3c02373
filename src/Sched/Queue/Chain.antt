-- ===== src/Sched/Queue/Chain.antt =====
-- What a queue of kern/sched.c stands for: the environments that its links lead through.
use sistemas_operativos.Base.{
  suc, ◌<◌, ◌≡◌, refl, ◌≢◌, ◌⊎◌, inl, inr, true, false, List, [], ◌∷◌, ◌++◌, arith, ◌==◌,
  if◌then◌else◌, Bool-cases, ==_refl, ==→eq, length, has, Distinct, erase, last_or,
}
use sistemas_operativos.Sched.State.{Ptr, null, word, Env, Queue}

abbrev pub links : (Ptr → Env) → Ptr → Ptr
links h a = (h a).next_env

-- From `p` the links lead through `xs` to NULL.
abbrev pub Chain : (Ptr → Ptr) → Ptr → List Ptr → Type 0
Chain h p [] = p ≡ null
Chain h p (x ∷ xs) = (p ≡ x) × (x ≢ null) × Chain h (h x) xs

pub record IsQueue (h : Ptr → Env) (q : Queue) (xs : List Ptr) : Type 0 where
  pub chain : Chain (links h) q.envs xs
  pub distinct : Distinct xs
  pub last : q.last_env ≡ last_or null xs
  pub count : q.num_envs ≡ length xs
  pub small : length xs < word

-- The element before `e`, or `prev` if `e` is the first.
abbrev pub pred_of : Ptr → Ptr → List Ptr → Ptr
pred_of e prev [] = prev
pred_of e prev (x ∷ xs) = if x == e then prev else pred_of e x xs

pub has-erase :
    (a e : Ptr) (xs : List Ptr)
    → Distinct xs
    → has a (erase e xs) ≡ (if a == e then false else has a xs)
has-erase a e [] d = ground arith
has-erase a e (x ∷ xs) d = ground (arith, has-erase a e xs d.1)

pub Distinct-erase : (e : Ptr) (xs : List Ptr) → Distinct xs → Distinct (erase e xs)
Distinct-erase e [] d = tt
Distinct-erase e (x ∷ xs) d = ground (arith, has-erase x e xs d.1, Distinct-erase e xs d.1)

pub length-erase :
    (e : Ptr) (xs : List Ptr) → has e xs ≡ true → suc (length (erase e xs)) ≡ length xs
length-erase e [] m = ground arith
length-erase e (x ∷ xs) m = ground (arith, length-erase e xs)

pub last_or-has : (d : Ptr) (xs : List Ptr) → (last_or d xs ≡ d) ⊎ (has (last_or d xs) xs ≡ true)
last_or-has d [] = inl refl
last_or-has d (x ∷ xs) = ground (arith, last_or-has x xs)

-- Where the list is distinct and holds `e`, the last element of what `erase` leaves.
pub last_or-erase :
    (e prev : Ptr) (xs : List Ptr)
    → Distinct xs
    → has e xs ≡ true
    → last_or prev (erase e xs)
      ≡ (if e == last_or prev xs then pred_of e prev xs else last_or prev xs)
last_or-erase e prev [] d m = ground arith
last_or-erase e prev (x ∷ []) d m = ground (arith)
last_or-erase e prev (x ∷ y ∷ xs) d m =
    ground (arith, last_or-erase e x (y ∷ xs) d.1, last_or-has y xs, ==_refl e)

pub pred_of-has :
    (e prev : Ptr) (xs : List Ptr)
    → (pred_of e prev xs ≡ prev) ⊎ (has (pred_of e prev xs) xs ≡ true)
pred_of-has e prev [] = inl refl
pred_of-has e prev (x ∷ xs) = ground (arith, pred_of-has e x xs, ==_refl x)

pub has_last : (x : Ptr) (xs : List Ptr) → has (last_or x xs) (x ∷ xs) ≡ true
has_last x xs = ground (arith, last_or-has x xs, ==_refl x)

pub ne_null :
    (h : Ptr → Ptr) (a p : Ptr) (xs : List Ptr)
    → Chain h p xs
    → has a xs ≡ true
    → (a == null) ≡ false
ne_null h a p [] c m = cc
ne_null h a p (x ∷ xs) c m = ground (arith, ne_null h a (h x) xs c.2)

module _ (h g : Ptr → Ptr) where
  -- A chain is kept by a change that leaves the links of its own elements.
  pub frame :
      (p : Ptr) (xs : List Ptr)
      → Chain h p xs
      → ((a : Ptr) → has a xs ≡ true → g a ≡ h a)
      → Chain g p xs
  frame p [] c same = c
  frame p (x ∷ xs) c same =
      (c.0, c.1, rw (same x (ground arith)) (frame (h x) xs c.2 (λ a i. same a (ground arith))))

  -- The last element linked to `e`, and `e` to NULL.
  pub snoc :
      (p e x : Ptr) (xs : List Ptr)
      → Chain h p (x ∷ xs)
      → Distinct (x ∷ xs)
      → e ≢ null
      → ((a : Ptr) → has a (x ∷ xs) ≡ true → g a ≡ (if a == last_or x xs then e else h a))
      → g e ≡ null
      → Chain g p ((x ∷ xs) ++ (e ∷ []))
  snoc p e x [] c d ne same end = (c.0, c.1, (ground (arith, same x), ne, end))
  snoc p e x (y ∷ ys) c d ne same end =
      (c.0, c.1, rw link (snoc (h x) e y ys c.2 d.1 ne (λ a i. same a (ground arith)) end))
    where
      link : g x ≡ h x
      link = ground (arith, same x, last_or-has y ys)

  -- `x` is the predecessor of `e` exactly when its link is `e`.
  head-pred_of :
      (p e x : Ptr) (xs : List Ptr)
      → Chain h p xs
      → Distinct (x ∷ xs)
      → has e xs ≡ true
      → (x == pred_of e x xs) ≡ (e == p)
  head-pred_of p e x [] c d m = cc
  head-pred_of p e x (y ∷ ys) c d m = ground (arith, pred_of-has e y ys, ==_refl x)

  -- The links of the elements other than `e`, with `e` bypassed.
  pub bypass :
      (p e prev : Ptr) (xs : List Ptr)
      → Chain h p xs
      → Distinct xs
      → has prev xs ≡ false
      → has e xs ≡ true
      → ((a : Ptr)
          → has a xs ≡ true
          → (a == e) ≡ false
          → g a ≡ (if a == pred_of e prev xs then h e else h a))
      → Chain g (if e == p then h e else p) (erase e xs)
  bypass p e prev [] c d out m same = cc
  bypass p e prev (x ∷ xs) c d out m same = elim (Bool-cases (x == e)) [
    | inl hit ↦
        rw (hit, c.0, ==→eq x e hit, ==_refl e)
          (frame (h e) xs (rw (==→eq x e hit) at c.2) (λ a i. ground (arith, same a)))
    | inr miss ↦
        let first : (e == p) ≡ false = ground arith in
        let link : g x ≡ (if e == h x then h e else h x) =
          ground (arith, same x, head-pred_of (h x) e x xs c.2 d, ==_refl x) in
        rw (miss, first)
          (
            c.0,
            c.1,
            rw link
                (bypass (h x) e x xs c.2 d.1 d.0 (ground arith) (λ a i ne. ground (arith, same a))),
          )
  ]

pub not-has-null : (h : Ptr → Ptr) (p : Ptr) (xs : List Ptr) → Chain h p xs → has null xs ≡ false
not-has-null h p [] c = refl
not-has-null h p (x ∷ xs) c = ground (arith, not-has-null h (h x) xs c.2)
