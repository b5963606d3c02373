-- ===== src/Malloc/Regions/Tiles.antt =====
-- A block of malloc.c as the list of its regions: they lie end to end, in the order of the links.
use sistemas_operativos.Base.{
  ℕ, ◌+◌, ◌%◌, ◌≤◌, ◌<◌, ◌≡◌, refl, ap, ◌≢◌, inl, inr, true, false, List, [], ◌∷◌, arith, ◌==◌,
  if◌then◌else◌, ==_refl, Bool-cases, ==→eq, has, erase, Distinct,
}
use sistemas_operativos.Malloc.State.{Ptr, null, size_mod, region_header, Region, Heap}
use sistemas_operativos.Malloc.Regions.{split_region, coalesce_region_with_its_next}

-- The first address of a list.
abbrev pub head_or : Ptr → List Ptr → Ptr
head_or d [] = d
head_or d (x ∷ xs) = x

-- The regions `xs` fill the addresses from `p` to `stop`, each linked to the next.
abbrev pub Tiles : (Ptr → Region) → (p stop : Ptr) → List Ptr → Type 0
Tiles g p stop [] = p ≡ stop
Tiles g p stop (x ∷ xs) =
    (p ≡ x) × ((g x).next ≡ head_or null xs) × Tiles g (x + region_header + (g x).size) stop xs

-- `y` put behind `x`.
abbrev pub insert_after : (x y : Ptr) → List Ptr → List Ptr
insert_after x y [] = []
insert_after x y (z ∷ zs) = if z == x then z ∷ y ∷ zs else z ∷ insert_after x y zs

-- The element behind `x`.
abbrev pub next_of : Ptr → List Ptr → Ptr
next_of x [] = null
next_of x (z ∷ zs) = if z == x then head_or null zs else next_of x zs

module _ (g : Ptr → Region) where
  pub le-stop : (p stop : ℕ) (xs : List Ptr) → Tiles g p stop xs → p ≤ stop
  le-stop p stop [] t = omega arith
  le-stop p stop (x ∷ xs) t = omega (arith, le-stop (x + region_header + (g x).size) stop xs t.2)

  -- Every region lies within the addresses of its block.
  pub within :
      (a p stop : ℕ) (xs : List Ptr)
      → Tiles g p stop xs
      → has a xs ≡ true
      → (p ≤ a) × (a + region_header + (g a).size ≤ stop)
  within a p stop [] t m = cc
  within a p stop (x ∷ xs) t m = elim (Bool-cases (a == x)) [
    | inl same ↦
        rw (==→eq a x same) (omega arith, le-stop (x + region_header + (g x).size) stop xs t.2)
    | inr other ↦
        let rest = within a (x + region_header + (g x).size) stop xs t.2 (ground arith) in
        (omega (arith, rest.0), rest.1)
  ]

  pub frame :
      (g' : Ptr → Region) (p stop : ℕ) (xs : List Ptr)
      → Tiles g p stop xs
      → ((a : Ptr) → has a xs ≡ true → ((g' a).next ≡ (g a).next) × ((g' a).size ≡ (g a).size))
      → Tiles g' p stop xs
  frame g' p stop [] t same = t
  frame g' p stop (x ∷ xs) t same =
      let here = same x (ground (arith, ==_refl x)) in
      (
        t.0,
        ground (arith, here),
        rw here.1
            (frame g' (x + region_header + (g x).size) stop xs t.2 (λ a m. same a (ground arith))),
      )

  pub next-Tiles :
      (x p stop : ℕ) (xs : List Ptr)
      → Tiles g p stop xs
      → has x xs ≡ true
      → (g x).next ≡ next_of x xs
  next-Tiles x p stop [] t m = cc
  next-Tiles x p stop (z ∷ zs) t m =
      ground (arith, next-Tiles x (z + region_header + (g z).size) stop zs t.2)

  -- No region starts inside another.
  pub not-has-inside :
      (a x p stop : ℕ) (xs : List Ptr)
      → Tiles g p stop xs
      → has x xs ≡ true
      → x < a
      → a < x + region_header + (g x).size
      → has a xs ≡ false
  not-has-inside a x p stop [] t m low high = cc
  not-has-inside a x p stop (z ∷ zs) t m low high = elim (Bool-cases (has a zs)) [
    | inl k ↦
        let w = within a (z + region_header + (g z).size) stop zs t.2 k in
        ground (
          arith,
          w,
          within x (z + region_header + (g z).size) stop zs t.2,
          not-has-inside a x (z + region_header + (g z).size) stop zs t.2,
        )
    | inr k ↦ ground (arith, within x (z + region_header + (g z).size) stop zs t.2)
  ]

  pub Tiles-Distinct : (p stop : ℕ) (xs : List Ptr) → Tiles g p stop xs → Distinct xs
  Tiles-Distinct p stop [] t = tt
  Tiles-Distinct p stop (z ∷ zs) t =
      let rest = Tiles-Distinct (z + region_header + (g z).size) stop zs t.2 in
      (ground (arith, within z (z + region_header + (g z).size) stop zs t.2), rest)

  -- The region behind `x` starts where `x` ends.
  pub next_of-end :
      (x p stop : ℕ) (xs : List Ptr)
      → Tiles g p stop xs
      → has x xs ≡ true
      → next_of x xs ≢ null
      → (next_of x xs ≡ x + region_header + (g x).size) × (has (next_of x xs) xs ≡ true)
  next_of-end x p stop [] t m ne = cc
  next_of-end x p stop (z ∷ []) t m ne = absurd (ground arith)
  next_of-end x p stop (z ∷ w ∷ ws) t m ne =
      ground
        (arith, next_of-end x (z + region_header + (g z).size) stop (w ∷ ws) t.2, ==_refl w, t.2.0)

-- What `split_region` does to the headers.
pub record IsSplit (g g' : Ptr → Region) (x size : ℕ) : Type 0 where
  pub first : ((g' x).next ≡ x + region_header + size) × ((g' x).size ≡ size)
  pub second :
      ((g' (x + region_header + size)).next ≡ (g x).next)
      × ((g' (x + region_header + size)).size + region_header + size ≡ (g x).size)
  pub others : (a : Ptr) → a ≢ x → a ≢ x + region_header + size → g' a ≡ g a

pub split_region-IsSplit :
    (x size : ℕ) (h : Heap)
    → x + region_header + (h.regions x).size < size_mod
    → size + region_header ≤ (h.regions x).size
    → IsSplit h.regions (split_region x size h).regions x size
unfolding split_region
split_region-IsSplit x size h small room =
    let at : (x + region_header + size) % size_mod ≡ x + region_header + size = omega arith in
    let apart : (x == x + region_header + size) ≡ false = ground arith in
    let apart' : (x + region_header + size == x) ≡ false = ground arith in
    rw at (record {
      first = (rw (==_refl x) refl, rw (==_refl x) refl);
      second = (
        ground (arith, ==_refl (x + region_header + size)),
        ground (arith, ==_refl (x + region_header + size)),
      );
      others = λ a m n. ground arith;
    })

head_or-insert_after :
    (x y : Ptr) (xs : List Ptr) → head_or null (insert_after x y xs) ≡ head_or null xs
head_or-insert_after x y [] = refl
head_or-insert_after x y (z ∷ zs) = ground arith

Tiles-IsSplit :
    (g g' : Ptr → Region) (x size p stop : ℕ) (xs : List Ptr)
    → IsSplit g g' x size
    → Tiles g p stop xs
    → has x xs ≡ true
    → size + region_header ≤ (g x).size
    → Tiles g' p stop (insert_after x (x + region_header + size) xs)
Tiles-IsSplit g g' x size p stop [] s t m room = cc
Tiles-IsSplit g g' x size p stop (z ∷ zs) s t m room = elim (Bool-cases (z == x)) [
  | inl hit ↦
      let e = ==→eq z x hit in
      let rest = frame g g' (z + region_header + (g z).size) stop zs t.2 (λ a k.
        let w = within g a (z + region_header + (g z).size) stop zs t.2 k in
        let same = s.others a (ground arith) (ground arith) in
        (ap (λ (r : Region). r.next) same, ap (λ (r : Region). r.size) same)) in
      let edge : x + region_header + size + region_header + (g' (x + region_header + size)).size
          ≡ z + region_header + (g z).size =
        ground (arith, s.second) in
      rw hit (
        t.0,
        ground (arith, s.first),
        (ground (arith, s.first), ground (arith, s.second, t.1), rw edge rest),
      )
  | inr miss ↦
      let k : has x zs ≡ true = ground arith in
      let w = within g x (z + region_header + (g z).size) stop zs t.2 k in
      let same = s.others z (ground arith) (omega arith) in
      rw miss (
        t.0,
        ground (arith, same, t.1, head_or-insert_after x (x + region_header + size) zs),
        rw same (Tiles-IsSplit g g' x size (z + region_header + (g z).size) stop zs s t.2 k room),
      )
]

-- What `coalesce_region_with_its_next` does to the links and sizes.
record IsJoin (g g' : Ptr → Region) (x y : Ptr) : Type 0 where
  first : ((g' x).next ≡ (g y).next) × ((g' x).size ≡ (g x).size + region_header + (g y).size)
  others : (a : Ptr) → a ≢ x → ((g' a).next ≡ (g a).next) × ((g' a).size ≡ (g a).size)

coalesce-IsJoin :
    (x : ℕ) (h : Heap)
    → let y = (h.regions x).next in
      (h.regions x).size + region_header + (h.regions y).size < size_mod
      → IsJoin h.regions (coalesce_region_with_its_next x h).regions x y
unfolding coalesce_region_with_its_next
coalesce-IsJoin x h small = record {
  first = (ground (arith, ==_refl x), ground (arith, ==_refl x));
  others = λ a n. (ground arith, ground arith);
}

pub next_of-has :
    (x z : Ptr) (zs : List Ptr) → next_of x (z ∷ zs) ≢ null → has (next_of x (z ∷ zs)) zs ≡ true
next_of-has x z [] ne = ground arith
next_of-has x z (w ∷ ws) ne = ground (arith, next_of-has x w ws, ==_refl w)

Tiles-IsJoin :
    (g g' : Ptr → Region) (x y p stop : ℕ) (xs : List Ptr)
    → IsJoin g g' x y
    → Tiles g p stop xs
    → has x xs ≡ true
    → next_of x xs ≡ y
    → y ≢ null
    → Tiles g' p stop (erase y xs)
Tiles-IsJoin g g' x y p stop [] s t m e ne = cc
Tiles-IsJoin g g' x y p stop (z ∷ []) s t m e ne = absurd (ground arith)
Tiles-IsJoin g g' x y p stop (z ∷ w ∷ ws) s t m e ne = elim (Bool-cases (z == x)) [
  | inl hit ↦
      let ez = ==→eq z x hit in
      let ey : y ≡ w = ground arith in
      let rest = frame g g' (w + region_header + (g w).size) stop ws t.2.2 (λ a k.
        let b = within g a (w + region_header + (g w).size) stop ws t.2.2 k in
        s.others a (omega (arith, t.2.0))) in
      let edge : z + region_header + (g' z).size ≡ w + region_header + (g w).size =
        ground (arith, s.first, t.2.0) in
      let far : (z == y) ≡ false = ground (arith, t.2.0) in
      rw (far, ey, ==_refl w) (t.0, ground (arith, s.first, t.2.1), rw edge rest)
  | inr miss ↦
      let k : has x (w ∷ ws) ≡ true = ground arith in
      let e' : next_of x (w ∷ ws) ≡ y = ground arith in
      let later : has y ws ≡ true = rw e' at (next_of-has x w ws (rw e' ne)) in
      let b = within g y (w + region_header + (g w).size) stop ws t.2.2 later in
      let far : (z == y) ≡ false = ground (arith, t.2.0) in
      let far' : (w == y) ≡ false = ground arith in
      let same = s.others z (ground arith) in
      rw far (
        t.0,
        rw far' (ground (arith, same, t.1)),
        rw same.1
            (Tiles-IsJoin g g' x y (z + region_header + (g z).size) stop (w ∷ ws) s t.2 k e' ne),
      )
]

module _ (x p stop : ℕ) (xs : List Ptr) (h : Heap) (t : Tiles h.regions p stop xs)
    (m : has x xs ≡ true) (small : stop < size_mod) where
  -- `split_region` cuts a region of a block in two: the block is still filled from end to end, with
  -- the new region right behind the old one.
  pub split_region-Tiles :
      (size : ℕ)
      → size + region_header ≤ (h.regions x).size
      → Tiles (split_region x size h).regions p stop (insert_after x (x + region_header + size) xs)
  split_region-Tiles size room =
      Tiles-IsSplit h.regions _ x size p stop xs
        (split_region-IsSplit x size h (omega (arith, within h.regions x p stop xs t m)) room) t m
        room

  -- `coalesce_region_with_its_next` joins a region with the one behind it: the block is still
  -- filled from end to end, without the latter.
  pub coalesce-Tiles :
      next_of x xs ≢ null
      → Tiles (coalesce_region_with_its_next x h).regions p stop (erase (next_of x xs) xs)
  coalesce-Tiles ne =
      let e = next-Tiles h.regions x p stop xs t m in
      let b = next_of-end h.regions x p stop xs t m ne in
      let w = within h.regions (next_of x xs) p stop xs t b.1 in
      Tiles-IsJoin h.regions _ x (next_of x xs) p stop xs
        (rw e at (coalesce-IsJoin x h (rw e (omega (arith, b.0, w))))) t m refl ne
