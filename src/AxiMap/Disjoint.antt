-- ===== src/AxiMap/Disjoint.antt =====
-- What a passed check of the address map says about every two windows.
use corejack.Prelude.{
  Bool, true, false, List, [], ◌∷◌, some, ◌≡◌, ◌≢◌, ◌⊎◌, inl, inr, refl, sym, ap, ◌∙◌, arith,
  Option-cases, if◌then◌else◌, All,
}
use mathlib.Core.Path.{subst}
use corejack.Number.{ℤ, pos}
use corejack.Number.Order.{◌+ℤ◌, ◌≤ℤ◌, ◌<ℤ◌, leb_ℤ, +ℤ-positive}
use corejack.AxiMap.{
  Rule, Window, Values, Verdict, MapError, passed, rejected, ◌>>=◌, value_of, window_of, windows_of,
  insert_by, sort_by, check_neighbours, check_map,
}

abbrev pub In : {A : Type 0} → A → List A → Type 0
In x [] = ⊥
In x (y ∷ ys) = (x ≡ y) ⊎ In x ys

-- One window ends before the other one starts.
abbrev pub Apart : Window → Window → Type 0
Apart v w = (v.end ≤ℤ w.start) ⊎ (w.end ≤ℤ v.start)

In-if :
    {A : Type 0} (x : A) (b : Bool) (xs ys : List A)
    → In x (if b then xs else ys)
    → In x xs ⊎ In x ys
In-if x true xs ys h = inl h
In-if x false xs ys h = inr h

both-In :
    {A : Type 0} (x : A) (b : Bool) (xs ys : List A)
    → In x xs
    → In x ys
    → In x (if b then xs else ys)
both-In x true xs ys h k = h
both-In x false xs ys h k = k

module _ (key : Window → ℤ) where
  In-insert_by : (x w : Window) (vs : List Window) → (x ≡ w) ⊎ In x vs → In x (insert_by key w vs)
  unfolding insert_by
  In-insert_by x w [] h = h
  In-insert_by x w (v ∷ vs) h =
      both-In x (leb_ℤ (key w) (key v)) (w ∷ v ∷ vs) (v ∷ insert_by key w vs) h (elim h [
        | inl e ↦ inr (In-insert_by x w vs (inl e))
        | inr (inl e) ↦ inl e
        | inr (inr m) ↦ inr (In-insert_by x w vs (inr m))
      ])

  insert_by-In : (x w : Window) (vs : List Window) → In x (insert_by key w vs) → (x ≡ w) ⊎ In x vs
  unfolding insert_by
  insert_by-In x w [] h = h
  insert_by-In x w (v ∷ vs) h =
      elim (In-if x (leb_ℤ (key w) (key v)) (w ∷ v ∷ vs) (v ∷ insert_by key w vs) h) [
        | inl m ↦ m
        | inr (inl e) ↦ inr (inl e)
        | inr (inr m) ↦ elim (insert_by-In x w vs m) [ inl e ↦ inl e | inr n ↦ inr (inr n) ]
      ]

  In-sort_by : (x : Window) (ws : List Window) → In x ws → In x (sort_by key ws)
  unfolding sort_by
  In-sort_by x [] h = h
  In-sort_by x (w ∷ ws) (inl e) = In-insert_by x w (sort_by key ws) (inl e)
  In-sort_by x (w ∷ ws) (inr h) = In-insert_by x w (sort_by key ws) (inr (In-sort_by x ws h))

  sort_by-In : (x : Window) (ws : List Window) → In x (sort_by key ws) → In x ws
  unfolding sort_by
  sort_by-In x [] h = h
  sort_by-In x (w ∷ ws) h = elim (insert_by-In x w (sort_by key ws) h) [
    | inl e ↦ inl e
    | inr m ↦ inr (sort_by-In x ws m)
  ]

pub >>=-eq-passed {ℓ κ} :
    {A : Type ℓ} {B : Type κ} (m : Verdict A) (rest : A → Verdict B) {b : B}
    → (m >>= rest) ≡ passed b
    → (a : A) × (m ≡ passed a) × (rest a ≡ passed b)
>>=-eq-passed (rejected e) rest h = cc
>>=-eq-passed (passed a) rest h = (a, refl, h)

Verdict-cases {ℓ} :
    {A : Type ℓ} (m : Verdict A) → ((e : MapError) × (m ≡ rejected e)) ⊎ ((a : A) × (m ≡ passed a))
Verdict-cases (rejected e) = inl (e, refl)
Verdict-cases (passed a) = inr (a, refl)

-- The window of a rule. Its start is negative if the value of the base is.
pub record IsWindowOf (values : Values) (r : Rule) (w : Window) : Type 0 where
  pub same_index : w.idx ≡ r.idx
  pub start_value : value_of r.base_name values ≡ some w.start
  pub has_size : (size : ℤ) × (value_of r.size_name values ≡ some size) × (w.end ≡ w.start +ℤ size)
  pub is_nonempty : w.start <ℤ w.end
  pub ends_in_range : w.end ≤ℤ pos 4294967296

window_of-IsWindowOf :
    (values : Values) (r : Rule) {w : Window}
    → window_of r (value_of r.base_name values) (value_of r.size_name values) ≡ passed w
    → IsWindowOf values r w
unfolding window_of
window_of-IsWindowOf values r {w} h = elim (Option-cases (value_of r.base_name values)) [
  | inl bad ↦ elim (Option-cases (value_of r.size_name values)) [
    | inl worse ↦ absurd (ground (arith, h))
    | inr (size, es) ↦ absurd (ground (arith, h))
  ]
  | inr (start, eb) ↦ elim (Option-cases (value_of r.size_name values)) [
    | inl bad ↦ absurd (ground (arith, h))
    | inr (size, es) ↦ record {
      same_index = ground (arith, h);
      start_value = ground (arith, h);
      has_size = (size, es, ground (arith, h));
      is_nonempty = ground (arith, h, +ℤ-positive start size);
      ends_in_range = ground (arith, h);
    }
  ]
]

windows_of-In :
    (values : Values) (rules : List Rule) (r : Rule) {ws : List Window}
    → windows_of values rules ≡ passed ws
    → In r rules
    → (w : Window) × In w ws × IsWindowOf values r w
unfolding windows_of
windows_of-In values [] r h m = elim m [ ]
windows_of-In values (s ∷ rules) r {ws} h m =
    let (w, ew, h1) =
      >>=-eq-passed (window_of s (value_of s.base_name values) (value_of s.size_name values)) _ h in
    let (rest, erest, h2) = >>=-eq-passed (windows_of values rules) _ h1 in
    let e : w ∷ rest ≡ ws = ground (arith, h2) in
    rw (← e) (elim m [
      | inl here ↦ (w, inl refl, rw here (window_of-IsWindowOf values s ew))
      | inr there ↦ let (v, mv, is) = windows_of-In values rules r erest there in (v, inr mv, is)
    ])

windows_of-rule :
    (values : Values) (rules : List Rule) (w : Window) {ws : List Window}
    → windows_of values rules ≡ passed ws
    → In w ws
    → (r : Rule) × In r rules × IsWindowOf values r w
unfolding windows_of
windows_of-rule values [] w {ws} h m =
    let e : ws ≡ [] = ground (arith, h) in absurd (subst (In w) e m)
windows_of-rule values (s ∷ rules) w {ws} h m =
    let (u, eu, h1) =
      >>=-eq-passed (window_of s (value_of s.base_name values) (value_of s.size_name values)) _ h in
    let (rest, erest, h2) = >>=-eq-passed (windows_of values rules) _ h1 in
    let e : ws ≡ u ∷ rest = ground (arith, h2) in
    elim (subst (In w) e m) [
      | inl here ↦ (s, inl refl, rw here (window_of-IsWindowOf values s eu))
      | inr there ↦ let (r, mr, is) = windows_of-rule values rules w erest there in (r, inr mr, is)
    ]

module _ {A : Type 0} (P : A → Type 0) where
  All-In : (xs : List A) → ((x : A) → In x xs → P x) → All P xs
  All-In [] h = tt
  All-In (x ∷ xs) h = (h x (inl refl), All-In xs (λ y m. h y (inr m)))

  In-All : (xs : List A) (x : A) → All P xs → In x xs → P x
  In-All [] x h m = elim m [ ]
  In-All (y ∷ ys) x (p, h) (inl e) = subst P (sym e) p
  In-All (y ∷ ys) x (p, h) (inr m) = In-All ys x h m

-- In the order of their starts, every window ends before the next ones start.
Chain : List Window → Type 0
Chain [] = Unit
Chain (w ∷ ws) = All (λ v. w.end ≤ℤ v.start) ws × Chain ws

check_neighbours-Chain :
    (ws : List Window) → All (λ w. w.start <ℤ w.end) ws → check_neighbours ws ≡ passed tt → Chain ws
unfolding check_neighbours Chain
check_neighbours-Chain [] n h = tt
check_neighbours-Chain (w ∷ []) n h = (tt, tt)
check_neighbours-Chain (w ∷ v ∷ ws) (nw, (nv, n)) h =
    let (later, chain) = check_neighbours-Chain (v ∷ ws) (nv, n) (ground arith) in
    let here : w.end ≤ℤ v.start = ground arith in
    (
      (
        here,
        All-In (λ x. w.end ≤ℤ x.start) ws
            (λ x m.
              let there = In-All (λ x. v.end ≤ℤ x.start) ws x later m in
              omega (arith, here, nv, there)),
      ),
      (later, chain),
    )

Chain-Apart :
    (ws : List Window) (v w : Window) → Chain ws → In v ws → In w ws → v.idx ≢ w.idx → Apart v w
unfolding Chain
Chain-Apart [] v w chain hv hw differ = elim hv [ ]
Chain-Apart (u ∷ ws) v w (later, chain) (inl e) (inl f) differ =
    absurd (differ (ap (λ (x : Window). x.idx) (e ∙ sym f)))
Chain-Apart (u ∷ ws) v w (later, chain) (inl e) (inr m) differ = inl (rw e (In-All _ ws w later m))
Chain-Apart (u ∷ ws) v w (later, chain) (inr m) (inl f) differ = inr (rw f (In-All _ ws v later m))
Chain-Apart (u ∷ ws) v w (later, chain) (inr m) (inr n) differ = Chain-Apart ws v w chain m n differ

-- What `check_map` has gone through.
record Passing (values : Values) (rules : List Rule) (out : List Window) : Type 0 where
  windows : List Window
  from_rules : windows_of values rules ≡ passed windows
  neighbours : check_neighbours (sort_by (λ w. w.start) windows) ≡ passed tt
  output : out ≡ sort_by (λ w. pos w.idx) windows

check_map-Passing :
    (values : Values) (rules : List Rule) {out : List Window}
    → check_map values rules ≡ passed out
    → Passing values rules out
unfolding check_map
check_map-Passing values rules {out} h = elim (Verdict-cases (windows_of values rules)) [
  | inl (e, bad) ↦ absurd (ground (arith, h))
  | inr (windows, passes) ↦ record {
    windows = windows;
    from_rules = passes;
    neighbours = ground (arith, h);
    output = ground (arith, h);
  }
]

-- When the address map passes its check, any two of its windows with different indices are apart.
pub check_map-Apart :
    (values : Values) (rules : List Rule) (v w : Window) {out : List Window}
    → check_map values rules ≡ passed out
    → In v out
    → In w out
    → v.idx ≢ w.idx
    → Apart v w
check_map-Apart values rules v w h hv hw differ =
    let p = check_map-Passing values rules h in
    let by_start = λ (x : Window). x.start in
    let by_idx = λ (x : Window). pos x.idx in
    let from : (x : Window) → In x _ → In x p.windows =
      λ x m. sort_by-In by_idx x p.windows (subst (In x) p.output m) in
    let nonempty =
      All-In (λ x. x.start <ℤ x.end) (sort_by by_start p.windows)
        (λ x m.
          (windows_of-rule values rules x p.from_rules
            (sort_by-In by_start x p.windows m)).2.is_nonempty) in
    Chain-Apart (sort_by by_start p.windows) v w
      (check_neighbours-Chain (sort_by by_start p.windows) nonempty p.neighbours)
      (In-sort_by by_start v p.windows (from v hv)) (In-sort_by by_start w p.windows (from w hw))
      differ

-- When the address map passes its check, every rule has its window in the output: it starts at the value of
-- the base, which may be negative, has the size of the rule, is not empty and ends at 4 GiB at most.
pub check_map-IsWindowOf :
    (values : Values) (rules : List Rule) (r : Rule) {out : List Window}
    → check_map values rules ≡ passed out
    → In r rules
    → (w : Window) × In w out × IsWindowOf values r w
check_map-IsWindowOf values rules r h m =
    let p = check_map-Passing values rules h in
    let (w, mw, is) = windows_of-In values rules r p.from_rules m in
    (w, subst (In w) (sym p.output) (In-sort_by (λ x. pos x.idx) w p.windows mw), is)
