-- ===== src/Members/Grows.antt =====
-- A message never removes a node, and never lowers the life number of one.
use Prim.Native.String.{String}
use mlist.Prelude.{
  ℕ, zero, suc, ◌≤◌, ◌<◌, ◌≡◌, Bool, false, not, ◌&&◌, ◌||◌, some, arith, ltb, Option-cases,
  Bool-cases, subst, inl, inr,
}
use mlist.Prelude.Maps.{same}
use mlist.Suspicion.{Suspicion, Floats, TimeoutFn, confirm}
use mlist.Members.Types.{Alive, Suspect, Dead, is_alive, dead_or_left, Config, Memberlist}
use mlist.Members.Handlers.{
  add_node, renew_node, alive_node, refute_loop, next_live_no, refute, refuted, confirmed,
  first_suspect, suspect_known, suspect_node, bury, dead_known, dead_node, timeout_check,
  timeout_fn,
}

pub record Grows (m m' : Memberlist) : Type 0 where
  pub kept : (id : String) (p : ℕ) → m.node_map id ≡ some p → m'.node_map id ≡ some p
  pub lives : (p : ℕ) → p < m.next → (m.store p).lives ≤ (m'.store p).lives
  pub older : m.next ≤ m'.next

-- The loop of `refute` ends above its bound.
refute_loop-above : (fuel lives l r : ℕ) → refute_loop fuel lives l ≡ some r → lives < r
unfolding refute_loop
refute_loop-above zero lives l r e = ground arith
refute_loop-above (suc fuel) lives l r e =
    ground (arith, refute_loop-above fuel lives (next_live_no l) r)

refute-Grows :
    (p lives : ℕ) (m : Memberlist) {m' : Memberlist}
    → (m.store p).lives ≤ lives
    → refute p lives m ≡ some m'
    → Grows m m'
unfolding refute
refute-Grows p lives m le e =
    elim (Option-cases (refute_loop (suc lives) lives (next_live_no m.lives))) [
      | inl stuck ↦ absurd (ground arith)
      | inr (l, done) ↦
          let above = refute_loop-above (suc lives) lives (next_live_no m.lives) l done in
          subst (Grows m) (ground arith) (grown l (omega arith))
    ]
  where
    grown : (l : ℕ) → (m.store p).lives < l → Grows m (refuted l p m)
    grown l above = record { kept = λ id q h. h; lives = λ q h. ground arith; older = omega arith }

pub same-Grows : (m : Memberlist) → Grows m m
same-Grows m = record { kept = λ id q h. h; lives = λ q h. omega arith; older = omega arith }

-- An alive message keeps every node, and lowers no life number.
pub alive_node-Grows :
    (c : Config) (a : Alive) (notify : Bool) (now rnd : ℕ) (m : Memberlist)
    → Grows m (alive_node c a notify now rnd m)
unfolding alive_node add_node renew_node
alive_node-Grows c a notify now rnd m = record {
  kept = λ id p h. ground arith;
  lives = λ p h. ground arith;
  older = ground arith;
}

-- A dead message keeps every node, and lowers no life number.
pub dead_node-Grows :
    (c : Config) (d : Dead) (notify : Bool) (now : ℕ) (m : Memberlist) {m' : Memberlist}
    → dead_node c d notify now m ≡ some m'
    → Grows m m'
unfolding dead_node dead_known bury
dead_node-Grows c d notify now m e = elim (Option-cases (m.node_map d.id)) [
  | inl absent ↦ subst (Grows m) (ground arith) (same-Grows m)
  | inr (p, here) ↦ elim (Bool-cases (ltb d.lives (m.store p).lives || dead_or_left (m.store p))) [
    | inl late ↦ subst (Grows m) (ground arith) (same-Grows m)
    | inr fresh ↦ elim (Bool-cases (same d.id c.local_id && not m.left)) [
      | inl near ↦ refute-Grows p d.lives m (ground arith) (ground arith)
      | inr far ↦ subst (Grows m) (ground arith) (buried p (ground arith))
    ]
  ]
]
  where
    buried : (p : ℕ) → (m.store p).lives ≤ d.lives → Grows m (bury d notify now p m)
    buried p le = record { kept = λ id q h. h; lives = λ q h. ground arith; older = omega arith }

-- The firing of a timer keeps every node, and lowers no life number.
timeout_fn-Grows :
    (c : Config) (f : TimeoutFn) (now : ℕ) (m : Memberlist) {m' : Memberlist}
    → timeout_fn c f now m ≡ some m'
    → Grows m m'
unfolding timeout_fn
timeout_fn-Grows c f now m e = elim (Option-cases (timeout_check f m)) [
  | inl stale ↦ subst (Grows m) (ground arith) (same-Grows m)
  | inr (d, due) ↦ dead_node-Grows c d false now m (ground arith)
]

-- A suspect message keeps every node, and lowers no life number.
pub suspect_node-Grows :
    {F : Type 0} (fl : Floats F) (c : Config) (s : Suspect) (now : ℕ) (m : Memberlist)
    {m' : Memberlist}
    → suspect_node fl c s now m ≡ some m'
    → Grows m m'
unfolding suspect_node suspect_known first_suspect
suspect_node-Grows fl c s now m e = elim (Option-cases (m.node_map s.id)) [
  | inl absent ↦ subst (Grows m) (ground arith) (same-Grows m)
  | inr (p, here) ↦ elim (Bool-cases (ltb s.lives (m.store p).lives)) [
    | inl late ↦ subst (Grows m) (ground arith) (same-Grows m)
    | inr fresh ↦ elim (Option-cases (m.suspicions s.id)) [
      | inr (sc, known) ↦ subst (Grows m) (ground arith) (counted sc)
      | inl new ↦ elim (Bool-cases (is_alive (m.store p).state)) [
        | inr down ↦ subst (Grows m) (ground arith) (same-Grows m)
        | inl up ↦ elim (Bool-cases (same s.id c.local_id)) [
          | inl near ↦ refute-Grows p s.lives m (ground arith) (ground arith)
          | inr far ↦ subst (Grows m) (ground arith) (suspected p (ground arith))
        ]
      ]
    ]
  ]
]
  where
    suspected : (p : ℕ) → (m.store p).lives ≤ s.lives → Grows m (first_suspect c s now p m)
    suspected p le = record { kept = λ id q h. h; lives = λ q h. ground arith; older = omega arith }

    counted : (sc : Suspicion) → Grows m (confirmed s (confirm fl sc s.from now) m)
    counted sc = record { kept = λ id q h. h; lives = λ q h. omega arith; older = omega arith }

pub Grows-trans : {m m' m'' : Memberlist} → Grows m m' → Grows m' m'' → Grows m m''
Grows-trans g g' = record {
  kept = λ id p h. g'.kept id p (g.kept id p h);
  lives = λ p h.
      let a = g.lives p h in let o = g.older in let b = g'.lives p (omega arith) in omega arith;
  older = let o = g.older in let o' = g'.older in omega arith;
}
