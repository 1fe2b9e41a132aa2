-- ===== src/Breaker/Phase.antt =====
-- The probes of the circuit breaker of common/storage_resilience.cpp by themselves: an abstract
-- machine without the window, the times and Redis.
use hydra_fs.Prelude.{
  ℕ, suc, ◌+◌, ◌%◌, ◌^◌, ◌≤◌, ◌<◌, ◌≡◌, ◌≢◌, refl, subst, Bool, true, false, List, [], ◌∷◌, ◌++◌,
  ◌==◌, if◌then◌else◌, arith,
}
use hydra_fs.Breaker.State.{BreakerDecision, refused, granted}

pub record Phase : Type 0 where
  pub half_open : Bool
  pub in_flight : Bool
  pub generation : ℕ
  pub next : ℕ

pub data Allows : Phase → BreakerDecision → Phase → Type 0 where
  refuses : {p : Phase} → Allows p refused p
  -- an ordinary request
  passes : {p : Phase} → p.half_open ≡ false → Allows p (granted 0) p
  -- the next probe of this generation
  reprobes :
      {p : Phase}
      → p.half_open ≡ true
      → p.in_flight ≡ false
      → Allows p (granted p.generation) (record p { in_flight = true })
  -- the first probe of the next one
  probes :
      {p : Phase} (g : ℕ)
      → p.half_open ≡ false
      → g ≡ (p.next + 1) % 2 ^ 64
      → Allows p
          (granted g)
          (record { half_open = true; in_flight = true; generation = g; next = g })

pub data Records : Phase → ℕ → Phase → Type 0 where
  ignores : {p : Phase} {g : ℕ} → p.half_open ≡ true → g ≢ p.generation → Records p g p
  lands :
      {p : Phase} {g : ℕ} (still : Bool)
      → p.half_open ≡ true
      → g ≡ p.generation
      → Records p g (record p { half_open = still; in_flight = false })
  stays : {p : Phase} {g : ℕ} → p.half_open ≡ false → Records p g p
  opens :
      {p : Phase} {g : ℕ}
      → p.half_open ≡ false
      → Records p g (record p { half_open = false; in_flight = false })

unfoldable pub occurrences : ℕ → List ℕ → ℕ
occurrences g [] = 0
occurrences g (h ∷ hs) = if h == g then suc (occurrences g hs) else occurrences g hs

pub occurrences-append :
    (g : ℕ) (xs ys : List ℕ) → occurrences g (xs ++ ys) ≡ occurrences g xs + occurrences g ys
unfolding occurrences
occurrences-append g [] ys = omega arith
occurrences-append g (x ∷ xs) ys = ground (arith, occurrences-append g xs ys)

abbrev pub bit : Bool → ℕ
bit true = 1
bit false = 0

bit_most : (b : Bool) → bit b ≤ 1
bit_most true = omega arith
bit_most false = omega arith

-- What `n` calls lead to, with the generations that were handed out and not given back.
pub record Invariant (n : ℕ) (p : Phase) (out : List ℕ) : Type 0 where
  pub same : p.generation ≡ p.next
  pub few : p.next ≤ n
  pub known : (g : ℕ) → p.next < g → occurrences g out ≡ 0
  pub begun : p.half_open ≡ true → 1 ≤ p.generation
  pub idle : p.half_open ≡ false → p.in_flight ≡ false
  pub flying : 1 ≤ p.generation → occurrences p.generation out ≡ bit p.in_flight

-- The generations after an answer.
abbrev pub held : BreakerDecision → List ℕ → List ℕ
held d out = if d.allowed then d.probe_generation ∷ out else out

small_mod : (a : ℕ) → a < 2 ^ 64 → a % 2 ^ 64 ≡ a
small_mod a h = omega arith

pub Allows-Invariant :
    (n : ℕ) (p p' : Phase) (d : BreakerDecision) (out : List ℕ)
    → suc n < 2 ^ 64
    → Allows p d p'
    → Invariant n p out
    → Invariant (suc n) p' (held d out)
unfolding occurrences
Allows-Invariant n p p' d out l refuses i = record {
  same = i.same;
  few = omega (arith, i.few);
  known = i.known;
  begun = i.begun;
  idle = i.idle;
  flying = i.flying;
}
Allows-Invariant n p p' d out l (passes c) i = record {
  same = i.same;
  few = omega (arith, i.few);
  known = λ g h. let k : occurrences g out ≡ 0 = i.known g h in ground arith;
  begun = i.begun;
  idle = i.idle;
  flying = λ h. let k : occurrences p.generation out ≡ bit p.in_flight = i.flying h in ground arith;
}
Allows-Invariant n p p' d out l (reprobes c f) i = record {
  same = i.same;
  few = omega (arith, i.few);
  known = λ g h.
      let k : occurrences g out ≡ 0 = i.known g h in
      let e : p.generation ≡ p.next = i.same in ground arith;
  begun = i.begun;
  idle = λ e. cc;
  flying = λ h.
      let k : occurrences p.generation out ≡ 0 =
        subst (λ b. occurrences p.generation out ≡ bit b) f (i.flying h) in
      ground arith;
}
Allows-Invariant n p p' d out l (probes g c e) i = record {
  same = refl;
  few = omega (arith, i.few, e, small_mod (p.next + 1));
  known = λ k h.
      let none_out : occurrences k out ≡ 0 =
        i.known k (omega (arith, e, small_mod (p.next + 1), i.few)) in
      ground arith;
  begun = λ _. omega (arith, e, small_mod (p.next + 1), i.few);
  idle = λ e. cc;
  flying = λ h.
      let none_out : occurrences g out ≡ 0 =
        i.known g (omega (arith, e, small_mod (p.next + 1), i.few)) in
      ground arith;
}

-- What is given back is gone.
occurrences-remove :
    (k g : ℕ) (xs ys : List ℕ)
    → occurrences k (xs ++ g ∷ ys) ≡ (if g == k then 1 else 0) + occurrences k (xs ++ ys)
unfolding occurrences
occurrences-remove k g [] ys = ground arith
occurrences-remove k g (x ∷ xs) ys =
    let before : occurrences k (xs ++ g ∷ ys)
        ≡ (if g == k then 1 else 0) + occurrences k (xs ++ ys) =
      occurrences-remove k g xs ys in
    ground arith

pub Records-Invariant :
    (n g : ℕ) (p p' : Phase) (xs ys : List ℕ)
    → Records p g p'
    → Invariant n p (xs ++ g ∷ ys)
    → Invariant (suc n) p' (xs ++ ys)
Records-Invariant n g p p' xs ys r i = by_case p' r
  where
    fewer : (k : ℕ) → p.next < k → occurrences k (xs ++ ys) ≡ 0
    fewer k h = omega (arith, occurrences-remove k g xs ys, i.known k h)

    none_left : p.half_open ≡ false → 1 ≤ p.generation → occurrences p.generation (xs ++ ys) ≡ 0
    none_left h l =
        let there : occurrences p.generation (xs ++ g ∷ ys) ≡ 0 =
          subst (λ b. occurrences p.generation (xs ++ g ∷ ys) ≡ bit b) (i.idle h) (i.flying l) in
        omega (arith, occurrences-remove p.generation g xs ys)

    by_case : (p' : Phase) → Records p g p' → Invariant (suc n) p' (xs ++ ys)
    by_case p' (ignores h e) = record {
      same = i.same;
      few = omega (arith, i.few);
      known = fewer;
      begun = i.begun;
      idle = i.idle;
      flying = λ l.
          let there : occurrences p.generation (xs ++ g ∷ ys) ≡ bit p.in_flight = i.flying l in
          let less : occurrences p.generation (xs ++ g ∷ ys)
              ≡ (if g == p.generation then 1 else 0) + occurrences p.generation (xs ++ ys) =
            occurrences-remove p.generation g xs ys in
          ground arith;
    }
    by_case p' (lands still h e) = record {
      same = i.same;
      few = omega (arith, i.few);
      known = fewer;
      begun = λ _. i.begun h;
      idle = λ _. refl;
      flying = λ l.
          let there : occurrences p.generation (xs ++ g ∷ ys) ≡ bit p.in_flight = i.flying l in
          let less : occurrences p.generation (xs ++ g ∷ ys)
              ≡ (if g == p.generation then 1 else 0) + occurrences p.generation (xs ++ ys) =
            occurrences-remove p.generation g xs ys in
          let most : bit p.in_flight ≤ 1 = bit_most p.in_flight in ground arith;
    }
    by_case p' (stays h) = record {
      same = i.same;
      few = omega (arith, i.few);
      known = fewer;
      begun = i.begun;
      idle = i.idle;
      flying = λ l. rw (i.idle h) (none_left h l);
    }
    by_case p' (opens h) = record {
      same = i.same;
      few = omega (arith, i.few);
      known = fewer;
      begun = λ e. cc;
      idle = λ _. refl;
      flying = none_left h;
    }
