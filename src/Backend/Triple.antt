-- ===== src/Backend/Triple.antt =====
-- Triples over the view of a world: from `P` a step goes on in `Q`, and leaves in `E` wherever it
-- jumps to END or dies. One rule for each way to build a step.
pub mod Statements
pub mod Session
use hydra_fs.Prelude.{
  ◌≡◌, ◌≢◌, refl, sym, subst, Bool, true, false, Option, none, some, List, if◌then◌else◌, ◌⊎◌, inl,
  inr, ◌∙◌, Bool-cases,
}
use hydra_fs.Prelude.Int.{ℤ, pos, negsuc}
use hydra_fs.Backend.{
  Sql, RedisCommand, RedisReply, set_names_utf8, Cell, Row, Reply, failed, no_result, rows,
  affected, System, Out, go, stop, crash, Exec, ◌>>=◌, pure, goto_end, call,
}
use hydra_fs.Backend.Mysql.{
  return_value, store_one, buffer, is_ok, msql_conn, process_result_one, with_database, select_one,
  select_exists, execute,
}
use hydra_fs.Backend.Redis.{ask, survive, returned}
use hydra_fs.Backend.Contract.{
  State, apply, apply_tables, answer, Fresh, Explains, Contract, rolled_back,
}

module _ {W A S : Type 0} (view : W → S) (Q : A → S → Type 0) (E : Option ℤ → S → Type 0) where
  -- `E` is told the return value, if the process lives.
  abbrev pub Leaves : Out A → W → Type 0
  Leaves (go a) w = Q a (view w)
  Leaves (stop r) w = E (some r) (view w)
  Leaves crash w = E none (view w)

module _ {W A S : Type 0} (view : W → S) (Q : A → S → Type 0) (E : S → Type 0) where
  -- The same where the return value does not matter.
  abbrev pub Post : Out A → W → Type 0
  Post = Leaves view Q (λ _. E)

-- What holds wherever a step leads.
pub Post-same :
    {W A S : Type 0} (view : W → S) (P : S → Type 0) (r : Out A) (w : W)
    → Post view (λ _. P) P r w
    → P (view w)
Post-same view P (go a) w h = h
Post-same view P (stop r) w h = h
Post-same view P crash w h = h

-- The return value is not 0.
abbrev pub NotZero : {S : Type 0} → Option ℤ → S → Type 0
NotZero r s = r ≢ some (pos 0)

pub zero_went_on :
    {W S : Type 0} (view : W → S) (Q : S → Type 0) {A : Type 0} (r : Out A) (w : W)
    → Leaves view (λ _. Q) NotZero r w
    → return_value r ≡ some (pos 0)
    → Q (view w)
zero_went_on view Q (go _) w h e = h
zero_went_on view Q (stop r) w h e = absurd (h e)
zero_went_on view Q crash w h e = absurd (h e)

pub record Ends {W A S : Type 0} (view : W → S) (P : S → Type 0) (m : Exec W A) (Q : A → S → Type 0)
    (E : Option ℤ → S → Type 0) : Type 0 where
  pub at : (w : W) → P (view w) → Leaves view Q E (m w).0 (m w).1

module _ {W A S : Type 0} (view : W → S) (P : S → Type 0) (m : Exec W A) (Q : A → S → Type 0)
    (E : S → Type 0) where
  abbrev pub Sat : Type 0
  Sat = Ends view P m Q (λ _. E)

module _ {W S : Type 0} (view : W → S) {E : Option ℤ → S → Type 0} where
  pub Sat-bind :
      {A B : Type 0} {P : S → Type 0} (R : A → S → Type 0) {Q : B → S → Type 0} (m : Exec W A)
      (f : A → Exec W B)
      → Ends view P m R E
      → ((a : A) → Ends view (R a) (f a) Q E)
      → Ends view P (m >>= f) Q E
  unfolding ◌>>=◌
  Sat-bind {A} {B} {P} R {Q} m f km kf = record { at = λ w h. go_on (m w).0 (m w).1 (km.at w h) }
    where
      go_on :
          (r : Out A) (w : W)
          → Leaves view R E r w
          → Leaves view Q E (((λ v. (r, v)) >>= f) w).0 (((λ v. (r, v)) >>= f) w).1
      go_on (go a) w h = (kf a).at w h
      go_on (stop r) w h = h
      go_on crash w h = h

  -- The same with the steps left to their triples.
  pub Sat-step :
      {A B : Type 0} {P : S → Type 0} (R : A → S → Type 0) {Q : B → S → Type 0} {m : Exec W A}
      {f : A → Exec W B}
      → Ends view P m R E
      → ((a : A) → Ends view (R a) (f a) Q E)
      → Ends view P (m >>= f) Q E
  Sat-step R {m = m} {f = f} km kf = Sat-bind R m f km kf

  pub Sat-pure :
      {A : Type 0} {P : S → Type 0} {Q : A → S → Type 0} (a : A)
      → ((s : S) → P s → Q a s)
      → Ends view P (pure a) Q E
  unfolding pure
  Sat-pure a h = record { at = λ w p. h (view w) p }

  pub Sat-stop :
      {A : Type 0} {P : S → Type 0} {Q : A → S → Type 0} (r : ℤ)
      → ((s : S) → P s → E (some r) s)
      → Ends view P (goto_end {A = A} r) Q E
  unfolding goto_end
  Sat-stop r h = record { at = λ w p. h (view w) p }

  pub Sat-if :
      {A : Type 0} {P : S → Type 0} {Q : A → S → Type 0} (b : Bool) (m n : Exec W A)
      → (b ≡ true → Ends view P m Q E)
      → (b ≡ false → Ends view P n Q E)
      → Ends view P (if b then m else n) Q E
  Sat-if true m n km kn = km refl
  Sat-if false m n km kn = kn refl

  pub Sat-pre :
      {A : Type 0} {P P' : S → Type 0} {Q : A → S → Type 0} (m : Exec W A)
      → ((s : S) → P s → P' s)
      → Ends view P' m Q E
      → Ends view P m Q E
  Sat-pre m h k = record { at = λ w p. k.at w (h (view w) p) }

  pub Sat-after :
      {A : Type 0} {P : S → Type 0} {Q Q' : A → S → Type 0} (m : Exec W A)
      → ((a : A) (s : S) → Q a s → Q' a s)
      → Ends view P m Q E
      → Ends view P m Q' E
  Sat-after {A} {Q = Q} {Q' = Q'} m h k = record { at = λ w p. after (m w).0 (m w).1 (k.at w p) }
    where
      after : (r : Out A) (w : W) → Leaves view Q E r w → Leaves view Q' E r w
      after (go a) w q = h a (view w) q
      after (stop r) w e = e
      after crash w e = e

  -- A call that always comes back.
  pub Sat-call :
      {A : Type 0} {P Q : S → Type 0} (f : W → A × W)
      → ((w : W) → P (view w) → Q (view (f w).1))
      → Ends view P (call f) (λ _. Q) E
  unfolding call
  Sat-call f keeps = record { at = λ w p. keeps w p }

  -- The same with what the result says.
  pub Sat-run :
      {A : Type 0} {P : S → Type 0} {Q : A → S → Type 0} (f : W → A × W)
      → ((w : W) → P (view w) → Q (f w).0 (view (f w).1))
      → Ends view P (call f) Q E
  unfolding call
  Sat-run f keeps = record { at = λ w p. keeps w p }

  -- A call that leaves the view alone.
  pub Sat-quiet :
      {A : Type 0} (P : S → Type 0) (f : W → A × W)
      → ((w : W) → view (f w).1 ≡ view w)
      → Ends view P (call f) (λ _. P) E
  unfolding call
  Sat-quiet P f same = record { at = λ w p. subst P (sym (same w)) p }

module _ {W S : Type 0} (sys : System W) (view : W → S) {E : Option ℤ → S → Type 0} where
  pub Sat-survive :
      {A : Type 0} {P : S → Type 0} (o : Option A)
      → ((s : S) → P s → E none s)
      → Ends view P (survive sys o) (λ _. P) E
  unfolding survive
  Sat-survive none dying = record { at = λ w h. dying _ h }
  Sat-survive (some a) dying = record { at = λ w h. h }

  -- A function in which the process may die.
  pub Sat-returned :
      {A : Type 0} {P Q : S → Type 0} (f : W → Option A × W)
      → ((s : S) → Q s → E none s)
      → ((w : W) → P (view w) → Q (view (f w).1))
      → Ends view P (returned sys f) (λ _. Q) E
  unfolding returned survive
  Sat-returned {A} {Q = Q} f dying keeps = record {
    at = λ w h. by_result (f w).0 (f w).1 (keeps w h);
  }
    where
      by_result :
          (o : Option A) (w : W)
          → Q (view w)
          → Leaves view (λ (_ : A). Q) E (survive sys o w).0 (survive sys o w).1
      by_result none w h = dying _ h
      by_result (some r) w h = h
