-- ===== src/Merge/Lock.antt =====
-- The merge lock of src_cgi/chunk_merge_cgi.c admits one holder.
use package.text.Mathlib.Text.{◌==◌ as str_eq}
use package.text.Mathlib.TextEquality.{eq_iff}
use package.text.Mathlib.TextPositions.{eq_refl}
use hydra_fs.Prelude.{
  ◌≡◌, ◌≢◌, ◌⊎◌, inl, inr, refl, sym, ap, ◌∙◌, subst, Bool, true, false, Bool-cases, Option, none,
  some, String, List, [], ◌∷◌, arith, if◌then◌else◌,
}
use hydra_fs.Prelude.Int.{ℤ, pos, eq_ℤ}
use hydra_fs.Backend.{
  ScriptEnd, call_del, return_zero, set_nx, eval, RedisReply, null, integer, string, status, error,
  array, nil, System,
}
use hydra_fs.Merge.{acquired, released, release_script, acquire_merge_lock, release_merge_lock}

-- The values of the lock keys.
abbrev pub Locks : Type 0
Locks = String → Option String

unfoldable pub put_lock : String → Option String → Locks → Locks
put_lock key v locks k = if str_eq key k then v else locks k

-- What the end of a script does.
abbrev pub ended : ScriptEnd → String → Locks → Locks
ended call_del key locks = put_lock key none locks
ended return_zero key locks = locks

-- What SET NX does: OK where the key was free; without a reply nothing is known of it.
abbrev pub Sets : RedisReply → (key token : String) → Locks → Locks → Type 0
Sets null key token l l' = (l' ≡ l) ⊎ ((l key ≡ none) × (l' ≡ put_lock key (some token) l))
Sets (status s) key token l l' =
    if str_eq s "OK" then (l key ≡ none) × (l' ≡ put_lock key (some token) l) else l' ≡ l
Sets _ key token l l' = l' ≡ l

-- Redis runs a script as one step; without a reply, or with an error, it may not have run.
abbrev pub Runs : RedisReply → ScriptEnd → (key : String) → Locks → Locks → Type 0
Runs null done key l l' = (l' ≡ l) ⊎ (l' ≡ ended done key l)
Runs (error s) done key l l' = (l' ≡ l) ⊎ (l' ≡ ended done key l)
Runs _ done key l l' = l' ≡ ended done key l

pub record LockContract {W : Type 0} (sys : System W) (locks : W → Locks) : Type 0 where
  pub sets :
      (key token : String) (w : W)
      → Sets
          (sys.redis_command (set_nx key token) w).0
          key
          token
          (locks w)
          (locks (sys.redis_command (set_nx key token) w).1)
  pub scripts :
      (script : Option String → String → ScriptEnd) (key argv : String) (w : W)
      → Runs
          (sys.redis_command (eval script key argv) w).0
          (script (locks w key) argv)
          key
          (locks w)
          (locks (sys.redis_command (eval script key argv) w).1)

module _ {W : Type 0} (sys : System W) (locks : W → Locks) (key : String) where
  -- The tokens that were answered 0 and not released since, after calls in any order; one that was
  -- not answered 0 is not released. What goes on elsewhere leaves the value of the key, so that the
  -- lock does not expire.
  pub data Holding : List String → W → Type 0 where
    idle : {w : W} → locks w key ≡ none → Holding [] w
    acquires :
        {holders : List String} {w : W} (token : String)
        → Holding holders w
        → Holding
            (if eq_ℤ (acquire_merge_lock sys key token w).0 (pos 0)
              then token ∷ holders
              else holders)
            (acquire_merge_lock sys key token w).1
    releases :
        {holders : List String} {w : W} (token : String)
        → Holding (token ∷ holders) w
        → Holding holders (release_merge_lock sys key token w).1
    elsewhere :
        {holders : List String} {w w' : W}
        → Holding holders w
        → locks w' key ≡ locks w key
        → Holding holders w'

  -- Nobody holds the lock, or one token, which is the value of the key.
  abbrev pub Single : List String → W → Type 0
  Single holders w =
      (holders ≡ []) ⊎ ((token : String) × (holders ≡ token ∷ []) × (locks w key ≡ some token))

put_lock_self : (key : String) (v : Option String) (l : Locks) → put_lock key v l key ≡ v
unfolding put_lock
put_lock_self key v l = ground (arith, eq_refl key)

-- The script deletes the key where its value is the token, and else does nothing.
release_own :
    (o : Option String) (token : String) → o ≡ some token → release_script o token ≡ call_del
unfolding release_script
release_own none token e = cc
release_own (some t) token e =
    let same : t ≡ token = cc in
    let equal : str_eq t token ≡ true = (eq_iff t token).1 same in rw equal refl

release_nothing :
    (o : Option String) (token : String) → o ≢ some token → release_script o token ≡ return_zero
unfolding release_script
release_nothing none token n = refl
release_nothing (some t) token n = elim (Bool-cases (str_eq t token)) [
  | inl e ↦ let same : t ≡ token = (eq_iff t token).0 e in absurd (n (ap some same))
  | inr e ↦ rw e refl
]

module _ {W : Type 0} (sys : System W) (locks : W → Locks) (behaves : LockContract sys locks)
    (key : String) where
  abbrev Answers : ℤ → List String → String → Locks → Type 0
  Answers r holders token l =
      let holders' = if eq_ℤ r (pos 0) then token ∷ holders else holders in
      (holders' ≡ []) ⊎ ((t : String) × (holders' ≡ t ∷ []) × (l key ≡ some t))

  -- The lock's value stays, and so does who holds it.
  stays :
      (holders : List String) (l l' : Locks)
      → (holders ≡ []) ⊎ ((t : String) × (holders ≡ t ∷ []) × (l key ≡ some t))
      → l' ≡ l
      → (holders ≡ []) ⊎ ((t : String) × (holders ≡ t ∷ []) × (l' key ≡ some t))
  stays holders l l' (inl e) same = inl e
  stays holders l l' (inr (t, e, f)) same = inr (t, e, subst (λ l. l key ≡ some t) (sym same) f)

  -- Where the key was free nobody holds the lock.
  was_free :
      (holders : List String) (l : Locks)
      → (holders ≡ []) ⊎ ((t : String) × (holders ≡ t ∷ []) × (l key ≡ some t))
      → l key ≡ none
      → holders ≡ []
  was_free holders l (inl e) free = e
  was_free holders l (inr (t, e, f)) free = cc (sym f ∙ free)

  taken :
      (r : RedisReply) (holders : List String) (token : String) (l l' : Locks)
      → (holders ≡ []) ⊎ ((t : String) × (holders ≡ t ∷ []) × (l key ≡ some t))
      → Sets r key token l l'
      → Answers (acquired r) holders token l'
  unfolding acquired
  taken null holders token l l' h (inl e) = stays holders l l' h e
  taken null holders token l l' h (inr (free, e)) = inl (was_free holders l h free)
  taken (integer n) holders token l l' h e = stays holders l l' h e
  taken (string s) holders token l l' h e = stays holders l l' h e
  taken (error s) holders token l l' h e = stays holders l l' h e
  taken (array ms) holders token l l' h e = stays holders l l' h e
  taken nil holders token l l' h e = stays holders l l' h e
  taken (status s) holders token l l' h e = by_text (str_eq s "OK") e
    where
      by_text :
          (b : Bool)
          → (if b then (l key ≡ none) × (l' ≡ put_lock key (some token) l) else l' ≡ l)
          → Answers (if b then pos 0 else pos 1) holders token l'
      by_text true (free, e) = inr (
        token,
        ap (λ hs. token ∷ hs) (was_free holders l h free),
        subst (λ l. l key ≡ some token) (sym e) (put_lock_self key (some token) l),
      )
      by_text false e = stays holders l l' h e

  -- As long as the lock does not expire, it has at most one holder, and that holder's token is its
  -- value, whatever the order of the calls and whichever replies are lost.
  pub Holding-Single :
      (holders : List String) (w : W)
      → Holding sys locks key holders w
      → Single sys locks key holders w
  unfolding acquire_merge_lock release_merge_lock
  Holding-Single holders w (idle e) = inl refl
  Holding-Single holders w (acquires {holders = hs} {w = v} token h) =
      taken _ hs token (locks v) _ (Holding-Single hs v h) (behaves.sets key token v)
  Holding-Single holders w (releases {holders = hs} {w = v} token h) =
      inl (alone hs (Holding-Single (token ∷ hs) v h))
    where
      alone :
          (hs : List String) {l : Option String}
          → (token ∷ hs ≡ []) ⊎ ((t : String) × (token ∷ hs ≡ t ∷ []) × (l ≡ some t))
          → hs ≡ []
      alone hs (inl e) = cc
      alone hs (inr (t, e, f)) = cc
  Holding-Single holders w (elsewhere {w = v} h e) = moved (Holding-Single holders v h)
    where
      moved : Single sys locks key holders v → Single sys locks key holders w
      moved (inl n) = inl n
      moved (inr (t, n, f)) = inr (t, n, e ∙ f)

  holder_frees :
      (o : RedisReply) (l l' : Locks)
      → Runs o call_del key l l'
      → released o ≡ pos 0
      → l' key ≡ none
  unfolding released
  holder_frees null l l' e z = cc
  holder_frees (error s) l l' e z = cc
  holder_frees (integer n) l l' e z = subst (λ l. l key ≡ none) (sym e) (put_lock_self key none l)
  holder_frees (string s) l l' e z = subst (λ l. l key ≡ none) (sym e) (put_lock_self key none l)
  holder_frees (status s) l l' e z = subst (λ l. l key ≡ none) (sym e) (put_lock_self key none l)
  holder_frees (array ms) l l' e z = subst (λ l. l key ≡ none) (sym e) (put_lock_self key none l)
  holder_frees nil l l' e z = subst (λ l. l key ≡ none) (sym e) (put_lock_self key none l)

  other_stays : (o : RedisReply) (l l' : Locks) → Runs o return_zero key l l' → l' ≡ l
  other_stays null l l' (inl e) = e
  other_stays null l l' (inr e) = e
  other_stays (error s) l l' (inl e) = e
  other_stays (error s) l l' (inr e) = e
  other_stays (integer i) l l' e = e
  other_stays (string s) l l' e = e
  other_stays (status s) l l' e = e
  other_stays (array ms) l l' e = e
  other_stays nil l l' e = e

  pub release_merge_lock-frees :
      (token : String) (w : W)
      → locks w key ≡ some token
      → (release_merge_lock sys key token w).0 ≡ pos 0
      → locks (release_merge_lock sys key token w).1 key ≡ none
  unfolding release_merge_lock
  release_merge_lock-frees token w h = holder_frees _ (locks w) _ (
      subst
        (λ e.
          Runs (sys.redis_command (eval release_script key token) w).0 e key (locks w)
            (locks (sys.redis_command (eval release_script key token) w).1))
        (release_own _ token h) (behaves.scripts release_script key token w))

  -- A token that does not hold the lock, as after the lock has expired and another has taken it,
  -- releases nothing, where Redis runs the script that it is sent.
  pub release_merge_lock-other :
      (token : String) (w : W)
      → locks w key ≢ some token
      → locks (release_merge_lock sys key token w).1 ≡ locks w
  unfolding release_merge_lock
  release_merge_lock-other token w n = other_stays _ (locks w) _ (
      subst
        (λ e.
          Runs (sys.redis_command (eval release_script key token) w).0 e key (locks w)
            (locks (sys.redis_command (eval release_script key token) w).1))
        (release_nothing _ token n) (behaves.scripts release_script key token w))
